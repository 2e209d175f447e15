-- ===== src/PkgIo/DelimReader/Loop.antt =====
-- The loop of DelimReader.Read gets bytes of the segment, or meets the end of the stream.
use gocica.Base.{
  ℕ, zero, suc, ◌+◌, ◌≤◌, ◌<◌, ◌≡◌, refl, sym, ap, subst, ◌∙◌, ◌⊎◌, inl, inr, Bool, true, false,
  Bool-cases, ◌&&◌, [], ◌∷◌, Bytes, length, arith,
}
use gocica.Base.Go.{eof, Result, ok, err}
use gocica.PkgIo.Reader.{Reader, IsReader}
use gocica.PkgIo.DelimReader.{
  DelimReader, is_nil, exhausted, read_round, unreached, goes_on, read_rounds,
}
use gocica.PkgIo.DelimReader.Fields.{head_field, after_field, skip_delims, at_delim}
use gocica.PkgIo.DelimReader.Rounds.{
  stream, Sound, Rounded, is_nil-true, round_done, read_round-Rounding,
}
use gocica.PkgIo.DelimReader.Segments.{
  ahead, segment, rest, started, Advances, both_true, exhausted-stream, Advances-Rounded,
}

module _ {R : Type 0} (io : Reader R) (is : IsReader io) where
  -- A round of nothing at the start of a segment: a delimiter is skipped, or all is read.
  record Skips (d d' : DelimReader R) : Type 0 where
    pub segment_same : segment io is d ≡ segment io is (unreached d')
    pub rest_same : rest io is d ≡ rest io is (unreached d')
    pub less :
        (length (stream io is d') < length (stream io is d))
        ⊎ ((exhausted d' ≡ true) × (stream io is d ≡ stream io is d'))

  Skips-ahead :
      (d d' : DelimReader R)
      → d.reached ≡ false
      → d'.delim ≡ d.delim
      → ahead io is d ≡ ahead io is d'
      → (length (stream io is d') < length (stream io is d))
        ⊎ ((exhausted d' ≡ true) × (stream io is d ≡ stream io is d'))
      → Skips d d'
  Skips-ahead d d' fresh delim same less = record {
    segment_same =
        rw fresh
          (ap (head_field d.delim) same ∙ ap (λ k. head_field k (ahead io is d')) (sym delim));
    rest_same =
        rw fresh
          (ap (after_field d.delim) same ∙ ap (λ k. after_field k (ahead io is d')) (sym delim));
    less = less;
  }

  Skips-Rounded :
      (d : DelimReader R) (size : ℕ) (d' : DelimReader R)
      → d.reached ≡ false
      → d.first_read ≡ true
      → Rounded io is d size [] d'
      → Skips d d'
  Skips-Rounded d size d' fresh first r = elim r.took [
    | inl (found, split) ↦
        let (_, _, skipped) = at_delim d'.delim (stream io is d') in
        Skips-ahead d d' fresh r.delim
          (rw (first, r.first_read ∙ first)
            (ap (skip_delims d.delim) split
              ∙ ap (λ k. skip_delims k (d'.delim ∷ stream io is d')) (sym r.delim)
              ∙ skipped))
          (inl (omega (arith, ap length split)))
    | inr (missing, split, some_bytes) ↦
        Skips-ahead d d' fresh r.delim (rw (r.first_read, r.delim, split) refl) (elim some_bytes [
          | inl positive ↦ absurd (omega (arith, positive))
          | inr done ↦ inr (done, split)
        ])
  ]

  abbrev pub Enough : ℕ → DelimReader R → Type 0
  Enough fuel d = ((exhausted d ≡ true) × (0 < fuel)) ⊎ (length (stream io is d) + 1 < fuel)

  rounds-again :
      (fuel size : ℕ) (d : DelimReader R)
      → goes_on (read_round io size (unreached d)) ≡ true
      → read_rounds io (suc fuel) size d
        ≡ read_rounds io fuel size (read_round io size (unreached d)).1
  unfolding read_rounds
  rounds-again fuel size d h = rw (h, read_rounds) refl

  rounds-done :
      (fuel size : ℕ) (d : DelimReader R)
      → goes_on (read_round io size (unreached d)) ≡ false
      → read_rounds io (suc fuel) size d ≡ read_round io size (unreached d)
  unfolding read_rounds
  rounds-done fuel size d h = rw (h, read_rounds) refl

  -- The loop ends at the end of the stream, or with bytes of the segment.
  abbrev pub Looped : DelimReader R → ℕ → Result Bytes × DelimReader R → Type 0
  Looped d size out =
      ((d' : DelimReader R) × (out ≡ (err eof, d')) × Advances io is d size [] d')
      ⊎ ((b : Bytes) × (d' : DelimReader R) × (out ≡ (ok b, d'))
          × Advances io is d size b (started io is d'))

  pub ahead-nil : (d : DelimReader R) → stream io is d ≡ [] → ahead io is d ≡ []
  ahead-nil d h = elim (Bool-cases d.first_read) [
    | inl first ↦ rw first (ap (skip_delims d.delim) h)
    | inr later ↦ rw later h
  ]

  Advances-exhausted :
      (d : DelimReader R) (size : ℕ)
      → Sound io is d
      → exhausted d ≡ true
      → Advances io is (unreached d) size [] (unreached d)
  Advances-exhausted d size sound done = record {
    segment_split = refl;
    rest_same = refl;
    fits = omega arith;
    sound = sound;
    delim = refl;
    less = omega arith;
    progress = inr (ap (head_field d.delim) (ahead-nil d (exhausted-stream io is d sound done)));
  }

  Skips-less :
      (d d' : DelimReader R) → Skips d d' → length (stream io is d') ≤ length (stream io is d)
  Skips-less d d' k = elim k.less [
    | inl fewer ↦ omega (arith, fewer)
    | inr (_, same) ↦ omega (arith, ap length same)
  ]

  Advances-Skips :
      (d d' d'' : DelimReader R) (size : ℕ) (b : Bytes)
      → Skips d d'
      → d'.delim ≡ d.delim
      → Advances io is (unreached d') size b d''
      → Advances io is d size b d''
  Advances-Skips d d' d'' size b k delim a = record {
    segment_split = k.segment_same ∙ a.segment_split;
    rest_same = k.rest_same ∙ a.rest_same;
    fits = a.fits;
    sound = a.sound;
    delim = a.delim ∙ delim;
    less = omega (arith, a.less, Skips-less d d' k);
    progress = a.progress;
  }

  Looped-Skips :
      (d d' : DelimReader R) (size : ℕ) (out : Result Bytes × DelimReader R)
      → Skips d d'
      → d'.delim ≡ d.delim
      → Looped (unreached d') size out
      → Looped d size out
  Looped-Skips d d' size out k delim (inl (d'', e, a)) =
      inl (d'', e, Advances-Skips d d' d'' size [] k delim a)
  Looped-Skips d d' size out k delim (inr (b, d'', e, a)) =
      inr (b, d'', e, Advances-Skips d d' (started io is d'') size b k delim a)

  Enough-Skips :
      (fuel : ℕ) (d d' : DelimReader R)
      → Skips d d'
      → length (stream io is d) + 1 < suc fuel
      → Enough fuel d'
  Enough-Skips fuel d d' k few = elim k.less [
    | inl fewer ↦ inr (omega (arith, few, fewer))
    | inr (done, same) ↦ inl (done, omega (arith, few))
  ]

  no_fuel : (d : DelimReader R) → Enough 0 d → ⊥
  no_fuel d (inl (done, h)) = omega (arith, h)
  no_fuel d (inr h) = omega (arith, h)

  some_or_later :
      (b : Bytes) (first : Bool) → (is_nil b && first) ≡ false → (0 < length b) ⊎ (first ≡ false)
  some_or_later [] true h = cc
  some_or_later [] false h = inr refl
  some_or_later (x ∷ b) first h = inl (omega arith)

  pub read_rounds-Looped :
      (fuel size : ℕ) (d : DelimReader R)
      → Sound io is d
      → 0 < size
      → Enough fuel d
      → Looped (unreached d) size (read_rounds io fuel size d)
  read_rounds-Looped zero size d sound positive enough = absurd (no_fuel d enough)
  read_rounds-Looped (suc fuel) size d sound positive enough =
      elim (read_round-Rounding io is size (unreached d) sound refl positive) [
        | inl (e, done) ↦ inl (
          unreached d,
          rounds-done fuel size d (ap goes_on e) ∙ e,
          Advances-exhausted d size sound done,
        )
        | inr (b, d', e, r) ↦ elim (Bool-cases (is_nil b && d'.first_read)) [
          | inl again ↦
              let (empty, first) = both_true io is (is_nil b) d'.first_read again in
              let skips = Skips-Rounded (unreached d) size d' refl (sym r.first_read ∙ first) (
                subst (λ k. Rounded io is (unreached d) size k d') (is_nil-true io is b empty) r) in
              let few : length (stream io is d) + 1 < suc fuel = elim enough [
                | inl (done, _) ↦ absurd (cc (round_done io is size (unreached d) done))
                | inr h ↦ h
              ] in
              let after : read_rounds io (suc fuel) size d ≡ read_rounds io fuel size d' =
                rounds-again fuel size d (ap goes_on e ∙ again)
                ∙ ap (λ o. read_rounds io fuel size o.1) e in
              subst (Looped (unreached d) size) (sym after) (
                Looped-Skips (unreached d) d' size _ skips r.delim (
                  read_rounds-Looped fuel size d' r.sound positive
                    (Enough-Skips fuel (unreached d) d' skips few)))
          | inr last ↦ inr (
            b,
            d',
            rounds-done fuel size d (ap goes_on e ∙ last) ∙ e,
            Advances-Rounded io is (unreached d) size b d' refl
                (elim (some_or_later b d'.first_read last) [
                  | inl some_bytes ↦ inl some_bytes
                  | inr later ↦ inr (sym r.first_read ∙ later)
                ])
                r,
          )
        ]
      ]
