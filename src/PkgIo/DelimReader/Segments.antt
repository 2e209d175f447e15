-- ===== src/PkgIo/DelimReader/Segments.antt =====
-- A DelimReader reads one segment of the stream, and then stops until Next.
use gocica.Base.{
  ℕ, ◌≤◌, ◌<◌, ◌≡◌, refl, ap, ◌∙◌, ◌⊎◌, inl, inr, Bool, true, false, Bool-cases, ◌&&◌, [], ◌∷◌,
  ◌++◌, Bytes, length, length-append, arith, if◌then◌else◌,
}
use gocica.PkgIo.Reader.{Reader, IsReader}
use gocica.PkgIo.DelimReader.{DelimReader, is_nil, exhausted}
use gocica.PkgIo.DelimReader.Fields.{
  Plain, head_field, after_field, skip_delims, head_field-append, after_field-append,
  skip_delims-Plain, at_delim,
}
use gocica.PkgIo.DelimReader.Rounds.{stream, Sound, Rounded, is_nil-true}

module _ {R : Type 0} (io : Reader R) (is : IsReader io) where
  -- A new segment starts behind the delimiters that are next.
  abbrev pub ahead : DelimReader R → Bytes
  ahead d = if d.first_read then skip_delims d.delim (stream io is d) else stream io is d

  -- What is left of the segment, and what is behind it and its delimiter.
  abbrev pub segment : DelimReader R → Bytes
  segment d = if d.reached then [] else head_field d.delim (ahead d)

  abbrev pub rest : DelimReader R → Bytes
  rest d = if d.reached then stream io is d else after_field d.delim (ahead d)

  abbrev pub started : DelimReader R → DelimReader R
  started d = record d { first_read = false }

  -- What a Read that gives `b` does.
  pub record Advances (d : DelimReader R) (size : ℕ) (b : Bytes) (d' : DelimReader R) : Type 0 where
    pub segment_split : segment d ≡ b ++ segment d'
    pub rest_same : rest d ≡ rest d'
    pub fits : length b ≤ size
    pub sound : Sound io is d'
    pub delim : d'.delim ≡ d.delim
    pub less : length (stream io is d') ≤ length (stream io is d)
    pub progress : (0 < length b) ⊎ (segment d' ≡ [])

  pub both_true : (a b : Bool) → (a && b) ≡ true → (a ≡ true) × (b ≡ true)
  both_true true true h = (refl, refl)
  both_true true false h = cc
  both_true false b h = cc

  pub exhausted-stream :
      (d : DelimReader R) → Sound io is d → exhausted d ≡ true → stream io is d ≡ []
  exhausted-stream d sound h =
      let (at_end, empty) = both_true d.at_eof (is_nil d.buf) h in
      elim sound.1 [
        | inl open_end ↦ absurd (cc)
        | inr nothing ↦ rw (is_nil-true io is d.buf empty, nothing) refl
      ]

  ahead-Plain :
      (d : DelimReader R) (b x : Bytes)
      → stream io is d ≡ b ++ x
      → Plain d.delim b
      → (0 < length b) ⊎ (d.first_read ≡ false)
      → ahead d ≡ b ++ x
  ahead-Plain d b x split plain last = elim (Bool-cases d.first_read) [
    | inr later ↦ rw (later) split
    | inl first ↦ elim last [
      | inl positive ↦
          rw (first) (ap (skip_delims d.delim) split ∙ skip_delims-Plain d.delim b x plain positive)
      | inr later ↦ absurd (cc)
    ]
  ]

  -- The segment and the rest, when a piece without the delimiter is next.
  segment-Plain :
      (d : DelimReader R) (b x : Bytes)
      → d.reached ≡ false
      → stream io is d ≡ b ++ x
      → Plain d.delim b
      → (0 < length b) ⊎ (d.first_read ≡ false)
      → (segment d ≡ b ++ head_field d.delim x) × (rest d ≡ after_field d.delim x)
  segment-Plain d b x fresh split plain last =
      let e = ahead-Plain d b x split plain last in
      (
        rw fresh (ap (head_field d.delim) e ∙ head_field-append d.delim b x plain),
        rw fresh (ap (after_field d.delim) e ∙ after_field-append d.delim b x plain),
      )

  -- The last round: its bytes go out.
  pub Advances-Rounded :
      (d : DelimReader R) (size : ℕ) (b : Bytes) (d' : DelimReader R)
      → d.reached ≡ false
      → (0 < length b) ⊎ (d.first_read ≡ false)
      → Rounded io is d size b d'
      → Advances d size b (started d')
  Advances-Rounded d size b d' fresh last r = elim r.took [
    | inl (found, split) ↦
        let (here, behind) =
          segment-Plain d b (d'.delim ∷ stream io is d') fresh split r.plain last in
        let (none_left, all_behind, _) = at_delim d.delim (stream io is d') in
        record {
          segment_split = here ∙ ap (◌++◌ b) (rw (r.delim, found) none_left);
          rest_same = behind ∙ rw (r.delim, found) all_behind;
          fits = r.fits;
          sound = r.sound;
          delim = r.delim;
          less = omega (arith, ap length split, length-append b (d'.delim ∷ stream io is d'));
          progress = inr (rw found refl);
        }
    | inr (missing, split, some_bytes) ↦
        let (here, behind) = segment-Plain d b (stream io is d') fresh split r.plain last in
        record {
          segment_split = here ∙ ap (◌++◌ b) (rw (r.delim, missing) refl);
          rest_same = behind ∙ rw (r.delim, missing) refl;
          fits = r.fits;
          sound = r.sound;
          delim = r.delim;
          less = omega (arith, ap length split, length-append b (stream io is d'));
          progress = elim some_bytes [
            | inl positive ↦ inl positive
            | inr done ↦ inr (rw (missing, exhausted-stream d' r.sound done) refl)
          ];
        }
  ]
