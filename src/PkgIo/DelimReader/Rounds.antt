-- ===== src/PkgIo/DelimReader/Rounds.antt =====
-- One round of DelimReader.Read, and the loop of them.
use gocica.Base.{
  ℕ, suc, ◌≤◌, ◌<◌, ◌≡◌, refl, sym, ap, subst, ◌∙◌, ◌⊎◌, inl, inr, Bool, true, false, Bool-cases,
  ◌&&◌, ◌||◌, [], ◌∷◌, ◌++◌, append_assoc, none, some, Bytes, length, take, drop, take-append-drop,
  length-take, drop_past, min, arith, Option-cases,
}
use gocica.Base.Go.{eof, is_error, Result, ok, err}
use gocica.PkgIo.Reader.{Reader, IsReader}
use gocica.PkgIo.DelimReader.{
  DelimReader, is_nil, index_byte, broken, is_some, exhausted, cut, refill, read_round, successful,
}
use gocica.PkgIo.DelimReader.Fields.{Plain, index_byte-some, index_byte-none, index_byte-take}

module _ {R : Type 0} (io : Reader R) (is : IsReader io) where
  -- What is left to read, across the delimiters.
  abbrev pub stream : DelimReader R → Bytes
  stream d = d.buf ++ is.content d.r

  abbrev pub Sound : DelimReader R → Type 0
  Sound d = is.Sound d.r × ((d.at_eof ≡ false) ⊎ (is.content d.r ≡ []))

  -- A round that reads `b` from `before`: the delimiter behind it is left out. Only at the end nothing is
  -- read.
  abbrev pub Took : Bytes → Bytes → DelimReader R → Type 0
  Took before b d =
      ((d.reached ≡ true) × (before ≡ b ++ d.delim ∷ stream d))
      ⊎ ((d.reached ≡ false) × (before ≡ b ++ stream d) × ((0 < length b) ⊎ (exhausted d ≡ true)))

  record Cuts (before : DelimReader R) (n : ℕ) (b : Bytes) (d : DelimReader R) : Type 0 where
    pub plain : Plain before.delim b
    pub size : length b ≤ n
    pub same :
        (d.r ≡ before.r)
        × (d.delim ≡ before.delim)
        × (d.first_read ≡ before.first_read)
        × (d.at_eof ≡ before.at_eof)
    pub took : Took (stream before) b d

  cut-missing :
      (n : ℕ) (tmp : Bytes) (d : DelimReader R)
      → index_byte (take n tmp) d.delim ≡ none
      → cut n tmp d ≡ (take n tmp, record d { buf = drop n tmp })
  unfolding cut
  cut-missing n tmp d h = rw (h, cut) refl

  cut-found :
      (n : ℕ) (tmp : Bytes) (d : DelimReader R) (i : ℕ)
      → index_byte (take n tmp) d.delim ≡ some i
      → cut n tmp d ≡ (take i tmp, record d { reached = true; buf = drop (suc i) tmp })
  unfolding cut
  cut-found n tmp d i h = rw (h, cut) refl

  cut-Cuts :
      (n : ℕ) (tmp : Bytes) (d : DelimReader R)
      → d.reached ≡ false
      → (0 < length (take n tmp)) ⊎ ((d.at_eof ≡ true) × (drop n tmp ≡ []))
      → Cuts (record d { buf = tmp }) n (cut n tmp d).0 (cut n tmp d).1
  cut-Cuts n tmp d fresh some_bytes = elim (Option-cases (index_byte (take n tmp) d.delim)) [
    | inl missing ↦
        subst (λ o. Cuts (record d { buf = tmp }) n o.0 o.1) (sym (cut-missing n tmp d missing))
          (record {
            plain = index_byte-none d.delim (take n tmp) missing;
            size = omega (arith, length-take n tmp);
            same = (refl, refl, refl, refl);
            took = inr (
              fresh,
              ap (λ k. k ++ is.content d.r) (sym (take-append-drop n tmp))
                  ∙ append_assoc (take n tmp) (drop n tmp) (is.content d.r),
              elim some_bytes [
                | inl positive ↦ inl positive
                | inr (end, nothing) ↦ inr (rw (end, nothing) refl)
              ],
            );
          })
    | inr (i, there) ↦
        let (found, below) = index_byte-take d.delim n tmp i there in
        let (at, plain) = index_byte-some d.delim tmp i found in
        subst (λ o. Cuts (record d { buf = tmp }) n o.0 o.1) (sym (cut-found n tmp d i there))
          (record {
            plain = plain;
            size = omega (arith, length-take i tmp);
            same = (refl, refl, refl, refl);
            took = inl (
              refl,
              ap (λ k. k ++ is.content d.r) at
                  ∙ append_assoc (take i tmp) (d.delim ∷ drop (suc i) tmp) (is.content d.r),
            );
          })
  ]

  pub record Rounded (before : DelimReader R) (size : ℕ) (b : Bytes) (d : DelimReader R)
      : Type 0 where
    pub plain : Plain before.delim b
    pub fits : length b ≤ size
    pub sound : Sound d
    pub delim : d.delim ≡ before.delim
    pub first_read : d.first_read ≡ before.first_read
    pub took : Took (stream before) b d

  Rounded-Cuts :
      (size n : ℕ) (before d : DelimReader R) (b : Bytes) (d' : DelimReader R)
      → Sound d
      → n ≤ size
      → d.delim ≡ before.delim
      → d.first_read ≡ before.first_read
      → stream d ≡ stream before
      → Cuts d n b d'
      → Rounded before size b d'
  Rounded-Cuts size n before d b d' sound few delim first_read same c =
      let (same_r, same_delim, same_first, same_eof) = c.same in
      record {
        plain = subst (λ k. Plain k b) delim c.plain;
        fits = omega (arith, few, c.size);
        sound = (rw same_r sound.0, rw (same_eof, same_r) sound.1);
        delim = same_delim ∙ delim;
        first_read = same_first ∙ first_read;
        took = subst (λ k. Took k b d') same c.took;
      }

  abbrev Rounding : DelimReader R → ℕ → Result Bytes × DelimReader R → Type 0
  Rounding d size out =
      ((out ≡ (err eof, d)) × (exhausted d ≡ true))
      ⊎ ((b : Bytes) × (d' : DelimReader R) × (out ≡ (ok b, d')) × Rounded d size b d')

  -- The reader behind a Read of the underlying one, without and with the bytes that it gave.
  abbrev advanced : ℕ → DelimReader R → DelimReader R
  advanced size d =
      let (out, r) = io.read size d.r in
      record d { r = r; at_eof = d.at_eof || is_some out.failure }

  abbrev refilled : ℕ → DelimReader R → DelimReader R
  refilled size d = record (advanced size d) { buf = (io.read size d.r).0.bytes }

  refill_lem :
      (size : ℕ) (d : DelimReader R)
      → broken (io.read size d.r).0.failure ≡ none
      → refill io size d
        ≡ successful (cut (length (refilled size d).buf) (refilled size d).buf (advanced size d))
  unfolding refill cut
  refill_lem size d fine = rw (fine, refill) refl

  refilled-Sound :
      (size : ℕ) (d : DelimReader R)
      → Sound d
      → d.at_eof ≡ false
      → 0 < size
      → (broken (io.read size d.r).0.failure ≡ none)
        × Sound (refilled size d)
        × ((0 < length (refilled size d).buf) ⊎ ((refilled size d).at_eof ≡ true))
  unfolding is_error
  refilled-Sound size d sound open_end positive =
      let (split, few, failed) = is.read_reads size d.r positive sound.0 in
      let sound' = is.read_sound size d.r positive sound.0 in
      elim failed [
        | inl (fine, some_bytes) ↦
            (rw fine refl, (sound', inl (rw (open_end, fine) refl)), inl some_bytes)
        | inr (end, nothing) ↦ (rw end refl, (sound', inr nothing), inr (rw (open_end, end) refl))
      ]

  refill-Rounding :
      (size : ℕ) (d : DelimReader R)
      → Sound d
      → d.reached ≡ false
      → d.buf ≡ []
      → d.at_eof ≡ false
      → 0 < size
      → Rounding d size (refill io size d)
  refill-Rounding size d sound fresh empty open_end positive =
      let bytes = (refilled size d).buf in
      let (fine, sound', some_bytes) = refilled-Sound size d sound open_end positive in
      let (split, few, _) = is.read_reads size d.r positive sound.0 in
      inr (
        (cut (length bytes) bytes (advanced size d)).0,
        (cut (length bytes) bytes (advanced size d)).1,
        refill_lem size d fine,
        Rounded-Cuts size (length bytes) d (refilled size d) _ _ sound' few refl refl
            (sym split ∙ ap (λ k. k ++ is.content d.r) (sym empty))
            (cut-Cuts (length bytes) bytes (advanced size d) fresh (elim some_bytes [
              | inl positive' ↦ inl (omega (arith, length-take (length bytes) bytes))
              | inr end ↦ inr (end, drop_past (length bytes) bytes (omega arith))
            ])),
      )

  pub is_nil-false : (bs : Bytes) → is_nil bs ≡ false → 0 < length bs
  is_nil-false [] h = cc
  is_nil-false (b ∷ bs) h = omega arith

  pub is_nil-true : (bs : Bytes) → is_nil bs ≡ true → bs ≡ []
  is_nil-true [] h = refl
  is_nil-true (b ∷ bs) h = cc

  pub round_done :
      (size : ℕ) (d : DelimReader R) → exhausted d ≡ true → read_round io size d ≡ (err eof, d)
  unfolding read_round
  round_done size d h = rw (h, read_round) refl

  round_refill :
      (size : ℕ) (d : DelimReader R)
      → exhausted d ≡ false
      → is_nil d.buf ≡ true
      → read_round io size d ≡ refill io size d
  unfolding read_round
  round_refill size d h k = rw (h, read_round) (rw (k, read_round) refl)

  round_buffered :
      (size : ℕ) (d : DelimReader R)
      → exhausted d ≡ false
      → is_nil d.buf ≡ false
      → read_round io size d ≡ successful (cut (min (length d.buf) size) d.buf d)
  unfolding read_round
  round_buffered size d h k = rw (h, read_round) (rw (k, read_round) refl)

  not_exhausted : (e n : Bool) → (e && n) ≡ false → n ≡ true → e ≡ false
  not_exhausted true n h k = cc
  not_exhausted false n h k = refl

  -- A round ends the read only when all is read.
  pub read_round-Rounding :
      (size : ℕ) (d : DelimReader R)
      → Sound d
      → d.reached ≡ false
      → 0 < size
      → Rounding d size (read_round io size d)
  read_round-Rounding size d sound fresh positive = elim (Bool-cases (exhausted d)) [
    | inl done ↦ inl (round_done size d done, done)
    | inr more ↦ elim (Bool-cases (is_nil d.buf)) [
      | inl empty ↦ subst (Rounding d size) (sym (round_refill size d more empty)) (
          refill-Rounding size d sound fresh (is_nil-true d.buf empty)
            (not_exhausted d.at_eof (is_nil d.buf) more empty) positive)
      | inr some_buf ↦
          let n = min (length d.buf) size in
          let here = is_nil-false d.buf some_buf in
          inr (
            (cut n d.buf d).0,
            (cut n d.buf d).1,
            round_buffered size d more some_buf,
            Rounded-Cuts size n d d _ _ sound (omega arith) refl refl refl
                (cut-Cuts n d.buf d fresh (inl (omega (arith, length-take n d.buf)))),
          )
    ]
  ]
