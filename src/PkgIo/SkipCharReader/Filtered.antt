-- ===== src/PkgIo/SkipCharReader/Filtered.antt =====
-- A SkipCharReader reads what its reader reads, without the skipped byte.
use gocica.Base.{
  ℕ, zero, suc, ◌≤◌, ◌<◌, ◌≡◌, refl, sym, ap, subst, ◌∙◌, ◌⊎◌, inl, inr, true, false, Bool-cases,
  [], ◌∷◌, ◌++◌, append_assoc, Option, none, some, Bytes, length, length-append, take, drop,
  take-append-drop, length-take, arith, ◌==◌,
}
use gocica.Base.Go.{Error, eof}
use gocica.PkgIo.Reader.{Read, Reader, Reads, IsReader}
use gocica.PkgIo.Reader.ReadAll.{read_all, read_all-ReadsAll}
use gocica.PkgIo.SkipCharReader.{
  SkipCharReader, filtered, must_read, last_failure, fill_once, fill, serve, skip_char_reader,
  new_skip_char_reader,
}

pub filtered-append :
    (skip : ℕ) (xs ys : Bytes) → filtered skip (xs ++ ys) ≡ filtered skip xs ++ filtered skip ys
unfolding filtered
filtered-append skip [] ys = refl
filtered-append skip (x ∷ xs) ys = elim (Bool-cases (x == skip)) [
  | inl e ↦ rw (e) (filtered-append skip xs ys)
  | inr e ↦ rw (e) (ap (◌∷◌ x) (filtered-append skip xs ys))
]

pub filtered-length : (skip : ℕ) (xs : Bytes) → length (filtered skip xs) ≤ length xs
unfolding filtered
filtered-length skip [] = omega arith
filtered-length skip (x ∷ xs) = elim (Bool-cases (x == skip)) [
  | inl e ↦ rw e (omega (arith, filtered-length skip xs))
  | inr e ↦ rw e (omega (arith, filtered-length skip xs))
]

abbrev pub still_to_read : ℕ → Option Error → Bytes → Bytes
still_to_read skip none left = filtered skip left
still_to_read skip (some e) left = []

abbrev pub Ended : Option Error → Type 0
Ended failure = (failure ≡ none) ⊎ (failure ≡ some eof)

last_failure-Reads :
    (skip : ℕ) (rest left : Bytes) (failure : Option Error) {m : ℕ}
    → Ended failure
    → 0 < m
    → ((last_failure rest failure ≡ none) × (0 < m))
      ⊎ ((last_failure rest failure ≡ some eof) × (rest ++ still_to_read skip failure left ≡ []))
last_failure-Reads skip [] left none ended positive = inl (refl, positive)
last_failure-Reads skip [] left (some e) (inl no_error) positive = cc
last_failure-Reads skip [] left (some e) (inr end) positive = inr (end, refl)
last_failure-Reads skip (b ∷ bs) left failure ended positive = inl (refl, positive)

-- A Read of a filled reader.
serve-Reads :
    {R : Type 0} (content : R → Bytes) (n : ℕ) (r : R) (skip : ℕ) (buf : Bytes)
    (failure : Option Error)
    → 0 < n
    → Ended failure
    → must_read buf failure ≡ false
    → let out = serve n (record { r = r; skip = skip; buf = buf; failure = failure }) in
      Reads
        (buf ++ still_to_read skip failure (content r))
        n
        out.0
        (out.1.buf ++ still_to_read out.1.skip out.1.failure (content out.1.r))
unfolding serve
serve-Reads content n r skip [] none positive ended filled = cc
serve-Reads content n r skip [] (some e) positive (inl no_error) filled = cc
serve-Reads content n r skip [] (some e) positive (inr end) filled =
    (refl, omega arith, inr (end, refl))
serve-Reads content n r skip (b ∷ bs) failure positive ended filled =
    let more = still_to_read skip failure (content r) in
    (
      ap (λ k. k ++ more) (sym (take-append-drop n (b ∷ bs)))
          ∙ append_assoc (take n (b ∷ bs)) (drop n (b ∷ bs)) more,
      omega (arith, length-take n (b ∷ bs)),
      last_failure-Reads skip (drop n (b ∷ bs)) (content r) failure ended
          (omega (arith, length-take n (b ∷ bs))),
    )

pub serve_kept :
    {R : Type 0} (n : ℕ) (r : R) (skip : ℕ) (buf : Bytes) (failure : Option Error)
    → let out = serve n (record { r = r; skip = skip; buf = buf; failure = failure }) in
      (out.1.r ≡ r) × (out.1.failure ≡ failure)
unfolding serve
serve_kept n r skip [] failure = (refl, refl)
serve_kept n r skip (b ∷ bs) failure = (refl, refl)

pub must_read-true :
    (buf : Bytes) (failure : Option Error)
    → must_read buf failure ≡ true
    → (buf ≡ []) × (failure ≡ none)
must_read-true [] none h = (refl, refl)
must_read-true [] (some e) h = cc
must_read-true (b ∷ bs) failure h = cc

still_to_read-Reads :
    (skip : ℕ) (before : Bytes) (out : Read) (after : Bytes)
    → Reads before 1024 out after
    → filtered skip before ≡ filtered skip out.bytes ++ still_to_read skip out.failure after
unfolding filtered
still_to_read-Reads skip before out after (split, _, failed) =
    ap (filtered skip) split
    ∙ filtered-append skip out.bytes after
    ∙ ap (◌++◌ (filtered skip out.bytes))
        (elim failed [ inl (fine, _) ↦ rw fine refl | inr (end, nothing) ↦ rw (end, nothing) refl ])

Reads-progress :
    (before after : Bytes) (n : ℕ) (out : Read)
    → Reads before n out after
    → Ended out.failure × ((out.failure ≡ some eof) ⊎ (length after < length before))
Reads-progress before after n out (split, _, failed) = elim failed [
  | inl (fine, positive) ↦
      (inl fine, inr (omega (arith, ap length split, length-append out.bytes after)))
  | inr (end, _) ↦ (inr end, inl end)
]

module _ {R : Type 0} (io : Reader R) (is : IsReader io) where
  abbrev pub left : SkipCharReader R → Bytes
  left scr = scr.buf ++ still_to_read scr.skip scr.failure (is.content scr.r)

  fill_once-left :
      (scr : SkipCharReader R)
      → is.Sound scr.r
      → must_read scr.buf scr.failure ≡ true
      → left (fill_once io scr) ≡ left scr
  unfolding fill_once
  fill_once-left scr sound must =
      append_assoc scr.buf _ _
      ∙ ap (◌++◌ scr.buf) (
          sym (still_to_read-Reads scr.skip _ _ _ (is.read_reads 1024 scr.r (omega arith) sound))
          ∙ ap (λ e. still_to_read scr.skip e (is.content scr.r))
              (sym (must_read-true scr.buf scr.failure must).1))

  abbrev pub Fueled : ℕ → SkipCharReader R → Type 0
  Fueled fuel scr = is.Sound scr.r × Ended scr.failure × (length (is.content scr.r) < fuel)

  abbrev IsFilled : SkipCharReader R → SkipCharReader R → Type 0
  IsFilled scr after =
      (left after ≡ left scr)
      × is.Sound after.r
      × Ended after.failure
      × (length (is.content after.r) ≤ length (is.content scr.r))
      × (must_read after.buf after.failure ≡ false)

  pub fill-again :
      (fuel : ℕ) (scr : SkipCharReader R)
      → must_read scr.buf scr.failure ≡ true
      → fill io (suc fuel) scr ≡ fill io fuel (fill_once io scr)
  unfolding fill
  fill-again fuel scr must = rw (must, fill) refl

  pub fill-done :
      (fuel : ℕ) (scr : SkipCharReader R)
      → must_read scr.buf scr.failure ≡ false
      → fill io fuel scr ≡ scr
  unfolding fill
  fill-done zero scr done = refl
  fill-done (suc fuel) scr done = rw (done, fill) refl

  some_failure :
      (buf : Bytes) (failure : Option Error) → failure ≡ some eof → must_read buf failure ≡ false
  some_failure [] none h = cc
  some_failure [] (some e) h = refl
  some_failure (b ∷ bs) failure h = refl

  -- Rounds enough for what is left fill the buffer, or meet the end.
  fill-IsFilled :
      (fuel : ℕ) (scr : SkipCharReader R)
      → is.Sound scr.r
      → Ended scr.failure
      → (scr.failure ≡ some eof) ⊎ (length (is.content scr.r) < fuel)
      → IsFilled scr (fill io fuel scr)
  unfolding fill fill_once
  fill-IsFilled zero scr sound ended (inl end) =
      (refl, sound, ended, omega arith, some_failure scr.buf scr.failure end)
  fill-IsFilled zero scr sound ended (inr few) = absurd (omega (arith, few))
  fill-IsFilled (suc fuel) scr sound ended enough =
      elim (Bool-cases (must_read scr.buf scr.failure)) [
        | inr done ↦
            subst (IsFilled scr) (sym (fill-done (suc fuel) scr done))
              (refl, sound, ended, omega arith, done)
        | inl must ↦
            let came = is.read_reads 1024 scr.r (omega arith) sound in
            let (ended', less) = Reads-progress _ _ 1024 _ came in
            let (same, sound', after, no_more, filled) =
              fill-IsFilled fuel (fill_once io scr) (is.read_sound 1024 scr.r (omega arith) sound)
                ended'
                (elim less [
                  | inl end ↦ inl end
                  | inr shorter ↦ elim enough [
                    | inl end ↦ absurd (cc ((must_read-true scr.buf scr.failure must).1))
                    | inr few ↦ inr (omega (arith, few, shorter))
                  ]
                ]) in
            subst (IsFilled scr) (sym (fill-again fuel scr must)) (
              same ∙ fill_once-left scr sound must,
              sound',
              after,
              omega (
                arith,
                no_more,
                ap length came.0,
                length-append (io.read 1024 scr.r).0.bytes (is.content (io.read 1024 scr.r).1),
              ),
              filled,
            )
      ]

  pub read-Sound :
      (fuel n : ℕ) (scr : SkipCharReader R)
      → 0 < n
      → Fueled fuel scr
      → Fueled fuel ((skip_char_reader io fuel).read n scr).1
  unfolding skip_char_reader
  read-Sound fuel n scr positive (sound, ended, enough) =
      let (same, sound', after, no_more, filled) =
        fill-IsFilled fuel scr sound ended (inr enough) in
      let full = fill io fuel scr in
      let (same_r, same_failure) = serve_kept n full.r full.skip full.buf full.failure in
      rw (same_r, same_failure) (sound', after, omega arith)

  pub read-Reads :
      (fuel n : ℕ) (scr : SkipCharReader R)
      → 0 < n
      → Fueled fuel scr
      → let out = (skip_char_reader io fuel).read n scr in Reads (left scr) n out.0 (left out.1)
  unfolding skip_char_reader
  read-Reads fuel n scr positive (sound, ended, enough) =
      let (same, sound', after, no_more, filled) =
        fill-IsFilled fuel scr sound ended (inr enough) in
      let full = fill io fuel scr in
      subst (λ b. Reads b n (serve n full).0 (left (serve n full).1)) same
        (serve-Reads is.content n full.r full.skip full.buf full.failure positive after filled)

  abbrev pub skipped : (fuel : ℕ) → IsReader (skip_char_reader io fuel)
  skipped fuel = record {
    content = left;
    Sound = Fueled fuel;
    read_sound = read-Sound fuel;
    read_reads = read-Reads fuel;
  }

  -- Over a reader that ends with io.EOF, a new SkipCharReader that is read to its end gives the content
  -- of the reader less the skipped byte, however the reader cuts it into pieces and whatever the size of
  -- the buffer. The fuel is above the number of bytes of the content.
  pub read_all-filtered :
      (r : R) (skip fuel size : ℕ)
      → is.Sound r
      → 0 < size
      → length (is.content r) < fuel
      → (read_all (skip_char_reader io fuel) fuel size (new_skip_char_reader r skip)).0
        ≡ filtered skip (is.content r)
  unfolding new_skip_char_reader
  read_all-filtered r skip fuel size sound positive enough =
      (read_all-ReadsAll (skip_char_reader io fuel) (skipped fuel) size positive (λ t. r)
        (λ t h. refl) fuel (new_skip_char_reader r skip) (sound, inl refl, enough)
        (omega (arith, enough, filtered-length skip (is.content r)))).all
