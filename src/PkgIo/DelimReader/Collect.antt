-- ===== src/PkgIo/DelimReader/Collect.antt =====
-- The segments that a client reads one after the other are the fields of the text.
use gocica.Base.{
  ℕ, zero, suc, ◌≤◌, ◌<◌, ◌≡◌, refl, sym, ap, ap₂, eq_nil_of_length, ◌∙◌, inl, inr, true, false,
  Bool-cases, List, [], ◌∷◌, Bytes, length, arith,
}
use gocica.Base.Go.{Result, ok, err}
use gocica.PkgIo.Reader.{Reader, IsReader}
use gocica.PkgIo.Reader.ReadAll.{read_all, read_all-ReadsAll}
use gocica.PkgIo.DelimReader.{DelimReader, exhausted, delim_reader, next}
use gocica.PkgIo.DelimReader.Fields.{
  head_field, after_field, skip_delims, fields, filled, add_piece, fields-skip, fields-front,
  skip_delims-length, after_field-length, skip_delims_idem, skip-after_field, head_field-length,
}
use gocica.PkgIo.DelimReader.Rounds.{stream}
use gocica.PkgIo.DelimReader.Segments.{ahead, segment, rest, exhausted-stream}
use gocica.PkgIo.DelimReader.Delimited.{Fueled, read-Serves, delimited}

module _ {R : Type 0} (io : Reader R) (is : IsReader io) (fuel : ℕ) where
  -- The fields that a client reads: Next, and then the segment to its end, `k` times at most.
  abbrev pub follow :
      ℕ → (DelimReader R → List Bytes) → Result (Unit {0}) × DelimReader R → List Bytes
  follow size others (err e, d) = []
  follow size others (ok _, d) =
      let (bytes, d') = read_all (delim_reader io fuel) fuel size d in bytes ∷ others d'

  abbrev pub segments : ℕ → ℕ → DelimReader R → List Bytes
  segments zero size d = []
  segments (suc k) size d = follow size (segments k size) (next d)

  abbrev pub upcoming : DelimReader R → Bytes
  upcoming d = skip_delims d.delim (stream io is d)

  skip-ahead : (d : DelimReader R) → skip_delims d.delim (ahead io is d) ≡ upcoming d
  skip-ahead d = elim (Bool-cases d.first_read) [
    | inl first ↦ rw first (skip_delims_idem d.delim (stream io is d))
    | inr later ↦ rw later refl
  ]

  -- What is ahead of a reader at the end of its segment.
  pub upcoming-rest :
      (d : DelimReader R) → segment io is d ≡ [] → skip_delims d.delim (rest io is d) ≡ upcoming d
  upcoming-rest d h = elim (Bool-cases d.reached) [
    | inl reached ↦ rw reached refl
    | inr fresh ↦ rw fresh (skip-after_field d.delim (ahead io is d) (rw fresh at h)) ∙ skip-ahead d
  ]

  abbrev pub moved : DelimReader R → DelimReader R
  moved d = record d { reached = false; first_read = true }

  abbrev read_segment : ℕ → DelimReader R → Bytes × DelimReader R
  read_segment size d = read_all (delim_reader io fuel) fuel size (moved d)

  segments-end :
      (k size : ℕ) (d : DelimReader R) → exhausted d ≡ true → segments (suc k) size d ≡ []
  unfolding next
  segments-end k size d h = rw (h, segments, next) refl

  pub next-on : (d : DelimReader R) → exhausted d ≡ false → next d ≡ (ok tt, moved d)
  unfolding next
  next-on d h = rw (h, next) refl

  segments-on :
      (k size : ℕ) (d : DelimReader R)
      → exhausted d ≡ false
      → segments (suc k) size d ≡ (read_segment size d).0 ∷ segments k size (read_segment size d).1
  segments-on k size d h = ap (follow size (segments k size)) (next-on d h)

  -- A segment that is read to its end is the first field, and leaves the others.
  read_segment_lem :
      (size : ℕ) (d : DelimReader R)
      → 0 < size
      → Fueled io is fuel d
      → let (bytes, d') = read_segment size d in
        (bytes ≡ head_field d.delim (upcoming d))
        × (upcoming d' ≡ skip_delims d.delim (after_field d.delim (upcoming d)))
        × Fueled io is fuel d'
        × (d'.delim ≡ d.delim)
  read_segment_lem size d positive fueled =
      let view : DelimReader R → Bytes × ℕ = λ t. (rest io is t, t.delim) in
      let done =
        read_all-ReadsAll (delim_reader io fuel) (delimited io is fuel) size positive view
          (λ t sound.
            let served = read-Serves io is fuel size t positive sound in
            ap₂ (λ x y. (x, y)) served.rest_same served.delim)
          fuel (moved d) fueled
          (omega (
            arith,
            head_field-length d.delim (upcoming d),
            skip_delims-length d.delim (stream io is d),
            fueled.1,
          )) in
      let d' = (read_segment size d).1 in
      let delim : d'.delim ≡ d.delim = ap (λ p. p.1) done.kept in
      let behind : rest io is d' ≡ after_field d.delim (upcoming d) = ap (λ p. p.0) done.kept in
      (
        done.all,
        sym (upcoming-rest d' done.nothing_left)
            ∙ ap (skip_delims d'.delim) behind
            ∙ ap (λ c. skip_delims c (after_field d.delim (upcoming d))) delim,
        done.sound,
        delim,
      )

  pub fields-nil : (c : ℕ) → fields c [] ≡ []
  unfolding fields
  fields-nil c = refl

  -- However the reader below cuts the text into pieces, and whatever the size of the buffer, the segments
  -- that a client reads are, less the empty ones, the fields of the text that is left, when it reads a
  -- segment more for every byte. The reader below fails with io.EOF only, and the loops have the fuel for
  -- what is left.
  pub segments-fields :
      (k size : ℕ) (d : DelimReader R)
      → 0 < size
      → Fueled io is fuel d
      → length (upcoming d) ≤ k
      → filled (segments k size d) ≡ fields d.delim (stream io is d)
  segments-fields zero size d positive fueled enough =
      sym (fields-nil d.delim)
      ∙ ap (fields d.delim) (sym (eq_nil_of_length (upcoming d) (omega (arith, enough))))
      ∙ fields-skip d.delim (stream io is d)
  segments-fields (suc k) size d positive fueled enough = elim (Bool-cases (exhausted d)) [
    | inl done ↦
        ap filled (segments-end k size d done)
        ∙ sym (fields-nil d.delim)
        ∙ ap (fields d.delim) (sym (exhausted-stream io is d fueled.0 done))
    | inr more ↦
        let (bytes, next_up, fueled', delim) = read_segment_lem size d positive fueled in
        let d' = (read_segment size d).1 in
        let front = upcoming d in
        let tail : filled (segments k size d') ≡ fields d.delim (after_field d.delim front) =
          segments-fields k size d' positive fueled' (
            omega (
              arith,
              ap length next_up,
              skip_delims-length d.delim (after_field d.delim front),
              after_field-length d.delim front,
              enough,
            ))
          ∙ sym (fields-skip d'.delim (stream io is d'))
          ∙ ap₂ fields delim next_up
          ∙ fields-skip d.delim (after_field d.delim front) in
        ap filled (segments-on k size d more)
        ∙ ap₂ add_piece bytes tail
        ∙ fields-front d.delim (stream io is d)
  ]
