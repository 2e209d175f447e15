-- ===== src/PkgIo/DelimReader/Lines.antt =====
-- A client that reads a segment with Next and any Reads takes the next field of the text.
use gocica.Base.{
  ℕ, ◌≡◌, ◌≢◌, refl, sym, ap, ap₂, ◌∙◌, ◌⊎◌, inl, inr, false, Bool-cases, List, [], ◌∷◌, ◌++◌,
  append-nil, Bytes, length, ◌<◌, arith, ◌==◌,
}
use gocica.Base.Go.{eof, ok, err}
use gocica.PkgIo.Reader.{Reader, IsReader}
use gocica.PkgIo.Reader.Trace.{Trace, Trace-Sound, Trace-kept}
use gocica.PkgIo.DelimReader.{DelimReader, exhausted, delim_reader, next}
use gocica.PkgIo.DelimReader.Fields.{
  Plain, head_field, after_field, skip_delims, fields, fields-skip, fields-head, head_field-append,
  after_field-append, at_delim,
}
use gocica.PkgIo.DelimReader.Rounds.{stream}
use gocica.PkgIo.DelimReader.Segments.{segment, rest, exhausted-stream}
use gocica.PkgIo.DelimReader.Delimited.{Fueled, read-Serves, delimited}
use gocica.PkgIo.DelimReader.Collect.{upcoming, upcoming-rest, moved, next-on, fields-nil}

-- The text without the delimiters in front is empty or starts with a byte of a field.
skip_delims-cases :
    (c : ℕ) (bs : Bytes)
    → (skip_delims c bs ≡ [])
      ⊎ ((b : ℕ) × (more : Bytes) × (skip_delims c bs ≡ b ∷ more) × ((b == c) ≡ false))
skip_delims-cases c [] = inl refl
skip_delims-cases c (b ∷ bs) = elim (Bool-cases (b == c)) [
  | inl e ↦ rw e (skip_delims-cases c bs)
  | inr e ↦ inr (b, bs, rw e refl, e)
]

fields-front_cons :
    (c b : ℕ) (more : Bytes) (bs : Bytes)
    → skip_delims c bs ≡ b ∷ more
    → (b == c) ≡ false
    → fields c bs ≡ head_field c (skip_delims c bs) ∷ fields c (after_field c (skip_delims c bs))
fields-front_cons c b more bs front plain =
    sym (fields-skip c bs)
    ∙ ap (fields c) front
    ∙ fields-head c b more plain
    ∙ sym (ap (λ s. head_field c s ∷ fields c (after_field c s)) front)

-- A line in front of others.
pub fields-line :
    (c : ℕ) (l bs : Bytes) → Plain c l → 0 < length l → fields c (l ++ c ∷ bs) ≡ l ∷ fields c bs
fields-line c [] bs plain positive = absurd (omega (arith, positive))
fields-line c (b ∷ l) bs plain positive =
    let (nothing, behind, _) = at_delim c bs in
    fields-head c b (l ++ c ∷ bs) plain.0
    ∙ ap₂ (λ h t. h ∷ fields c t)
        (head_field-append c (b ∷ l) (c ∷ bs) plain
          ∙ ap (◌++◌ (b ∷ l)) nothing
          ∙ append-nil (b ∷ l))
        (after_field-append c (b ∷ l) (c ∷ bs) plain ∙ behind)

fields-end :
    {R : Type 0} (io : Reader R) (is : IsReader io) (fuel : ℕ) (c : ℕ) (bs : Bytes)
    → skip_delims c bs ≡ []
    → fields c bs ≡ []
fields-end io is fuel c bs nothing =
    sym (fields-skip c bs) ∙ ap (fields c) nothing ∙ fields-nil io is fuel c

module _ {R : Type 0} (io : Reader R) (is : IsReader io) (fuel : ℕ) where
  abbrev pub lines_left : DelimReader R → List Bytes
  lines_left d = fields d.delim (stream io is d)

  -- While a field is left, the stream does not end.
  on : (d : DelimReader R) → Fueled io is fuel d → lines_left d ≢ [] → exhausted d ≡ false
  on d fueled more = elim (Bool-cases (exhausted d)) [
    | inr e ↦ e
    | inl e ↦ absurd (
        more (
          ap (fields d.delim) (exhausted-stream io is d fueled.0 e)
          ∙ fields-nil io is fuel d.delim))
  ]

  -- What is left behind a segment of which nothing is left.
  pub Trace-lines :
      (d d' : DelimReader R)
      → Fueled io is fuel d
      → Trace (delim_reader io fuel) (moved io is fuel d) d'
      → segment io is d' ≡ []
      → Fueled io is fuel d'
        × (d'.delim ≡ d.delim)
        × (lines_left d' ≡ fields d.delim (after_field d.delim (upcoming io is fuel d)))
  Trace-lines d d' fueled t nothing =
      let reader = delim_reader io fuel in
      let law = delimited io is fuel in
      let start = moved io is fuel d in
      let delim : d'.delim ≡ d.delim =
        Trace-kept reader law (λ t. t.delim)
          (λ n t positive sound. (read-Serves io is fuel n t positive sound).delim) start d' fueled
          t in
      let behind : rest io is d' ≡ after_field d.delim (upcoming io is fuel d) =
        Trace-kept reader law (rest io is)
          (λ n t positive sound. (read-Serves io is fuel n t positive sound).rest_same) start d'
          fueled t in
      (
        Trace-Sound reader law start d' fueled t,
        delim,
        sym (fields-skip d'.delim (stream io is d'))
            ∙ ap (fields d'.delim) (sym (upcoming-rest io is fuel d' nothing))
            ∙ fields-skip d'.delim (rest io is d')
            ∙ ap₂ fields delim behind,
      )

  -- Next finds the first of the fields that are left, and a client that has read all of it has the
  -- others left.
  pub next-field :
      (d : DelimReader R) (l : Bytes) (ls : List Bytes)
      → Fueled io is fuel d
      → lines_left d ≡ l ∷ ls
      → (next d ≡ (ok tt, moved io is fuel d))
        × (segment io is (moved io is fuel d) ≡ l)
        × ((d' : DelimReader R)
            → Trace (delim_reader io fuel) (moved io is fuel d) d'
            → segment io is d' ≡ []
            → Fueled io is fuel d' × (d'.delim ≡ d.delim) × (lines_left d' ≡ ls))
  next-field d l ls fueled left = elim (skip_delims-cases d.delim (stream io is d)) [
    | inl nothing ↦ absurd (cc (left, fields-end io is fuel d.delim (stream io is d) nothing))
    | inr (b, more, front, plain) ↦
        let both = fields-front_cons d.delim b more (stream io is d) front plain in
        (
          next-on io is fuel d (on d fueled (λ h. cc (h, left))),
          cc (both, left),
          λ d' t nothing.
              let (fueled', delim, others) = Trace-lines d d' fueled t nothing in
              (fueled', delim, others ∙ cc (both, left)),
        )
  ]

  -- With no field left, Next ends with io.EOF or finds an empty segment.
  pub next-end :
      (d : DelimReader R)
      → Fueled io is fuel d
      → lines_left d ≡ []
      → (next d ≡ (err eof, d))
        ⊎ ((next d ≡ (ok tt, moved io is fuel d)) × (segment io is (moved io is fuel d) ≡ []))
  unfolding next
  next-end d fueled left = elim (Bool-cases (exhausted d)) [
    | inl done ↦ inl (rw (done, next) refl)
    | inr more ↦ inr (
      next-on io is fuel d more,
      elim (skip_delims-cases d.delim (stream io is d)) [
        | inl nothing ↦ ap (head_field d.delim) nothing
        | inr (b, more_bytes, front, plain) ↦
            absurd (cc (left, fields-front_cons d.delim b more_bytes (stream io is d) front plain))
      ],
    )
  ]
