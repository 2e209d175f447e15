-- ===== src/Protocol/Process/Stdout/Lines.antt =====
-- What reaches the standard output: a line for each response.
use gocica.Base.{
  ◌<◌, ◌≡◌, refl, sym, ap, ◌∙◌, ◌⊎◌, inl, inr, List, [], ◌∷◌, ◌++◌, append-nil, append_assoc,
  Option, none, some, Option-cases, Bytes, length,
}
use gocica.Base.Go.{Error, ok, err}
use gocica.Protocol.{Response}
use gocica.Protocol.Process.Stdin.{newline}
use gocica.Protocol.Process.Stdout.{Encoder, encode, encode_worker}
use gocica.PkgIo.DelimReader.Fields.{Plain, fields, fields-delim}
use gocica.PkgIo.DelimReader.Lines.{fields-line}

-- What is relied on of the encoder. `document` is the JSON text of a response, if it has one; `written`
-- is what has reached the output, and `buffered` what has not. A response with a text gets it into the
-- buffer, with at most a newline behind it; one without fails and leaves no bytes. The output does not
-- fail.
pub record IsEncoder {W : Type 0} (encoder : Encoder W) : Type 0 where
  pub document : Response → Option Bytes
  pub end : Bytes
  pub written : W → Bytes
  pub buffered : W → Bytes
  pub end_newline : (end ≡ []) ⊎ (end ≡ newline ∷ [])
  pub one_line :
      (res : Response) (text : Bytes)
      → document res ≡ some text
      → Plain newline text × (0 < length text)
  pub encodes :
      (res : Response) (text : Bytes) (w : W)
      → document res ≡ some text
      → let (r, w') = encoder.enc res w in
        (r ≡ ok tt) × (written w' ++ buffered w' ≡ (written w ++ buffered w) ++ (text ++ end))
  pub refuses :
      (res : Response) (w : W)
      → document res ≡ none
      → let (r, w') = encoder.enc res w in
        ((e : Error) × (r ≡ err e)) × (written w' ++ buffered w' ≡ written w ++ buffered w)
  pub writes :
      (text : Bytes) (w : W)
      → let (r, w') = encoder.write text w in
        (r ≡ ok tt) × (written w' ++ buffered w' ≡ (written w ++ buffered w) ++ text)
  pub flushes :
      (w : W)
      → let (r, w') = encoder.flush w in (written w' ≡ written w ++ buffered w) × (buffered w' ≡ [])

module _ {W : Type 0} (encoder : Encoder W) (law : IsEncoder encoder) where
  abbrev total : W → Bytes
  total w = law.written w ++ law.buffered w

  abbrev rendered_in_front : Option Bytes → Bytes → Bytes
  rendered_in_front none more = more
  rendered_in_front (some text) more = text ++ (law.end ++ newline ∷ more)

  rendered : List Response → Bytes
  rendered [] = []
  rendered (res ∷ ch) = rendered_in_front (law.document res) (rendered ch)

  abbrev pub in_front : Option Bytes → List Bytes → List Bytes
  in_front none docs = docs
  in_front (some text) docs = text ∷ docs

  -- The texts of the responses, less those that have none.
  unfoldable pub documents : List Response → List Bytes
  documents [] = []
  documents (res ∷ ch) = in_front (law.document res) (documents ch)

  flushes-total : (w : W) → total (encoder.flush w).1 ≡ total w
  flushes-total w = let (moved, empty) = law.flushes w in rw (moved, empty) (append-nil _)

  encode-some :
      (res : Response) (text : Bytes) (w : W)
      → law.document res ≡ some text
      → ((encode encoder res w).0 ≡ ok tt)
        × (total (encode encoder res w).1 ≡ total w ++ (text ++ (law.end ++ newline ∷ [])))
  unfolding encode
  encode-some res text w there =
      let (fine, more) = law.encodes res text w there in
      let (fine', more') = law.writes (newline ∷ []) (encoder.enc res w).1 in
      rw fine (
        fine',
        more'
            ∙ ap (λ b. b ++ newline ∷ []) more
            ∙ append_assoc (total w) (text ++ law.end) (newline ∷ [])
            ∙ ap (◌++◌ (total w)) (append_assoc text law.end (newline ∷ [])),
      )

  encode-none :
      (res : Response) (w : W)
      → law.document res ≡ none
      → ((e : Error) × ((encode encoder res w).0 ≡ err e))
        × (total (encode encoder res w).1 ≡ total w)
  unfolding encode
  encode-none res w missing =
      let ((e, failed), same) = law.refuses res w missing in rw failed ((e, refl), same)

  encode_worker-on :
      (res : Response) (ch : List Response) (w : W)
      → (encode encoder res w).0 ≡ ok tt
      → encode_worker encoder (res ∷ ch) w
        ≡ encode_worker encoder ch (encoder.flush (encode encoder res w).1).1
  unfolding encode_worker
  encode_worker-on res ch w fine = rw (fine, encode_worker) refl

  encode_worker-past :
      (res : Response) (ch : List Response) (w : W) (e : Error)
      → (encode encoder res w).0 ≡ err e
      → encode_worker encoder (res ∷ ch) w ≡ encode_worker encoder ch (encode encoder res w).1
  unfolding encode_worker
  encode_worker-past res ch w e failed = rw (failed, encode_worker) refl

  -- The text of a response, and then those behind it.
  rendered-some :
      (before text more : Bytes)
      → (before ++ (text ++ (law.end ++ newline ∷ []))) ++ more
        ≡ before ++ (text ++ (law.end ++ newline ∷ more))
  rendered-some before text more = simp append_assoc

  encode_worker-total :
      (ch : List Response) (w : W)
      → let (r, w') = encode_worker encoder ch w in
        (r ≡ ok tt) × (law.buffered w' ≡ []) × (total w' ≡ total w ++ rendered ch)
  unfolding encode_worker rendered
  encode_worker-total [] w = (refl, (law.flushes w).1, flushes-total w ∙ sym (append-nil (total w)))
  encode_worker-total (res ∷ ch) w = elim (Option-cases (law.document res)) [
    | inl missing ↦
        let ((e, failed), same) = encode-none res w missing in
        let (fine, clean, more) = encode_worker-total ch (encode encoder res w).1 in
        rw (encode_worker-past res ch w e failed, missing)
          (fine, clean, more ∙ ap (λ b. b ++ rendered ch) same)
    | inr (text, there) ↦
        let (done, added) = encode-some res text w there in
        let w1 = (encode encoder res w).1 in
        let (fine, clean, more) = encode_worker-total ch (encoder.flush w1).1 in
        rw (encode_worker-on res ch w done, there)
          (
            fine,
            clean,
            more
                ∙ ap (λ b. b ++ rendered ch) (flushes-total w1 ∙ added)
                ∙ rendered-some (total w) text (rendered ch),
          )
  ]

  fields-rendered : (ch : List Response) → fields newline (rendered ch) ≡ documents ch
  unfolding rendered documents fields
  fields-rendered [] = refl
  fields-rendered (res ∷ ch) = elim (Option-cases (law.document res)) [
    | inl missing ↦ rw missing (fields-rendered ch)
    | inr (text, there) ↦
        let (plain, positive) = law.one_line res text there in
        rw there (elim law.end_newline [
          | inl nothing ↦ rw nothing (
              fields-line newline text (rendered ch) plain positive
              ∙ ap (◌∷◌ text) (fields-rendered ch))
          | inr one ↦ rw one (
              fields-line newline text (newline ∷ rendered ch) plain positive
              ∙ ap (◌∷◌ text)
                  (fields-delim newline newline (rendered ch) refl ∙ fields-rendered ch))
        ])
  ]

  -- From an output without bytes, the encoder goroutine ends without an error and with nothing left in
  -- the buffer; the lines of the output are the texts of the responses, in order. A response that has
  -- no text is left out, and does not stop the others.
  pub encode_worker-lines :
      (ch : List Response) (w : W)
      → total w ≡ []
      → let (r, w') = encode_worker encoder ch w in
        (r ≡ ok tt) × (law.buffered w' ≡ []) × (fields newline (law.written w') ≡ documents ch)
  encode_worker-lines ch w empty =
      let (fine, clean, more) = encode_worker-total ch w in
      let w' = (encode_worker encoder ch w).1 in
      (
        fine,
        clean,
        ap (fields newline) (
              sym (append-nil (law.written w'))
              ∙ ap (◌++◌ (law.written w')) (sym clean)
              ∙ more
              ∙ ap (λ b. b ++ rendered ch) empty)
            ∙ fields-rendered ch,
      )
