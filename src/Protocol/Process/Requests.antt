-- ===== src/Protocol/Process/Requests.antt =====
-- The requests that a client writes to the standard input are those that the decode loop starts.
pub mod Client
use gocica.Base.{
  ℕ, zero, suc, ◌+◌, ◌≤◌, ◌<◌, ◌≡◌, refl, sym, ap, ap₂, subst, ◌∙◌, inl, inr, Bool, true, false,
  Bool-cases, List, [], ◌∷◌, ◌++◌, map, Option, none, some, Bytes, length, arith, All, ◌==◌, ==_iff,
  if◌then◌else◌,
}
use gocica.Base.Go.{Error, eof, is_error, Result, ok, err}
use gocica.Protocol.{Request}
use gocica.Protocol.Process.{
  Source, Decoded, stop, end_of, start, has_body, after_body, real_error, decode_body,
  decode_request, decode_worker,
}
use gocica.Protocol.Process.Requests.Client.{
  Decodes, Sent, IsSent, received, quoted, lines_of, lines, filtered-quoted,
}
use gocica.Protocol.Process.Stdin.{Decoders, Input, stdin_source, new_input, newline, quote}
use gocica.PkgIo.Reader.{Reader, IsReader}
use gocica.PkgIo.Reader.Trace.{Trace, Drained}
use gocica.PkgIo.DelimReader.{DelimReader, next, delim_reader}
use gocica.PkgIo.DelimReader.Fields.{fields, head_field-length, skip_delims, skip_delims-length}
use gocica.PkgIo.DelimReader.Rounds.{stream}
use gocica.PkgIo.DelimReader.Segments.{segment}
use gocica.PkgIo.DelimReader.Delimited.{Fueled, delimited}
use gocica.PkgIo.DelimReader.Collect.{moved}
use gocica.PkgIo.DelimReader.Lines.{lines_left, next-field, next-end}
use gocica.PkgIo.SkipCharReader.{SkipCharReader, new_skip_char_reader, skip_char_reader, filtered}
use gocica.PkgIo.SkipCharReader.Filtered
use gocica.PkgIo.SkipCharReader.Through.{Drained-Below}

after_body-whole :
    (req : Request) (contents buf : Bytes) (failure : Option Error) (rest : Decoded)
    → buf ≡ contents
    → failure ≡ none
    → length contents ≡ req.body_size
    → after_body req buf failure rest ≡ start (record req { body = some contents }) rest
after_body-whole req contents buf failure rest same no_error size =
    ap₂ (λ b e. after_body req b e rest) same no_error
    ∙ rw ((==_iff (length contents) req.body_size).1 size) refl

module _ {R : Type 0} (source : Source R) where
  abbrev after_next : ℕ → Result (Unit {0}) × R → Decoded
  after_next fuel out =
      let (n, r) = out in
      elim n [
        | err e ↦ end_of "next request" e
        | ok _ ↦ decode_request source (source.decode r) (decode_worker source fuel)
      ]

  worker_next :
      (fuel : ℕ) (r : R) (out : Result (Unit {0}) × R)
      → source.next r ≡ out
      → decode_worker source (suc fuel) r ≡ after_next fuel out
  unfolding decode_worker
  worker_next fuel r out h = ap (after_next fuel) h

  abbrev after_next_body : Request → (R → Decoded) → Result (Unit {0}) × R → Decoded
  after_next_body req rest out =
      let (n, r) = out in
      elim n [
        | err e ↦ end_of "next request body" e
        | ok _ ↦
            let ((buf, failure), r2) = source.read_body r in
            after_body req buf (real_error failure) (rest r2)
      ]

  body_next :
      (req : Request) (r : R) (rest : R → Decoded) (out : Result (Unit {0}) × R)
      → source.next r ≡ out
      → decode_body source req r rest ≡ after_next_body req rest out
  body_next req r rest out h = ap (after_next_body req rest) h

module _ {R D : Type 0} (io : Reader R) (is : IsReader io) (fuel : ℕ) (decoders : Decoders R D)
    (law : Decodes io is fuel decoders) where
  abbrev source : Source (Input R D)
  source = stdin_source io fuel decoders

  -- The reader of a sound input: nothing is buffered in the decoder.
  abbrev Ready : Input R D → Type 0
  Ready i = Fueled io is fuel i.dr × law.IsIdle i.decoder

  abbrev left : Input R D → List Bytes
  left i = lines_left io is fuel i.dr

  source_next :
      (i : Input R D) (out : Result (Unit {0})) (d : DelimReader R)
      → next i.dr ≡ (out, d)
      → source.next i ≡ (out, record i { dr = d })
  unfolding stdin_source
  source_next i out d h = ap (λ p. (p.0, record i { dr = p.1 })) h

  abbrev moved_on : DelimReader R → DelimReader R
  moved_on = moved io is fuel

  -- Without a line left, the loop ends without an error.
  decode_worker-end :
      (loop : ℕ) (i : Input R D)
      → Ready i
      → left i ≡ []
      → decode_worker source (suc loop) i ≡ record { started = []; result = ok tt }
  unfolding is_error stdin_source
  decode_worker-end loop i ready nothing = elim (next-end io is fuel i.dr ready.0 nothing) [
    | inl over ↦ worker_next source loop i _ (source_next i (err eof) i.dr over)
    | inr (fine, empty) ↦
        let out = decoders.decode (delim_reader io fuel) i.decoder (moved_on i.dr) in
        worker_next source loop i _ (source_next i (ok tt) (moved_on i.dr) fine)
        ∙ ap
            (λ r.
              decode_request source (r, record { dr = out.1.1; decoder = out.1.0 })
                (decode_worker source loop))
            (law.ends i.decoder (moved_on i.dr) ready.1 ready.0 empty)
  ]

  -- The body of a request is read whole, and its line is taken.
  decode_body-step :
      (s : Sent) (i : Input R D) (ls : List Bytes)
      → Ready i
      → left i ≡ quoted s.encoded ∷ ls
      → length s.contents ≡ s.request.body_size
      → law.Base64 s.contents s.encoded
      → (i' : Input R D) × Ready i'
        × (left i' ≡ ls)
        × ((rest : Input R D → Decoded)
            → decode_body source s.request i rest
              ≡ start (record s.request { body = some s.contents }) (rest i'))
  unfolding stdin_source new_skip_char_reader
  decode_body-step s i ls ready lines_eq size base64 =
      let reader = delim_reader io fuel in
      let d = moved_on i.dr in
      let (fine, line, others) =
        next-field io is fuel i.dr (quoted s.encoded) ls ready.0 lines_eq in
      let scr = new_skip_char_reader d quote in
      let out = decoders.copy (skip_char_reader reader fuel) scr in
      let (decoded, no_error, ended) =
        law.copies scr s.contents
          (
            ready.0,
            inl refl,
            omega (
              arith,
              head_field-length i.dr.delim (skip_delims i.dr.delim (stream io is d)),
              skip_delims-length i.dr.delim (stream io is d),
              ready.0.1,
            ),
          )
          (subst (law.Base64 s.contents)
            (sym (
              ap (filtered quote) line
              ∙ filtered-quoted s.encoded (law.no_quote s.contents s.encoded base64)))
            base64) in
      let (trace, nothing) =
        Drained-Below reader (delimited io is fuel) fuel d quote out.1 ready.0 ended in
      let (fueled, delim, behind) = others out.1.r trace nothing in
      let i' : Input R D = record i { dr = out.1.r } in
      (
        i',
        (fueled, ready.1),
        behind,
        λ rest.
            body_next source s.request i rest _ (source_next i (ok tt) d fine)
            ∙ after_body-whole s.request s.contents _ _ (rest i') decoded no_error size,
      )

  -- The lines of a request are read, and it is started with its body.
  decode_worker-step :
      (s : Sent) (i : Input R D) (ls : List Bytes)
      → IsSent law s
      → Ready i
      → left i ≡ lines_of s ls
      → (i' : Input R D) × Ready i'
        × (left i' ≡ ls)
        × ((loop : ℕ)
            → decode_worker source (suc loop) i ≡ start (received s) (decode_worker source loop i'))
  unfolding stdin_source
  decode_worker-step s i ls sent ready lines_eq =
      let (fine, line, others) = next-field io is fuel i.dr (s.text) _ ready.0 lines_eq in
      let d = moved_on i.dr in
      let out = decoders.decode (delim_reader io fuel) i.decoder d in
      let (decoded, idle, trace, nothing) =
        law.decodes i.decoder d s.request ready.1 ready.0
          (subst (law.Json s.request) (sym line) sent.json) in
      let (fueled, delim, behind) = others out.1.1 trace nothing in
      let i1 : Input R D = record { dr = out.1.1; decoder = out.1.0 } in
      let begin : (loop : ℕ)
          → decode_worker source (suc loop) i
            ≡ decode_request source (ok s.request, i1) (decode_worker source loop) =
        λ loop.
          worker_next source loop i _ (source_next i (ok tt) d fine)
          ∙ ap (λ r. decode_request source (r, i1) (decode_worker source loop)) decoded in
      elim (Bool-cases (has_body s.request)) [
        | inr bare ↦ (i1, (fueled, idle), behind ∙ rw bare refl, λ loop. begin loop ∙ rw bare refl)
        | inl with_body ↦
            let (i', ready', behind', body) =
              decode_body-step s i1 ls (fueled, idle) (behind ∙ rw with_body refl)
                (sent.size with_body) (sent.base64 with_body) in
            (
              i',
              ready',
              behind',
              λ loop. begin loop ∙ rw with_body (body (decode_worker source loop)),
            )
      ]

  decode_worker-sent :
      (ss : List Sent) (loop : ℕ) (i : Input R D)
      → All (IsSent law) ss
      → Ready i
      → left i ≡ lines ss
      → length ss < loop
      → decode_worker source loop i ≡ record { started = map received ss; result = ok tt }
  unfolding lines
  decode_worker-sent ss zero i sent ready lines_eq enough = absurd (omega (arith, enough))
  decode_worker-sent [] (suc loop) i sent ready lines_eq enough =
      decode_worker-end loop i ready lines_eq
  decode_worker-sent (s ∷ ss) (suc loop) i sent ready lines_eq enough =
      let (i', ready', behind, step) = decode_worker-step s i (lines ss) sent.0 ready lines_eq in
      step loop
      ∙ ap (start (received s))
          (decode_worker-sent ss loop i' sent.1 ready' behind (omega (arith, enough)))

  -- When the lines of the input that are not empty are those of the requests of a client, the JSON text
  -- of each and, for a put with a body, its base64 text in quotes, then the decode loop starts
  -- exactly these requests, in order and with their bodies, and ends without an error. The input may come
  -- in any pieces; the reader below ends with io.EOF, the sizes of the bodies are right, and the loops
  -- have the fuel for the input.
  pub decode_worker-received :
      (ss : List Sent) (loop : ℕ) (r : R) (decoder : D)
      → All (IsSent law) ss
      → is.Sound r
      → law.IsIdle decoder
      → fields newline (is.content r) ≡ lines ss
      → length (is.content r) + 1 < fuel
      → length ss < loop
      → decode_worker (stdin_source io fuel decoders) loop (new_input r decoder)
        ≡ record { started = map received ss; result = ok tt }
  unfolding new_input
  decode_worker-received ss loop r decoder sent sound idle lines_eq few enough =
      decode_worker-sent ss loop (new_input r decoder) sent (((sound, inl refl), few), idle)
        lines_eq enough
