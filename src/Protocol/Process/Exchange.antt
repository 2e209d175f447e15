-- ===== src/Protocol/Process/Exchange.antt =====
-- From the standard input to the standard output.
use gocica.Base.{ℕ, ◌+◌, ◌<◌, ◌≡◌, refl, List, [], ◌∷◌, ◌++◌, map, length, All}
use gocica.Base.Go.{Result, ok, err, wrapped}
use gocica.Protocol.{Request, Response, empty_response}
use gocica.Protocol.Process.{Once, Process, known_commands, answer_all, close, join_errors, run}
use gocica.Protocol.Process.Stdin.{Decoders, stdin_source, new_input, newline}
use gocica.Protocol.Process.Stdout.{Encoder, run_encoded}
use gocica.Protocol.Process.Stdout.Lines.{IsEncoder, documents, encode_worker-lines}
use gocica.Protocol.Process.Requests.{decode_worker-received}
use gocica.Protocol.Process.Requests.Client.{Decodes, Sent, IsSent, received, lines}
use gocica.PkgIo.Reader.{Reader, IsReader}
use gocica.PkgIo.DelimReader.Fields.{fields}

join_errors-ok : (r : Result (Unit {0})) → join_errors (ok tt) r ≡ r
join_errors-ok (ok _) = refl
join_errors-ok (err e) = refl

module _ {S : Type 0} (p : Process S) (schedule : List Request → List Request) where
  -- The first response, and the answers to the requests.
  abbrev pub responses : List Request → Once S → List Response
  responses reqs s =
      record empty_response { known_commands = known_commands p }
      ∷ (answer_all p (schedule reqs) s).0

  abbrev pub handled : List Request → Once S → Once S
  handled reqs s = (answer_all p (schedule reqs) s).1

  module _ {R D W : Type 0} (io : Reader R) (is : IsReader io) (fuel : ℕ) (decoders : Decoders R D)
      (law : Decodes io is fuel decoders) (encoder : Encoder W) (encodes : IsEncoder encoder) where
    -- A run over the text of a client: when the lines of the input are those of the client's requests,
    -- the lines of the output are the texts of the first response and of the answers to exactly these
    -- requests, handled with their bodies in the order that `schedule` gives; the process is then closed,
    -- and the run fails only when the close does. What is asked of the input is what the decode loop asks,
    -- and the output has no bytes at first.
    pub run_encoded-lines :
        (ss : List Sent) (loop : ℕ) (r : R) (decoder : D) (s : Once S) (w : W)
        → All (IsSent law) ss
        → is.Sound r
        → law.IsIdle decoder
        → fields newline (is.content r) ≡ lines ss
        → length (is.content r) + 1 < fuel
        → length ss < loop
        → encodes.written w ++ encodes.buffered w ≡ []
        → let ((result, s'), w') =
            run_encoded encoder
              (stdin_source io fuel decoders)
              schedule
              loop
              p
              (new_input r decoder)
              s
              w in
          let reqs = map received ss in
          (fields newline (encodes.written w') ≡ documents encoder encodes (responses reqs s))
          × (result ≡ wrapped "close process" (close p (handled reqs s)).0)
          × (s' ≡ (close p (handled reqs s)).1)
    unfolding run_encoded run
    run_encoded-lines ss loop r decoder s w sent sound idle lines_eq few enough empty =
        let read =
          decode_worker-received io is fuel decoders law ss loop r decoder sent sound idle lines_eq
            few enough in
        let (fine, clean, out) =
          encode_worker-lines encoder encodes (responses (map received ss) s) w empty in
        rw read (out, join_errors-ok _, refl)
