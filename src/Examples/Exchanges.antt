-- ===== src/Examples/Exchanges.antt =====
-- A client that sends a get and a put with a body, over a text in memory: a request is a letter, and
-- the text of a body is the body.
use gocica.Base.{
  ◌+◌, ◌≤◌, ◌<◌, ◌≡◌, refl, ap, ◌∙◌, inl, inr, false, Bool-cases, List, [], ◌∷◌, ◌++◌, map, Option,
  none, some, Bytes, length, length-append, append_assoc, append-nil, sym, subst, arith, All, ◌==◌,
  if◌then◌else◌,
}
use gocica.Base.Int64.{lt64}
use gocica.Base.Go.{eof, plain, Result, ok, err, wrapped}
use gocica.Protocol.{Request}
use gocica.Protocol.Process.{decode_worker, close}
use gocica.Protocol.Process.Stdin.{Decoders, stdin_source, new_input, newline, quote}
use gocica.Protocol.Process.Stdout.{Encoder, run_encoded}
use gocica.Protocol.Process.Stdout.Lines.{IsEncoder, documents}
use gocica.Protocol.Process.Requests.{decode_worker-received}
use gocica.Protocol.Process.Requests.Client.{Decodes, Sent, IsSent, received, lines}
use gocica.Protocol.Process.Exchange.{responses, handled, run_encoded-lines}
use gocica.PkgIo.Reader.{Reader, IsReader}
use gocica.PkgIo.Reader.ReadAll.{read_all, read_all-ReadsAll, ReadsAll}
use gocica.PkgIo.Reader.Trace.{read_all-Drained, Trace-Drained}
use gocica.PkgIo.DelimReader.{DelimReader, delim_reader}
use gocica.PkgIo.DelimReader.Fields.{
  Plain, fields, split, skip_delims, head_field-length, skip_delims-length,
}
use gocica.PkgIo.DelimReader.Rounds.{stream}
use gocica.PkgIo.DelimReader.Segments.{segment}
use gocica.PkgIo.DelimReader.Delimited.{Fueled, delimited}
use gocica.PkgIo.SkipCharReader.{SkipCharReader, skip_char_reader, filtered}
use gocica.PkgIo.SkipCharReader.Filtered.{skipped, filtered-length}
use gocica.PkgIo.SkipCharReader.Filtered
use gocica.Examples.Readers.{text_reader, text-IsReader}
use gocica.Examples.Requests.{request, process, open_process}

abbrev put_request : Request
put_request = record (request 2 "put") { body_size = 2 }

abbrev parse : Bytes → Result Request
parse [] = err eof
parse (b ∷ bs) =
    if b == b'g'
    then ok (request 1 "get")
    else if b == b'p'
    then ok put_request
    else err (plain "syntax error")

abbrev lines_reader : Reader (DelimReader Bytes)
lines_reader = delim_reader text_reader 40

abbrev lines-IsReader : IsReader lines_reader
lines-IsReader = delimited text_reader text-IsReader 40

abbrev body_reader : Reader (SkipCharReader (DelimReader Bytes))
body_reader = skip_char_reader lines_reader 40

abbrev body-IsReader : IsReader body_reader
body-IsReader = skipped lines_reader lines-IsReader 40

abbrev decoders : Decoders Bytes (Unit {0})
decoders = record {
  decode = λ reader decoder d. let (text, d') = read_all reader 40 512 d in (parse text, (tt, d'));
  copy = λ reader scr.
      let (text, scr') = read_all reader (length scr.buf + 40) 512 scr in ((text, none), scr');
}

segment-length :
    (d : DelimReader Bytes)
    → length (segment text_reader text-IsReader d) ≤ length (stream text_reader text-IsReader d)
segment-length d = elim (Bool-cases d.reached) [
  | inl reached ↦ rw reached (omega arith)
  | inr fresh ↦ elim (Bool-cases d.first_read) [
    | inl first ↦
        rw (fresh, first)
          (omega (
            arith,
            head_field-length d.delim (skip_delims d.delim (stream text_reader text-IsReader d)),
            skip_delims-length d.delim (stream text_reader text-IsReader d),
          ))
    | inr later ↦ rw (fresh, later) (head_field-length d.delim (stream text_reader text-IsReader d))
  ]
]

segment_few :
    (d : DelimReader Bytes)
    → Fueled text_reader text-IsReader 40 d
    → length (segment text_reader text-IsReader d) < 40
segment_few d fueled = omega (arith, segment-length d, fueled.1)

whole_segment :
    (d : DelimReader Bytes)
    → Fueled text_reader text-IsReader 40 d
    → ReadsAll lines_reader lines-IsReader 512
        (omega arith)
        (λ q. tt {0})
        (λ q h. refl)
        d
        (read_all lines_reader 40 512 d)
whole_segment d fueled =
    read_all-ReadsAll lines_reader lines-IsReader 512 (omega arith) (λ q. tt {0}) (λ q h. refl) 40 d
      fueled (segment_few d fueled)

body-length :
    (scr : SkipCharReader (DelimReader Bytes))
    → Filtered.Fueled lines_reader lines-IsReader 40 scr
    → length (Filtered.left lines_reader lines-IsReader scr) < length scr.buf + 40
body-length scr (sound, ended, few) = elim ended [
  | inl open_end ↦ rw open_end (
      omega (
        arith,
        few,
        length-append scr.buf (filtered scr.skip (segment text_reader text-IsReader scr.r)),
        filtered-length scr.skip (segment text_reader text-IsReader scr.r),
      ))
  | inr end ↦ rw end (omega (arith, length-append scr.buf []))
]

abbrev law : Decodes text_reader text-IsReader 40 decoders
law = record {
  IsIdle = λ decoder. Unit;
  Json = λ req text. parse text ≡ ok req;
  Base64 = λ contents text. (text ≡ contents) × All (λ b. (b == quote) ≡ false) text;
  decodes = λ decoder d req idle fueled json. (
    ap parse (whole_segment d fueled).all ∙ json,
    tt,
    Trace-Drained lines_reader d _ (
        read_all-Drained lines_reader lines-IsReader 512 40 d (omega arith) fueled
          (segment_few d fueled)),
    (whole_segment d fueled).nothing_left,
  );
  ends = λ decoder d idle fueled nothing. ap parse ((whole_segment d fueled).all ∙ nothing);
  copies = λ scr contents fueled base64. (
    (read_all-ReadsAll body_reader body-IsReader 512 (omega arith) (λ q. tt {0}) (λ q h. refl)
          (length scr.buf + 40) scr fueled (body-length scr fueled)).all
        ∙ base64.0,
    refl,
    read_all-Drained body_reader body-IsReader 512 (length scr.buf + 40) scr (omega arith) fueled
        (body-length scr fueled),
  );
  no_quote = λ contents text base64. base64.1;
}

abbrev sent : List Sent
sent =
    record { request = request 1 "get"; text = b'g' ∷ []; contents = []; encoded = [] }
    ∷ record {
      request = put_request;
      text = b'p' ∷ [];
      contents = b'h' ∷ b'i' ∷ [];
      encoded = b'h' ∷ b'i' ∷ [];
    }
    ∷ []

abbrev text : Bytes
text = b'g' ∷ b'\n' ∷ b'p' ∷ b'\n' ∷ b'\n' ∷ b'"' ∷ b'h' ∷ b'i' ∷ b'"' ∷ b'\n' ∷ []

text-lines : fields newline text ≡ lines sent
unfolding fields split lines lt64
text-lines = refl

sent-IsSent : All (IsSent law) sent
unfolding lt64
sent-IsSent = (
  record { json = refl; size = λ h. refl; base64 = λ h. absurd (cc) },
  (record { json = refl; size = λ h. refl; base64 = λ h. (refl, (refl, (refl, tt))) }, tt),
)

decode_worker-received_example :
    decode_worker (stdin_source text_reader 40 decoders) 3 (new_input text tt)
    ≡ record { started = map received sent; result = ok tt }
decode_worker-received_example =
    decode_worker-received text_reader text-IsReader 40 decoders law sent 3 text tt sent-IsSent tt
      tt text-lines (omega arith) (omega arith)

-- An encoder that writes a letter for each response.
record Output : Type 0 where
  written : Bytes
  buffered : Bytes

abbrev letter_encoder : Encoder Output
letter_encoder = record {
  enc = λ res w. (ok tt, record w { buffered = w.buffered ++ b'r' ∷ [] });
  write = λ bs w. (ok tt, record w { buffered = w.buffered ++ bs });
  flush = λ w. (ok tt, record { written = w.written ++ w.buffered; buffered = [] });
}

abbrev letter : Bytes
letter = b'r' ∷ []

letter-some : (text : Bytes) → ◌≡◌ {A = Option Bytes} (some letter) (some text) → letter ≡ text
letter-some text there = cc there

letter-there : ◌≡◌ {A = Option Bytes} (some letter) none → ⊥
letter-there missing = cc missing

abbrev letter-IsEncoder : IsEncoder letter_encoder
letter-IsEncoder = record {
  document = λ res. some (b'r' ∷ []);
  end = [];
  written = λ w. w.written;
  buffered = λ w. w.buffered;
  end_newline = inl refl;
  one_line = λ res text there.
      subst (λ b. Plain newline b × (0 < length b)) (letter-some text there)
        ((refl, tt), omega arith);
  encodes = λ res text w there. (
    refl,
    ap (λ b. w.written ++ (w.buffered ++ b)) (letter-some text there ∙ sym (append-nil text))
        ∙ sym (append_assoc w.written w.buffered (text ++ [])),
  );
  refuses = λ res w missing. absurd (letter-there missing);
  writes = λ bs w. (refl, sym (append_assoc w.written w.buffered bs));
  flushes = λ w. (refl, refl);
}

abbrev output : Output
output = record { written = []; buffered = [] }

run_encoded-lines_example :
    let ((result, s'), w') =
      run_encoded letter_encoder
        (stdin_source text_reader 40 decoders)
        (λ reqs. reqs)
        3
        process
        (new_input text tt)
        open_process
        output in
    let reqs = map received sent in
    (fields newline w'.written
      ≡ documents letter_encoder letter-IsEncoder (responses process (λ rs. rs) reqs open_process))
    × (result
        ≡ wrapped "close process" (close process (handled process (λ rs. rs) reqs open_process)).0)
    × (s' ≡ (close process (handled process (λ rs. rs) reqs open_process)).1)
run_encoded-lines_example =
    run_encoded-lines process (λ reqs. reqs) text_reader text-IsReader 40 decoders law
      letter_encoder letter-IsEncoder sent 3 text tt open_process output sent-IsSent tt tt
      text-lines (omega arith) (omega arith) refl
