-- ===== src/Protocol/Process/Stdin.antt =====
-- The source of the request loop of protocol/proccess.go: a DelimReader over the standard input, the
-- JSON decoder on it, and the base64 decoder on a SkipCharReader on it.
use gocica.Base.{ℕ, Option, Bytes}
use gocica.Base.Go.{Error, Result}
use gocica.Protocol.{Request}
use gocica.Protocol.Process.{Source}
use gocica.PkgIo.Reader.{Reader}
use gocica.PkgIo.DelimReader.{DelimReader, new_delim_reader, delim_reader, next}
use gocica.PkgIo.SkipCharReader.{SkipCharReader, new_skip_char_reader, skip_char_reader}

-- The decoders of other packages: `json.Decoder.Decode`, with its own state `D`, and io.Copy from a
-- base64 decoder.
pub record Decoders (R D : Type 0) : Type 0 where
  pub decode : Reader (DelimReader R) → D → DelimReader R → Result Request × (D × DelimReader R)
  pub copy :
      Reader (SkipCharReader (DelimReader R))
      → SkipCharReader (DelimReader R)
      → (Bytes × Option Error) × SkipCharReader (DelimReader R)

pub record Input (R D : Type 0) : Type 0 where
  pub dr : DelimReader R
  pub decoder : D

abbrev pub newline : ℕ
newline = b'\n'

abbrev pub quote : ℕ
quote = b'"'

unfoldable pub new_input : {R D : Type 0} → R → D → Input R D
unfolding new_delim_reader
new_input r decoder = record { dr = new_delim_reader r newline; decoder = decoder }

-- `io` is the buffered reader over the standard input; `fuel` is that of the loops of the readers.
unfoldable pub stdin_source : {R D : Type 0} → Reader R → ℕ → Decoders R D → Source (Input R D)
unfolding next new_skip_char_reader
stdin_source io fuel decoders = record {
  next = λ i. let (r, d) = next i.dr in (r, record i { dr = d });
  decode = λ i.
      let (r, (decoder, d)) = decoders.decode (delim_reader io fuel) i.decoder i.dr in
      (r, record i { dr = d; decoder = decoder });
  read_body = λ i.
      let (out, scr) =
        decoders.copy (skip_char_reader (delim_reader io fuel) fuel)
          (new_skip_char_reader i.dr quote) in
      (out, record i { dr = scr.r });
}
