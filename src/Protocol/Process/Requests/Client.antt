-- ===== src/Protocol/Process/Requests/Client.antt =====
-- What a client writes to the standard input, and what is relied on of the decoders.
use gocica.Base.{
  ℕ, ◌≡◌, refl, ap, true, false, List, [], ◌∷◌, ◌++◌, none, some, Bytes, length, All, ◌==◌,
  if◌then◌else◌,
}
use gocica.Base.Go.{eof, ok, err}
use gocica.Protocol.{Request}
use gocica.Protocol.Process.{has_body, real_error}
use gocica.Protocol.Process.Stdin.{Decoders, quote}
use gocica.PkgIo.Reader.{Reader, IsReader}
use gocica.PkgIo.Reader.Trace.{Trace, Drained}
use gocica.PkgIo.DelimReader.{DelimReader, delim_reader}
use gocica.PkgIo.DelimReader.Segments.{segment}
use gocica.PkgIo.DelimReader.Delimited.{Fueled, delimited}
use gocica.PkgIo.SkipCharReader.{SkipCharReader, skip_char_reader, filtered}
use gocica.PkgIo.SkipCharReader.Filtered

-- What is relied on of the decoders. `Json req text` says that the JSON text stands for the request, and
-- `Base64 contents text` that the base64 text stands for the contents. A decoder with nothing buffered
-- reads a JSON text that fills a segment to its end, and gives io.EOF on an empty segment; io.Copy
-- decodes base64 text until its reader gives io.EOF. Base64 text has no quote.
pub record Decodes {R D : Type 0} (io : Reader R) (is : IsReader io) (fuel : ℕ)
    (decoders : Decoders R D) : Type 1 where
  pub IsIdle : D → Type 0
  pub Json : Request → Bytes → Type 0
  pub Base64 : Bytes → Bytes → Type 0
  pub decodes :
      (decoder : D) (d : DelimReader R) (req : Request)
      → IsIdle decoder
      → Fueled io is fuel d
      → Json req (segment io is d)
      → let out = decoders.decode (delim_reader io fuel) decoder d in
        (out.0 ≡ ok req)
        × IsIdle out.1.0
        × Trace (delim_reader io fuel) d out.1.1
        × (segment io is out.1.1 ≡ [])
  pub ends :
      (decoder : D) (d : DelimReader R)
      → IsIdle decoder
      → Fueled io is fuel d
      → segment io is d ≡ []
      → (decoders.decode (delim_reader io fuel) decoder d).0 ≡ err eof
  pub copies :
      (scr : SkipCharReader (DelimReader R)) (contents : Bytes)
      → Filtered.Fueled (delim_reader io fuel) (delimited io is fuel) fuel scr
      → Base64 contents (Filtered.left (delim_reader io fuel) (delimited io is fuel) scr)
      → let out = decoders.copy (skip_char_reader (delim_reader io fuel) fuel) scr in
        (out.0.0 ≡ contents)
        × (real_error out.0.1 ≡ none)
        × Drained (skip_char_reader (delim_reader io fuel) fuel) scr out.1
  pub no_quote :
      (contents text : Bytes) → Base64 contents text → All (λ b. (b == quote) ≡ false) text

-- A request with its JSON text, and the contents of its body with their base64 text.
pub record Sent : Type 0 where
  pub request : Request
  pub text : Bytes
  pub contents : Bytes
  pub encoded : Bytes

-- The request as it is started.
abbrev pub received : Sent → Request
received s = if has_body s.request then record s.request { body = some s.contents } else s.request

abbrev pub quoted : Bytes → Bytes
quoted text = quote ∷ text ++ quote ∷ []

-- The lines that a request takes, in front of others.
abbrev pub lines_of : Sent → List Bytes → List Bytes
lines_of s ls = s.text ∷ (if has_body s.request then quoted s.encoded ∷ ls else ls)

unfoldable pub lines : List Sent → List Bytes
lines [] = []
lines (s ∷ ss) = lines_of s (lines ss)

-- The texts are right, and a body has the size that its request gives.
pub record IsSent {R D : Type 0} {io : Reader R} {is : IsReader io} {fuel : ℕ}
    {decoders : Decoders R D} (law : Decodes io is fuel decoders) (s : Sent) : Type 0 where
  pub json : law.Json s.request s.text
  pub size : has_body s.request ≡ true → length s.contents ≡ s.request.body_size
  pub base64 : has_body s.request ≡ true → law.Base64 s.contents s.encoded

filtered-plain :
    (bs : Bytes) → All (λ b. (b == quote) ≡ false) bs → filtered quote (bs ++ quote ∷ []) ≡ bs
unfolding filtered
filtered-plain [] h = refl
filtered-plain (b ∷ bs) h = rw h.0 (ap (◌∷◌ b) (filtered-plain bs h.1))

pub filtered-quoted :
    (text : Bytes) → All (λ b. (b == quote) ≡ false) text → filtered quote (quoted text) ≡ text
unfolding filtered
filtered-quoted text plain = filtered-plain text plain
