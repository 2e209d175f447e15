-- ===== src/Examples/Readers.antt =====
-- A text in memory that is read in short pieces: two lines with an empty one between them.
use gocica.Base.{
  ℕ, ◌<◌, ◌≡◌, refl, sym, inl, inr, min, [], ◌∷◌, some, none, Bytes, take, drop, arith,
  take-append-drop, length-take,
}
use gocica.Base.Go.{eof}
use gocica.PkgIo.Reader.{Read, Reader, Reads, IsReader}
use gocica.PkgIo.Reader.ReadAll.{read_all}
use gocica.PkgIo.SkipCharReader.{filtered, new_skip_char_reader, skip_char_reader}
use gocica.PkgIo.SkipCharReader.Filtered.{read_all-filtered}
use gocica.PkgIo.DelimReader.{DelimReader, new_delim_reader, delim_reader}
use gocica.PkgIo.DelimReader.Fields.{fields, filled, split}
use gocica.PkgIo.DelimReader.Rounds.{stream}
use gocica.PkgIo.DelimReader.Segments.{segment}
use gocica.PkgIo.DelimReader.Delimited.{delimited}
use gocica.PkgIo.DelimReader.Collect.{segments, segments-fields}

-- At most three bytes at a time.
abbrev pub read_text : ℕ → Bytes → Read × Bytes
read_text n [] = (record { bytes = []; failure = some eof }, [])
read_text n (b ∷ bs) =
    (record { bytes = take (min n 3) (b ∷ bs); failure = none }, drop (min n 3) (b ∷ bs))

abbrev pub text_reader : Reader Bytes
text_reader = record { read = read_text }

pub read_text-Reads :
    (n : ℕ) (bs : Bytes) → 0 < n → Reads bs n (read_text n bs).0 (read_text n bs).1
read_text-Reads n [] h = (refl, omega arith, inr (refl, refl))
read_text-Reads n (b ∷ bs) h = (
  sym (take-append-drop (min n 3) (b ∷ bs)),
  omega (arith, length-take (min n 3) (b ∷ bs)),
  inl (refl, omega (arith, h, length-take (min n 3) (b ∷ bs))),
)

abbrev pub text-IsReader : IsReader text_reader
text-IsReader = record {
  content = λ bs. bs;
  Sound = λ bs. Unit;
  read_sound = λ n bs h k. tt;
  read_reads = λ n bs h k. read_text-Reads n bs h;
}

abbrev text : Bytes
text = b'"' ∷ b'h' ∷ b'i' ∷ b'"' ∷ b'\n' ∷ b'\n' ∷ b'y' ∷ b'o' ∷ b'u' ∷ b'\n' ∷ []

abbrev lines : DelimReader Bytes
lines = new_delim_reader text b'\n'

two_lines : fields b'\n' text ≡ (b'"' ∷ b'h' ∷ b'i' ∷ b'"' ∷ []) ∷ (b'y' ∷ b'o' ∷ b'u' ∷ []) ∷ []
unfolding fields split
two_lines = refl

segments-fields_example :
    filled (segments text_reader text-IsReader 20 10 2 lines)
    ≡ fields b'\n' (stream text_reader text-IsReader lines)
unfolding new_delim_reader
segments-fields_example =
    segments-fields text_reader text-IsReader 20 10 2 lines (omega arith)
      ((tt, inl refl), omega arith) (omega arith)

-- The text of a body: the first line without its quotes.
read_all-filtered_example :
    (read_all
      (skip_char_reader (delim_reader text_reader 20) 20)
      20
      2
      (new_skip_char_reader lines b'"')).0
    ≡ filtered b'"' (segment text_reader text-IsReader lines)
unfolding new_delim_reader
read_all-filtered_example =
    read_all-filtered (delim_reader text_reader 20) (delimited text_reader text-IsReader 20) lines
      b'"' 20 2 ((tt, inl refl), omega arith) (omega arith) (omega arith)
