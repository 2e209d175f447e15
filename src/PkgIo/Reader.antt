-- ===== src/PkgIo/Reader.antt =====
-- io.Reader, which the readers of internal/pkg/io are and stand on; empty_reader.go is one.
pub mod ReadAll
pub mod Trace
use gocica.Base.{
  ℕ, ◌≤◌, ◌<◌, ◌≡◌, refl, ◌⊎◌, inr, [], ◌++◌, Option, none, some, Bytes, length, arith,
}
use gocica.Base.Go.{Error, eof}

-- What a Read writes into its buffer, and the error that it returns beside the count.
pub record Read : Type 0 where
  pub bytes : Bytes
  pub failure : Option Error

-- A Read into a buffer of a size.
pub record Reader (R : Type 0) : Type 0 where
  pub read : ℕ → R → Read × R

-- A Read gives a part of what is left, no longer than the buffer. It is not empty, or it comes with
-- io.EOF at the end.
abbrev pub Reads : Bytes → ℕ → Read → Bytes → Type 0
Reads before n out after =
    (before ≡ out.bytes ++ after)
    × (length out.bytes ≤ n)
    × (((out.failure ≡ none) × (0 < length out.bytes)) ⊎ ((out.failure ≡ some eof) × (after ≡ [])))

-- What the documentation of io.Reader asks for, for a reader that fails only with io.EOF. `content` is
-- what is left to read.
pub record IsReader {R : Type 0} (io : Reader R) : Type 1 where
  pub content : R → Bytes
  pub Sound : R → Type 0
  pub read_sound : (n : ℕ) (r : R) → 0 < n → Sound r → Sound (io.read n r).1
  pub read_reads :
      (n : ℕ) (r : R)
      → 0 < n
      → Sound r
      → Reads (content r) n (io.read n r).0 (content (io.read n r).1)

unfoldable pub empty_reader : Reader (Unit {0})
empty_reader = record { read = λ n r. (record { bytes = []; failure = some eof }, r) }
