-- ===== src/PkgIo/SkipCharReader.antt =====
-- internal/pkg/io/skip_reader.go
pub mod Filtered
pub mod Through
use gocica.Base.{
  ℕ, zero, suc, Bool, true, false, List, [], ◌∷◌, ◌++◌, Option, none, some, Bytes, take, drop, ◌==◌,
  if◌then◌else◌,
}
use gocica.Base.Go.{Error}
use gocica.PkgIo.Reader.{Read, Reader}

pub record SkipCharReader (R : Type 0) : Type 0 where
  pub r : R
  pub skip : ℕ
  pub buf : Bytes
  pub failure : Option Error

unfoldable pub new_skip_char_reader : {R : Type 0} → R → ℕ → SkipCharReader R
new_skip_char_reader r skip = record { r = r; skip = skip; buf = []; failure = none }

-- The bytes that are not skipped.
unfoldable pub filtered : ℕ → Bytes → Bytes
filtered skip [] = []
filtered skip (b ∷ bs) = let rest = filtered skip bs in if b == skip then rest else b ∷ rest

-- `len(scr.buf) == 0 && scr.err == nil`
abbrev pub must_read : Bytes → Option Error → Bool
must_read [] none = true
must_read [] (some e) = false
must_read (b ∷ bs) failure = false

module _ {R : Type 0} (io : Reader R) where
  unfoldable pub fill_once : SkipCharReader R → SkipCharReader R
  unfolding filtered
  fill_once scr =
      let (out, r) = io.read 1024 scr.r in
      record scr { r = r; buf = scr.buf ++ filtered scr.skip out.bytes; failure = out.failure }

  -- The loop of Read, on fuel: a round reads a byte or more, or gets an error.
  unfoldable pub fill : ℕ → SkipCharReader R → SkipCharReader R
  unfolding fill_once
  fill zero scr = scr
  fill (suc fuel) scr = elim (must_read scr.buf scr.failure) [
    | true ↦ fill fuel (fill_once scr)
    | false ↦ scr
  ]

-- `len(scr.buf) == 0 && scr.err != nil`: the error goes out with the last bytes.
abbrev pub last_failure : Bytes → Option Error → Option Error
last_failure [] failure = failure
last_failure (b ∷ bs) failure = none

-- The rest of Read: `n` is the size of the buffer.
unfoldable pub serve : {R : Type 0} → ℕ → SkipCharReader R → Read × SkipCharReader R
serve n scr = elim scr.buf [
  | [] ↦ (record { bytes = []; failure = scr.failure }, scr)
  | b ∷ bs ↦
      let left = drop n (b ∷ bs) in
      (
        record { bytes = take n (b ∷ bs); failure = last_failure left scr.failure },
        record scr { buf = left },
      )
]

-- SkipCharReader.Read
unfoldable pub skip_char_reader : {R : Type 0} → Reader R → ℕ → Reader (SkipCharReader R)
unfolding fill serve
skip_char_reader io fuel = record { read = λ n scr. serve n (fill io fuel scr) }
