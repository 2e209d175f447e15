-- ===== src/PkgIo/DelimReader.antt =====
-- internal/pkg/io/delm_reader.go
pub mod Fields
pub mod Rounds
pub mod Segments
pub mod Loop
pub mod Delimited
pub mod Collect
pub mod Lines
use gocica.Base.{
  ℕ, zero, suc, Bool, true, false, ◌&&◌, ◌||◌, List, [], ◌∷◌, Option, none, some, Bytes, length,
  take, drop, min, ◌==◌, if◌then◌else◌,
}
use gocica.Base.Go.{Error, eof, plain, is_error, Result, ok, err}
use gocica.PkgIo.Reader.{Read, Reader}

pub record DelimReader (R : Type 0) : Type 0 where
  pub r : R
  pub delim : ℕ
  pub buf : Bytes
  pub reached : Bool
  pub first_read : Bool
  pub at_eof : Bool

unfoldable pub new_delim_reader : {R : Type 0} → R → ℕ → DelimReader R
new_delim_reader r delim = record {
  r = r;
  delim = delim;
  buf = [];
  reached = false;
  first_read = true;
  at_eof = false;
}

abbrev pub is_nil : Bytes → Bool
is_nil [] = true
is_nil (b ∷ bs) = false

abbrev shifted : Option ℕ → Option ℕ
shifted none = none
shifted (some i) = some (suc i)

-- bytes.IndexByte
unfoldable pub index_byte : Bytes → ℕ → Option ℕ
index_byte [] c = none
index_byte (b ∷ bs) c = let further = index_byte bs c in if b == c then some 0 else shifted further

abbrev pub is_some : Option Error → Bool
is_some none = false
is_some (some e) = true

-- `err != nil && !errors.Is(err, io.EOF)`
abbrev pub broken : Option Error → Option Error
broken none = none
broken (some e) = if is_error e "EOF" then none else some e

module _ {R : Type 0} where
  -- `d.eof && len(d.buf) == 0`
  abbrev pub exhausted : DelimReader R → Bool
  exhausted d = d.at_eof && is_nil d.buf

  -- The end of a round: the first `n` bytes of `tmp` up to the delimiter are read, and `buf` gets what
  -- is behind them.
  unfoldable pub cut : ℕ → Bytes → DelimReader R → Bytes × DelimReader R
  unfolding index_byte
  cut n tmp d = elim (index_byte (take n tmp) d.delim) [
    | some idx ↦ (take idx tmp, record d { reached = true; buf = drop (suc idx) tmp })
    | none ↦ (take n tmp, record d { buf = drop n tmp })
  ]

  abbrev pub successful : Bytes × DelimReader R → Result Bytes × DelimReader R
  successful (b, d) = (ok b, d)

  -- A Read of the underlying reader, with an empty buffer.
  unfoldable pub refill : Reader R → ℕ → DelimReader R → Result Bytes × DelimReader R
  unfolding cut
  refill io size d =
      let (out, r) = io.read size d.r in
      elim (broken out.failure) [
        | some e ↦ (err e, record d { r = r })
        | none ↦ successful (
            cut (length out.bytes) out.bytes
              (record d { r = r; at_eof = d.at_eof || is_some out.failure }))
      ]

  -- A round of the loop, behind `d.reached = false`.
  unfoldable pub read_round : Reader R → ℕ → DelimReader R → Result Bytes × DelimReader R
  unfolding cut refill
  read_round io size d = elim (exhausted d) [
    | true ↦ (err eof, d)
    | false ↦ elim (is_nil d.buf) [
      | true ↦ refill io size d
      | false ↦ successful (cut (min (length d.buf) size) d.buf d)
    ]
  ]

  abbrev pub unreached : DelimReader R → DelimReader R
  unreached d = record d { reached = false }

  -- `n == 0 && d.firstRead`
  abbrev pub goes_on : Result Bytes × DelimReader R → Bool
  goes_on (ok b, d) = is_nil b && d.first_read
  goes_on (err e, d) = false

  -- The loop, on fuel.
  unfoldable pub read_rounds : Reader R → ℕ → ℕ → DelimReader R → Result Bytes × DelimReader R
  unfolding read_round
  read_rounds io zero size d = (err (plain "out of fuel"), d)
  read_rounds io (suc fuel) size d =
      let out = read_round io size (unreached d) in
      elim (goes_on out) [ true ↦ read_rounds io fuel size out.1 | false ↦ out ]

  -- Behind the loop: no bytes mean the end of the segment.
  abbrev pub after_rounds : Result Bytes × DelimReader R → Read × DelimReader R
  after_rounds (err e, d) = (record { bytes = []; failure = some e }, d)
  after_rounds (ok b, d) = (
    record { bytes = b; failure = if is_nil b then some eof else none },
    record d { first_read = false },
  )

  -- DelimReader.Read
  unfoldable pub delim_reader : Reader R → ℕ → Reader (DelimReader R)
  unfolding read_rounds
  delim_reader io fuel = record {
    read = λ size d.
        if d.reached || exhausted d
        then (record { bytes = []; failure = some eof }, d)
        else after_rounds (read_rounds io fuel size d);
  }

  -- DelimReader.Next
  unfoldable pub next : DelimReader R → Result (Unit {0}) × DelimReader R
  next d =
      if exhausted d then (err eof, d) else (ok tt, record d { reached = false; first_read = true })
