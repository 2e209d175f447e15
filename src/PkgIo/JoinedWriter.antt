-- ===== src/PkgIo/JoinedWriter.antt =====
-- internal/pkg/io/joined_writer.go: one stream is cut at given sizes, and each part goes to a writer
-- of its own.
pub mod Pour
pub mod Rounds
pub mod Write
pub mod Copy
use gocica.Base.{
  ℕ, zero, suc, ◌+◌, Bool, true, false, not, List, [], ◌∷◌, ◌++◌, Option, none, some, Bytes, length,
  take, drop, ltb, ◌==◌, if◌then◌else◌,
}
use gocica.Base.Int64.{Int64, lt64, sub64}
use gocica.Base.Go.{Error}

-- io.WriteCloser on values of `W`: a call gives the writer afterwards, the count and the error.
pub record Written (W : Type 0) : Type 0 where
  pub writer : W
  pub n : ℕ
  pub failure : Option Error

pub record WriteCloser (W : Type 0) : Type 0 where
  pub write : W → Bytes → Written W
  pub close : W → W × Option Error

pub record WriterWithSize (W : Type 0) : Type 0 where
  pub writer : W
  pub size : Int64

-- `before` is writers[:curWriter], `rest` is writers[curWriter:].
pub record JoinedWriter (W : Type 0) : Type 0 where
  pub before : List (WriterWithSize W)
  pub rest : List (WriterWithSize W)

unfoldable pub new_joined_writer : {W : Type 0} → List (WriterWithSize W) → JoinedWriter W
new_joined_writer ws = record { before = []; rest = ws }

module _ {W : Type 0} (io : WriteCloser W) where
  -- What one round of the loop comes to: a return, or another round.
  pub data Round : Type 0 where
    return : JoinedWriter W → ℕ → Option Error → Round
    again : JoinedWriter W → Bytes → ℕ → Round

  -- `writer.Size <= 0`: close it and move on.
  unfoldable pub close_round :
      List (WriterWithSize W) → WriterWithSize W → List (WriterWithSize W) → Bytes → ℕ → Round
  close_round before w ws remaining total =
      let (closed, failure) = io.close w.writer in
      let w' : WriterWithSize W = record w { writer = closed } in
      elim failure [
        | some e ↦ return (record { before = before; rest = w' ∷ ws }) total (some e)
        | none ↦ again (record { before = before ++ w' ∷ []; rest = ws }) remaining total
      ]

  -- What follows the call of the writer.
  unfoldable pub wrote_round :
      List (WriterWithSize W)
      → WriterWithSize W
      → List (WriterWithSize W)
      → Bytes
      → ℕ
      → Written W
      → Round
  wrote_round before w ws remaining total out =
      let w' : WriterWithSize W = record { writer = out.writer; size = sub64 w.size out.n } in
      let j : JoinedWriter W = record { before = before; rest = w' ∷ ws } in
      elim out.failure [
        | some e ↦ return j (total + out.n) (some e)
        | none ↦
            if ltb out.n (length remaining)
            then again j (drop out.n remaining) (total + out.n)
            else return j (total + out.n) none
      ]

  unfoldable pub write_size : WriterWithSize W → Bytes → ℕ
  write_size w remaining = if lt64 w.size (length remaining) then w.size else length remaining

  -- Write what fits.
  unfoldable pub fill_round :
      List (WriterWithSize W) → WriterWithSize W → List (WriterWithSize W) → Bytes → ℕ → Round
  unfolding wrote_round write_size
  fill_round before w ws remaining total =
      wrote_round before w ws remaining total
        (io.write w.writer (take (write_size w remaining) remaining))

  unfoldable pub round : List (WriterWithSize W) → List (WriterWithSize W) → Bytes → ℕ → Round
  unfolding close_round fill_round
  round before [] remaining total = return (record { before = before; rest = [] }) total none
  round before (w ∷ ws) remaining total =
      if not (lt64 0 w.size)
      then close_round before w ws remaining total
      else fill_round before w ws remaining total

  -- The loop, on fuel; `none` means that the fuel ran out.
  unfoldable pub write_loop : ℕ → Round → Option (Written (JoinedWriter W))
  write_loop fuel (return j total failure) =
      some (record { writer = j; n = total; failure = failure })
  write_loop zero (again j remaining total) = none
  write_loop (suc fuel) (again j remaining total) =
      write_loop fuel (round j.before j.rest remaining total)

  unfoldable pub write : ℕ → JoinedWriter W → Bytes → Option (Written (JoinedWriter W))
  unfolding write_loop round
  write fuel j p =
      if length p == 0
      then some (record { writer = j; n = 0; failure = none })
      else write_loop fuel (again j p 0)
