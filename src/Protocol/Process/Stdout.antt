-- ===== src/Protocol/Process/Stdout.antt =====
-- The encoder goroutine of protocol/proccess.go, and Encode of internal/pkg/json/json.go.
pub mod Lines
use gocica.Base.{ℕ, List, [], ◌∷◌, Option, Bytes}
use gocica.Base.Go.{Result, ok, err, Io, ◌>>=◌, ◌>>◌, continue}
use gocica.Protocol.{Request, Response}
use gocica.Protocol.Process.{Once, Process, Source, run}
use gocica.Protocol.Process.Stdin.{newline}

-- The stream encoder and the bufio.Writer under it.
pub record Encoder (W : Type 0) : Type 0 where
  pub enc : Response → Io W (Unit {0})
  pub write : Bytes → Io W (Unit {0})
  pub flush : Io W (Unit {0})

module _ {W : Type 0} (encoder : Encoder W) where
  -- json.Encoder.Encode
  unfoldable pub encode : Response → Io W (Unit {0})
  encode v = encoder.enc v >> encoder.write (newline ∷ [])

  abbrev flushed : W → W
  flushed w = (encoder.flush w).1

  -- An error is logged, and the loop goes on; the last Flush is deferred.
  unfoldable pub encode_worker : List Response → Io W (Unit {0})
  unfolding encode
  encode_worker [] w = (ok tt, flushed w)
  encode_worker (resp ∷ ch) w =
      let (r, w1) = encode resp w in
      elim r [ ok _ ↦ encode_worker ch (flushed w1) | err e ↦ encode_worker ch w1 ]

-- `run` with its encoder: the responses in the order in which they are sent.
unfoldable pub run_encoded :
    {S R W : Type 0}
    → Encoder W
    → Source R
    → (List Request → List Request)
    → ℕ
    → Process S
    → R
    → Once S
    → W
    → (Result (Unit {0}) × Once S) × W
unfolding run encode_worker
run_encoded encoder source schedule fuel p r s w =
    let ((responses, result), s') = run source schedule fuel p r s in
    let (_, w') = encode_worker encoder responses w in ((result, s'), w')
