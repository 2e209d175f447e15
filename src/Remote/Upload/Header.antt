-- ===== src/Remote/Upload/Header.antt =====
-- The eight bytes before the protobuf message.
use gocica.Base.{ℕ, ◌+◌, ◌*◌, ◌^◌, ◌<◌, ◌≡◌, refl, ◌∷◌, arith, Bytes, length}
use gocica.Remote.Upload.{put_uint64}

-- binary.BigEndian.Uint64: it reads the first eight bytes. It panics if there are fewer, but it is only
-- called on a buffer of eight.
unfoldable pub uint64 : Bytes → ℕ
uint64 (b0 ∷ b1 ∷ b2 ∷ b3 ∷ b4 ∷ b5 ∷ b6 ∷ b7 ∷ rest) =
    b7
    + 2 ^ 8 * b6
    + 2 ^ 16 * b5
    + 2 ^ 24 * b4
    + 2 ^ 32 * b3
    + 2 ^ 40 * b2
    + 2 ^ 48 * b1
    + 2 ^ 56 * b0
uint64 _ = 0

-- The length that `createHeader` writes in eight bytes is the one that `readHeader` reads, for every
-- length below 2^64.
pub uint64-put_uint64 : (v : ℕ) → v < 2 ^ 64 → uint64 (put_uint64 v) ≡ v
unfolding uint64 put_uint64
uint64-put_uint64 v h = omega arith

pub length-put_uint64 : (v : ℕ) → length (put_uint64 v) ≡ 8
unfolding put_uint64
length-put_uint64 v = refl
