-- ===== src/Base/Int64.antt =====
-- Go's int64, as a bit pattern: a number below 2 ^ 64. Sums and differences wrap around; an order is
-- that of the signed values, read by moving the sign bit. `uint64(x)` and `int64(x)` are the identity.
use gocica.Base.{ℕ, ◌+◌, ◌-◌, ◌%◌, ◌^◌, ◌<◌, ◌≤◌, ◌≡◌, Bool, arith, ltb, min, if◌then◌else◌}

abbrev pub Int64 : Type 0
Int64 = ℕ

unfoldable pub add64 : Int64 → Int64 → Int64
add64 a b = (a + b) % 2 ^ 64

unfoldable pub sub64 : Int64 → Int64 → Int64
sub64 a b = (a + 2 ^ 64 - b) % 2 ^ 64

-- a < b, signed.
unfoldable pub lt64 : Int64 → Int64 → Bool
lt64 a b = ltb ((a + 2 ^ 63) % 2 ^ 64) ((b + 2 ^ 63) % 2 ^ 64)

-- The built-in `min`, signed.
unfoldable pub min64 : Int64 → Int64 → Int64
unfolding lt64
min64 a b = if lt64 b a then b else a

-- The values that are not negative.
abbrev pub NonNegative : Int64 → Type 0
NonNegative a = a < 2 ^ 63

pub add64-eq : (a b : ℕ) → a + b < 2 ^ 64 → add64 a b ≡ a + b
unfolding add64
add64-eq a b h = omega arith

pub sub64-eq : (a b : ℕ) → b ≤ a → a < 2 ^ 64 → sub64 a b ≡ a - b
unfolding sub64
sub64-eq a b h k = omega arith

pub lt64-eq : (a b : ℕ) → a < 2 ^ 63 → b < 2 ^ 63 → lt64 a b ≡ ltb a b
unfolding lt64
lt64-eq a b h k = ground arith

pub min64-eq : (a b : ℕ) → a < 2 ^ 63 → b < 2 ^ 63 → min64 a b ≡ min a b
unfolding min64
min64-eq a b h k = ground arith
