-- ===== src/Program/Ends.antt =====
-- A `main` that ends has closed the files of its profiles.
use gocica.Base.{◌≤◌, ℕ}
use gocica.Base.Go.{Io}
use gocica.Protocol.Process.{Process}

-- Code that closes no file that was open before it; it may leave others open.
abbrev pub Grows : {W A : Type 0} → (W → ℕ) → Io W A → Type 0
Grows {W} count m = (w : W) → count w ≤ count (m w).1
