-- ===== src/Protocol/Process/Fuel.antt =====
-- The decode loop ends.
use gocica.Base.{ℕ, ◌≤◌, ◌<◌, ◌≡◌, ◌≢◌}
use gocica.Base.Go.{plain, ok, err}
use gocica.Protocol.Process.{Source, Decoded}

-- A source over an input that ends: `left` is what is left of it. A segment that is begun is taken
-- from what is left; at the end there is an error (io.EOF).
pub record IsFinite {R : Type 0} (source : Source R) (left : R → ℕ) : Type 0 where
  pub next_takes : (r : R) → (source.next r).0 ≡ ok tt → left (source.next r).1 < left r
  pub decode_keeps : (r : R) → left (source.decode r).1 ≤ left r
  pub read_keeps : (r : R) → left (source.read_body r).1 ≤ left r

module _ {R : Type 0} (source : Source R) (left : R → ℕ) (finite : IsFinite source left) where
  -- The loop was not cut off for want of fuel.
  abbrev pub Ended : Decoded → Type 0
  Ended d = d.result ≢ err (plain "out of fuel")
