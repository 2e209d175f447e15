-- ===== src/Metrics/Rows.antt =====
-- The rows of the file of metrics.
pub mod History
use gocica.Base.{
  ℕ, zero, suc, ◌≡◌, true, false, Bool-cases, inl, inr, List, [], ◌∷◌, ◌++◌, map, map-append,
  String, ◌==◌, ==_iff, if◌then◌else◌,
}
use gocica.Base.Int64.{Int64}
use gocica.Base.Go.{Result, ok, err, Io}
use gocica.Metrics.{Record, Gauge, Meter, Platform, add_record, new_gauge, set, row}
use gocica.Metrics.Rows.History.{Event, made, recorded, of_gauge}

module _ {F W : Type 0} (p : Platform F W) where
  unfoldable pub run_event : Event F → Meter F W → Meter F W
  unfolding new_gauge set
  run_event (made name) m = (new_gauge p name m).1
  run_event (recorded g value label) m = set p g value label m

  unfoldable pub run_events : List (Event F) → Meter F W → Meter F W
  unfolding run_event
  run_events [] m = m
  run_events (e ∷ es) m = run_events es (run_event e m)

  -- The records with their gauges, each at the time that the clock gives next.
  unfoldable pub history_of : List (Event F) → W → List (ℕ × Record F)
  history_of [] w = []
  history_of (made name ∷ es) w = history_of es w
  history_of (recorded g value label ∷ es) w =
      let (t, w') = p.now w in
      (g, record { value = value; time = t; label = label }) ∷ history_of es w'

  module _ {C : Type 0} (write : List String → Io C (Unit {0})) (flush : C → C)
      (rows : C → List (List String))
      (writes : (r : List String) (c : C)
        → ((write r c).0 ≡ ok tt) × (rows (write r c).1 ≡ rows c ++ r ∷ []))
      (flush_keeps : (c : C) → rows (flush c) ≡ rows c) where
    -- The rows of the gauges, one gauge behind the other.
    unfoldable pub rows_of : Int64 → ℕ → List String → List (ℕ × Record F) → List (List String)
    rows_of start i [] history = []
    rows_of start i (name ∷ ns) history =
        map (row p write flush start name) (of_gauge i history) ++ rows_of start (suc i) ns history

    -- Code that succeeds and adds rows.
    abbrev Adds : List (List String) → C → Result (Unit {0}) × C → Type 0
    Adds more c out = (out.0 ≡ ok tt) × (rows out.1 ≡ rows c ++ more)
