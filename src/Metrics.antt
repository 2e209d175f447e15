-- ===== src/Metrics.antt =====
-- The gauges of internal/pkg/metrics/metrics.go, of a build with the tag `dev`. Float64 values are a
-- type `F`, and a pointer to a gauge is its place in the list of all gauges.
pub mod ProcFs
pub mod Rows
use gocica.Base.{ℕ, zero, suc, ◌+◌, ◌*◌, List, [], ◌∷◌, ◌++◌, Option, none, some, String, length}
use gocica.Base.Int64.{Int64, sub64}
use gocica.Base.Go.{Error, Result, ok, err, Io, wrap}

-- `time` is in nanoseconds, on the clock of time.Now.
pub record Record (F : Type 0) : Type 0 where
  pub value : F
  pub time : Int64
  pub label : String

pub record Gauge (F : Type 0) : Type 0 where
  pub name : String
  pub records : List (Record F)

-- The package's variables, and a world `W` that has the clock.
pub record Meter (F W : Type 0) : Type 0 where
  pub start_time : Int64
  pub gauges : List (Gauge F)
  pub world : W

-- time.Now, and what strconv and encoding/csv do.
pub record Platform (F W : Type 0) : Type 0 where
  pub now : W → Int64 × W
  pub of_nanoseconds : Int64 → F
  pub format_float : F → String
  pub format_int : Int64 → String

module _ {F : Type 0} where
  abbrev pub add_record : Record F → Gauge F → Gauge F
  add_record r g = record g { records = g.records ++ r ∷ [] }

  -- The update through a pointer.
  unfoldable pub add_at : ℕ → Record F → List (Gauge F) → List (Gauge F)
  add_at i r [] = []
  add_at zero r (g ∷ gs) = add_record r g ∷ gs
  add_at (suc i) r (g ∷ gs) = g ∷ add_at i r gs

  abbrev pub get_records : Gauge F → List (Record F)
  get_records g = g.records

  abbrev pub new_gauge_value : String → Gauge F
  new_gauge_value name = record { name = name; records = [] }

module _ {F W : Type 0} (p : Platform F W) where
  -- NewGauge: the new pointer.
  unfoldable pub new_gauge : String → Meter F W → ℕ × Meter F W
  new_gauge name m = (length m.gauges, record m { gauges = m.gauges ++ new_gauge_value name ∷ [] })

  -- Gauge.Set, under the lock of the gauge.
  unfoldable pub set : ℕ → F → String → Meter F W → Meter F W
  unfolding add_at
  set g value label m =
      let (t, w) = p.now m.world in
      record m {
        gauges = add_at g (record { value = value; time = t; label = label }) m.gauges;
        world = w;
      }

  -- Gauge.Stopwatch: `f` runs between two readings of the clock.
  unfoldable pub stopwatch : ℕ → (Meter F W → Meter F W) → String → Meter F W → Meter F W
  unfolding set
  stopwatch g f label m =
      let (start, w) = p.now m.world in
      let m1 = f (record m { world = w }) in
      let (end, w1) = p.now m1.world in
      set g (p.of_nanoseconds (sub64 end start)) label (record m1 { world = w1 })

  -- csv.Writer.Write, on the state `C` of the csv writer and what it writes to.
  module _ {C : Type 0} (write : List String → Io C (Unit {0})) (flush : C → C) where
    abbrev pub row : Int64 → String → Record F → List String
    row start name r =
        name ∷ p.format_float r.value ∷ p.format_int (sub64 r.time start) ∷ r.label ∷ []

    unfoldable pub write_records : Int64 → String → List (Record F) → Io C (Unit {0})
    write_records start name [] c = (ok tt, c)
    write_records start name (r ∷ rs) c =
        let (e, c1) = write (row start name r) c in
        elim e [ err x ↦ (err (wrap "write record" x), c1) | ok _ ↦ write_records start name rs c1 ]

    unfoldable pub write_gauges : Int64 → List (Gauge F) → Io C (Unit {0})
    unfolding write_records
    write_gauges start [] c = (ok tt, c)
    write_gauges start (g ∷ gs) c =
        let (e, c1) = write_records start g.name (get_records g) c in
        elim e [ err x ↦ (err x, c1) | ok _ ↦ write_gauges start gs c1 ]

    abbrev header : List String
    header = "name" ∷ "value" ∷ "time" ∷ "label" ∷ []

    -- WriteMetrics: the error of the header's row is dropped, and the Flush is deferred.
    unfoldable pub write_metrics : Meter F W → Io C (Unit {0})
    unfolding write_gauges
    write_metrics m c =
        let (_, c1) = write header c in
        let (e, c2) = write_gauges m.start_time m.gauges c1 in (e, flush c2)
