-- ===== src/Program/Files/Count.antt =====
-- What is relied on of files, and how a receiver of the profiling stands to the open files.
use gocica.Base.{ℕ, ◌+◌, ◌<◌, ◌≡◌, Option, none, some, String}
use gocica.Base.Go.{Error, ok, err, Io}
use gocica.Program.{DevFlag, Profilers}

abbrev pub Keeps : {W A : Type 0} → (W → ℕ) → Io W A → Type 0
Keeps {W} count m = (w : W) → count (m w).1 ≡ count w

-- What is relied on: `count` is the number of open files. A file that is made is open, one that is closed
-- is not, and no other call opens or closes a file.
pub record Counts {File W : Type 0} (p : Profilers File W) (count : W → ℕ) : Type 0 where
  pub create_ok :
      (path : String) (w : W) (f : File)
      → (p.create path w).0 ≡ ok f
      → count (p.create path w).1 ≡ count w + 1
  pub create_err :
      (path : String) (w : W) (e : Error)
      → (p.create path w).0 ≡ err e
      → count (p.create path w).1 ≡ count w
  pub closes : (f : File) (w : W) → 0 < count w → count (p.close f w) + 1 ≡ count w
  pub start_cpu : (f : File) → Keeps count (p.start_cpu_profile f)
  pub stop_cpu : (w : W) → count (p.stop_cpu_profile w) ≡ count w
  pub start_fg : (f : File) (w : W) → count (p.fgprof_start f w).1 ≡ count w
  pub stop_fg : (f : File) (w : W) → Keeps count (p.fgprof_start f w).0
  pub block_rate : (w : W) → count (p.set_block_profile_rate w) ≡ count w
  pub mutex_fraction : (w : W) → count (p.set_mutex_profile_fraction w) ≡ count w
  pub gc : (w : W) → count (p.gc w) ≡ count w
  pub heap : (f : File) → Keeps count (p.write_heap_profile f)
  pub profile : (name : String) (f : File) → Keeps count (p.write_profile name f)
  pub proc_stat : Keeps count p.init_proc_stat
  pub metrics : (f : File) → Keeps count (p.write_metrics f)

abbrev pub one_if : {A : Type 0} → Option A → ℕ
one_if none = 0
one_if (some a) = 1

module _ {File W : Type 0} where
  -- The files that a receiver of StopProfiling closes, and the one of fgprof, beside `n` others.
  abbrev pub Tracked : (W → ℕ) → ℕ → DevFlag File W × W → Type 0
  Tracked count n (d, w) =
      (count w ≡ n + one_if d.cpu_prof_file + one_if d.fgprof_stop)
      × ((stop : Io W (Unit {0})) → d.fgprof_stop ≡ some stop → Keeps count stop)

  -- A receiver on which nothing was started.
  abbrev pub Fresh : DevFlag File W → Type 0
  Fresh d = (d.cpu_prof_file ≡ none) × (d.fgprof_stop ≡ none)
