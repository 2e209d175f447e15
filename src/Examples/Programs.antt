-- ===== src/Examples/Programs.antt =====
-- The metrics of a short program, and a run of `main` with profiling.
use gocica.Base.{ℕ, zero, suc, ◌+◌, List, [], ◌∷◌, ◌++◌, Option, none, String}
use gocica.Base.Go.{plain, Error, ok, err, Io}
use gocica.Metrics.{Platform, write_metrics}
use gocica.Metrics.Rows.History.{Event, made, recorded}
use gocica.Protocol.Process.{Process}
use gocica.Log.{Logger}
use gocica.Program.{DevFlag, Profilers, Cli}
use Prim.Native.String.{◌++◌ as ◌&◌}

-- The clock counts its own readings, and a number is printed as strokes.
strokes : ℕ → String
strokes zero = ""
strokes (suc n) = "|" & strokes n

abbrev platform : Platform ℕ ℕ
platform = record {
  now = λ n. (n, n + 1);
  of_nanoseconds = λ n. n;
  format_float = strokes;
  format_int = strokes;
}

abbrev write_row : List String → Io (List (List String)) (Unit {0})
write_row r rows = (ok tt, rows ++ r ∷ [])

abbrev events : List (Event ℕ)
events =
    made "cpu" ∷ made "mem" ∷ recorded 1 7 "free" ∷ recorded 0 2 "user" ∷ recorded 1 3 "free" ∷ []

abbrev pred : ℕ → ℕ
pred zero = zero
pred (suc n) = n

-- The world is the number of open files.
abbrev profilers : Profilers String ℕ
profilers = record {
  create = λ path n. (ok path, n + 1);
  close = λ f n. pred n;
  start_cpu_profile = λ f n. (ok tt, n);
  stop_cpu_profile = λ n. n;
  fgprof_start = λ f n. (λ k. (ok tt, k), n);
  set_block_profile_rate = λ n. n;
  set_mutex_profile_fraction = λ n. n;
  gc = λ n. n;
  write_heap_profile = λ f n. (ok tt, n);
  write_profile = λ name f n. (ok tt, n);
  init_proc_stat = λ n. (ok tt, n);
  write_metrics = λ f n. (ok tt, n);
}

abbrev cli : Cli (DevFlag String ℕ)
cli = record {
  dir = "/cache";
  log_level = "info";
  github = record { token = ""; cache_url = ""; runner_os = "Linux"; ref = "main"; sha = "1" };
  dev = record {
    cpu_prof = "cpu.out";
    cpu_prof_file = none;
    mem_prof = "mem.out";
    metrics = "";
    mutex_prof = "mutex.out";
    block_prof = "";
    fg_prof = "fg.out";
    fgprof_stop = none;
  };
}

abbrev text : Error → String
text e = "failed"

abbrev show : Cli (DevFlag String ℕ) → String
show c = c.dir

abbrev initialize_failed : Logger → Cli (DevFlag String ℕ) → Io ℕ (Process ℕ × ℕ)
initialize_failed l c n = (err (plain "no token"), n + 2)

abbrev run_process : Process ℕ → Option ℕ → Io ℕ (Unit {0})
run_process p s n = (ok tt, n + 1)
