-- ===== src/Program/Files.antt =====
-- The files of the profiles are closed.
pub mod Count
pub mod Stop
pub mod Start
use gocica.Base.{
  ℕ, ◌+◌, ◌-◌, ◌≤◌, ◌<◌, ◌≡◌, refl, sym, ap, subst, ◌∙◌, true, false, Bool-cases, inl, inr, List,
  [], ◌∷◌, Option, none, some, Option-cases, String, str_eq, length, arith,
}
use gocica.Base.Go.{Error, Result, Result-cases, ok, err, Io, within, ◌>>=◌, ◌>>◌, bind_ok}
use gocica.Program.{
  DevFlag, Profilers, start_profiling, write_file, close_files, stop_profiling, start_cpu, start_fg,
  asked, in_world, always, stop_cpu, stop_fgprof, write_heap, write_files, finish,
}
use gocica.Program.Files.Count.{Keeps, Counts, one_if, Tracked, Fresh}
use gocica.Program.Files.Start.{start_profiling-Tracked}
use gocica.Program.Files.Stop.{stop_profiling-count}

module _ {File W : Type 0} (p : Profilers File W) (count : W → ℕ) (law : Counts p count) where
  -- The profiling leaves one file open if fgprof was started, and closes all others: whatever the start
  -- comes to, a stop that does not end the process leaves open the files that were open before the
  -- start, those that were opened between the start and the stop, and the one of fgprof if it was
  -- started. In between at least as many files are opened as are closed.
  pub stop-start_profiling :
      (d : DevFlag File W) (w w1 : W)
      → Fresh d
      → let (d1, started) = (start_profiling p d w).1 in
        count started ≤ count w1
        → (stop_profiling p d1 w1).0 ≡ ok tt
        → count (stop_profiling p d1 w1).1
          ≡ count w + (count w1 - count started) + one_if d1.fgprof_stop
  stop-start_profiling d w w1 fresh more h =
      let (started, stops) = start_profiling-Tracked p count law d w fresh in
      let n = count w + (count w1 - count (start_profiling p d w).1.1) in
      stop_profiling-count p count law (start_profiling p d w).1.0 w1 n
        (omega (arith, more, started), stops) h
