-- ===== src/Program.antt =====
-- main.go, and the profiling of dev_flag.go, which a build with the tag `dev` has.
pub mod Files
pub mod Ends
use gocica.Base.{
  Bool, true, false, List, [], ◌∷◌, Option, none, some, String, str_eq, if◌then◌else◌,
}
use gocica.Base.Go.{
  Error, plain, wrap, Result, ok, err, wrapped, and_then, Io, pure, within, continue, ◌>>=◌, ◌>>◌,
}
use Prim.Native.String.{◌++◌ as ◌&◌}
use gocica.Provider.{GhaCacheConfig}
use gocica.Log.{Logger, default_logger, warnf, debugf, set_log_level}
use gocica.Protocol.Process.{Process}
use gocica.Startup.{main_process}

-- `fgprof_stop` is the function that fgprof.Start gave.
pub record DevFlag (File W : Type 0) : Type 0 where
  pub cpu_prof : String
  pub cpu_prof_file : Option File
  pub mem_prof : String
  pub metrics : String
  pub mutex_prof : String
  pub block_prof : String
  pub fg_prof : String
  pub fgprof_stop : Option (Io W (Unit {0}))

-- The profilers of the runtime and of fgprof, the metrics, and files.
pub record Profilers (File W : Type 0) : Type 0 where
  pub create : String → Io W File
  pub close : File → W → W
  pub start_cpu_profile : File → Io W (Unit {0})
  pub stop_cpu_profile : W → W
  pub fgprof_start : File → W → Io W (Unit {0}) × W
  pub set_block_profile_rate : W → W
  pub set_mutex_profile_fraction : W → W
  pub gc : W → W
  pub write_heap_profile : File → Io W (Unit {0})
  pub write_profile : String → File → Io W (Unit {0})
  pub init_proc_stat : Io W (Unit {0})
  pub write_metrics : File → Io W (Unit {0})

module _ {File W : Type 0} (p : Profilers File W) where
  -- The state of StartProfiling: its receiver, which it changes, and the world.
  abbrev pub Started : Type 0 → Type 0
  Started A = Io (DevFlag File W × W) A

  abbrev pub in_world : {A : Type 0} → Io W A → Started A
  in_world m (d, w) = let (r, w') = m w in (r, (d, w'))

  abbrev pub always : (W → W) → Started (Unit {0})
  always f (d, w) = (ok tt, (d, f w))

  -- `if path != "" { … }`
  abbrev pub asked : {A : Type 0} → String → Io A (Unit {0}) → Io A (Unit {0})
  asked path m = if str_eq path "" then pure tt else m

  abbrev pub keep_file : File → Started (Unit {0})
  keep_file f (d, w) = (ok tt, (record d { cpu_prof_file = some f }, w))

  abbrev pub start_fgprof : File → Started (Unit {0})
  start_fgprof f (d, w) =
      let (stop, w') = p.fgprof_start f w in (ok tt, (record d { fgprof_stop = some stop }, w'))

  abbrev pub start_cpu : String → Started (Unit {0})
  start_cpu path = do
    f ← within "failed to create CPU profile file" (in_world (p.create path))
    _ ← keep_file f
    within "failed to start CPU profiling" (in_world (p.start_cpu_profile f))

  abbrev pub start_fg : String → Started (Unit {0})
  start_fg path = within "failed to create fgprof file" (in_world (p.create path)) >>= start_fgprof

  unfoldable pub start_profiling : DevFlag File W → W → Result (Unit {0}) × (DevFlag File W × W)
  start_profiling d w =
      (asked d.cpu_prof (start_cpu d.cpu_prof)
          >> asked d.fg_prof (start_fg d.fg_prof)
          >> asked d.block_prof (always p.set_block_profile_rate)
          >> asked d.mutex_prof (always p.set_mutex_profile_fraction)
          >> asked d.metrics (within "failed to initialize proc stat" (in_world p.init_proc_stat)))
        (d, w)

  -- A profile that is written when profiling stops. The file is closed by a deferred call: it comes to
  -- the front of the files to close. An error is that of log.Fatal, which ends the process.
  unfoldable pub write_file :
      String → String → String → (File → Io W (Unit {0})) → List File → Io W (List File)
  write_file path created written write files w =
      if str_eq path ""
      then (ok files, w)
      else (do f ← within created (p.create path); _ ← within written (write f); pure (f ∷ files)) w

  -- The deferred calls.
  unfoldable pub close_files : List File → W → W
  close_files [] w = w
  close_files (f ∷ fs) w = close_files fs (p.close f w)

  abbrev pub stop_cpu : Option File → W → List File × W
  stop_cpu none w = ([], w)
  stop_cpu (some f) w = (f ∷ [], p.stop_cpu_profile w)

  -- The error is logged only.
  abbrev pub stop_fgprof : Option (Io W (Unit {0})) → W → W
  stop_fgprof none w = w
  stop_fgprof (some stop) w = (stop w).1

  abbrev pub write_heap : File → Io W (Unit {0})
  write_heap f w = p.write_heap_profile f (p.gc w)

  unfoldable pub write_files : DevFlag File W → List File → Io W (List File)
  unfolding write_file
  write_files d files =
      write_file d.mem_prof "could not create memory profile" "could not write memory profile"
        write_heap files
      >>= write_file d.mutex_prof "could not create mutex profile file"
          "could not write mutex profile" (p.write_profile "mutex")
      >>= write_file d.block_prof "could not create block profile file"
          "could not write block profile" (p.write_profile "block")
      >>= write_file d.metrics "could not create metrics file" "could not write metrics"
          p.write_metrics

  abbrev pub finish : Result (List File) × W → Result (Unit {0}) × W
  finish (ok files, w) = (ok tt, close_files files w)
  finish (err e, w) = (err e, w)

  unfoldable pub stop_profiling : DevFlag File W → Io W (Unit {0})
  unfolding write_files close_files
  stop_profiling d w =
      let (files, w1) = stop_cpu d.cpu_prof_file w in
      finish (write_files d files (stop_fgprof d.fgprof_stop w1))

-- The command line. `D` is DevFlag, which has no fields in a build without the tag.
pub record Cli (D : Type 0) : Type 0 where
  pub dir : String
  pub log_level : String
  pub github : GhaCacheConfig
  pub dev : D

-- loadConfig: `parsed` is what kong makes of the arguments, `cache_dir` the answer of os.UserCacheDir.
unfoldable pub load_config :
    {D : Type 0}
    → (join : String → String → String) → Result String
    → Result (Cli D)
    → Result (Cli D)
load_config join cache_dir parsed = and_then (wrapped "failed to parse arguments" parsed) λ cli.
    let cli' =
      if str_eq cli.dir ""
      then elim cache_dir [ ok dir ↦ record cli { dir = join dir "gocica" } | err _ ↦ cli ]
      else cli in
    if str_eq cli'.dir ""
    then err (
        plain "cache directory is not specified. please specify using the -dir flag or config file")
    else ok cli'

-- The methods of DevFlag: those above, or those of dummy_dev_flag.go.
pub record Profiling (D W : Type 0) : Type 0 where
  pub start : D → W → Result (Unit {0}) × (D × W)
  pub stop : D → Io W (Unit {0})

unfoldable pub dev_profiling : {File W : Type 0} → Profilers File W → Profiling (DevFlag File W) W
unfolding start_profiling stop_profiling
dev_profiling p = record { start = start_profiling p; stop = stop_profiling p }

unfoldable pub dummy_profiling : {W : Type 0} → Profiling (Unit {0}) W
dummy_profiling = record { start = λ d w. (ok tt, (d, w)); stop = λ d w. (ok tt, w) }

module _ {D W X : Type 0} (profiling : Profiling D W) (text : Error → String)
    (show : Cli D → String) (initialize_process : Logger → Cli D → Io W (Process X × X))
    (run : Process X → Option X → Io W (Unit {0})) where
  abbrev warn_of : Logger → String → Result (Unit {0}) → String → List String → List String
  warn_of l before (ok _) after printed = printed
  warn_of l before (err e) after printed = warnf l (before & text e & after) printed

  abbrev forget : {A : Type 0} → Result A → Result (Unit {0})
  forget (ok a) = ok tt
  forget (err e) = err e

  abbrev state_of : Result (Process X × X) → Option X
  state_of (ok (_, s)) = some s
  state_of (err e) = none

  -- `main` behind loadConfig, up to the deferred stop of the profiling: the receiver of the profiling,
  -- how the run ended, and what the loggers printed. InitializeProcess and Process.Run, which Startup
  -- and Protocol.Process.RunStdin model on states of their own, are parameters on one world.
  unfoldable pub main_running : Cli D → W → (D × Result (Unit {0}) × List String) × W
  unfolding set_log_level warnf debugf main_process
  main_running cli w =
      let (started, (d, w1)) = profiling.start cli.dev w in
      let printed = warn_of default_logger "failed to start profiling: " started "" [] in
      let (logger, printed1) = set_log_level cli.log_level printed in
      let cli1 = record cli { dev = d } in
      let printed2 = debugf logger ("configuration: " & show cli1) printed1 in
      let (init, w2) = initialize_process logger cli1 w1 in
      let printed3 =
        warn_of logger "failed to initialize process: " (forget init) ". no cache will be used."
          printed2 in
      let (ran, w3) = run (main_process logger init) (state_of init) w2 in ((d, ran, printed3), w3)

  -- The profiling stops in a deferred call; a panic and log.Fatal are errors here.
  unfoldable pub main_loaded : Cli D → W → (Result (Unit {0}) × List String) × W
  unfolding main_running
  main_loaded cli w =
      let ((d, ran, printed), w3) = main_running cli w in
      let (stopped, w4) = profiling.stop d w3 in
      (
        (
          elim stopped [
            | err e ↦ err e
            | ok _ ↦ wrapped "unexpected error: failed to run process" ran
          ],
          printed,
        ),
        w4,
      )

  unfoldable pub main :
      (join : String → String → String)
      → Result String
      → Result (Cli D)
      → W
      → (Result (Unit {0}) × List String) × W
  unfolding load_config main_loaded
  main join cache_dir parsed w = elim (load_config join cache_dir parsed) [
    | err e ↦ ((err (wrap "invalid configuration" e), []), w)
    | ok cli ↦ main_loaded cli w
  ]
