-- ===== src/Log.antt =====
-- The levels of internal/pkg/log/logger.go, and their choice in main.go. A message is the text that
-- Printf makes of its format and arguments; what is printed is the list of the lines on stderr.
pub mod Levels
use gocica.Base.{ℕ, ltb, true, false, List, [], ◌∷◌, ◌++◌, String, str_eq, if◌then◌else◌}
use Prim.Native.String.{◌++◌ as ◌&◌}

abbrev pub Level : Type 0
Level = ℕ

abbrev pub silent : Level
silent = 0

abbrev pub error : Level
error = 1

abbrev pub warn : Level
warn = 2

abbrev pub info : Level
info = 3

abbrev pub debug : Level
debug = 4

pub record Logger : Type 0 where
  pub level : Level

abbrev pub new_logger : Level → Logger
new_logger level = record { level = level }

-- The state is what was printed before.
abbrev printf : String → List String → List String
printf line printed = printed ++ line ∷ []

unfoldable pub errorf : Logger → String → List String → List String
errorf l text printed = if ltb l.level error then printed else printf ("[ERROR] " & text) printed

unfoldable pub warnf : Logger → String → List String → List String
warnf l text printed = if ltb l.level warn then printed else printf ("[WARN] " & text) printed

unfoldable pub infof : Logger → String → List String → List String
infof l text printed = if ltb l.level info then printed else printf ("[INFO] " & text) printed

unfoldable pub debugf : Logger → String → List String → List String
debugf l text printed = if ltb l.level debug then printed else printf ("[DEBUG] " & text) printed

-- log.DefaultLogger
abbrev pub default_logger : Logger
default_logger = new_logger info

-- The switch in `main` over the level of the command line.
unfoldable pub set_log_level : String → List String → Logger × List String
unfolding warnf
set_log_level level printed =
    if str_eq level "silent"
    then (new_logger silent, printed)
    else if str_eq level "error"
    then (new_logger error, printed)
    else if str_eq level "warn"
    then (new_logger warn, printed)
    else if str_eq level "info"
    then (default_logger, printed)
    else if str_eq level "debug"
    then (new_logger debug, printed)
    else (
      default_logger,
      warnf default_logger
          ("invalid log level: " & level & ". ignore and use default info level instead") printed,
    )
