-- ===== src/Log/Levels.antt =====
-- What a sequence of messages prints.
use gocica.Base.{
  ◌≡◌, refl, sym, ap, ◌∙◌, Bool-cases, inl, inr, List, [], ◌∷◌, ◌++◌, String, ltb, append-nil,
  append_assoc, if◌then◌else◌, Option, none, some, eq_iff, arith,
}
use gocica.Base.Table.{Table, lookup}
use gocica.Log.{
  Level, Logger, set_log_level, silent, error, warn, info, debug, errorf, warnf, infof, debugf,
}
use Prim.Native.String.{◌++◌ as ◌&◌}

-- A call of a logger.
pub data Message : Type 0 where
  on_error on_warn on_info on_debug : String → Message

unfoldable pub log_message : Logger → Message → List String → List String
unfolding errorf warnf infof debugf
log_message l (on_error text) = errorf l text
log_message l (on_warn text) = warnf l text
log_message l (on_info text) = infof l text
log_message l (on_debug text) = debugf l text

unfoldable pub log_all : Logger → List Message → List String → List String
unfolding log_message
log_all l [] printed = printed
log_all l (m ∷ ms) printed = log_all l ms (log_message l m printed)

abbrev pub severity : Message → Level
severity (on_error _) = error
severity (on_warn _) = warn
severity (on_info _) = info
severity (on_debug _) = debug

abbrev pub line : Message → String
line (on_error text) = "[ERROR] " & text
line (on_warn text) = "[WARN] " & text
line (on_info text) = "[INFO] " & text
line (on_debug text) = "[DEBUG] " & text

-- The lines of the messages up to a level.
unfoldable pub lines_up_to : Level → List Message → List String
lines_up_to level [] = []
lines_up_to level (m ∷ ms) =
    let rest = lines_up_to level ms in if ltb level (severity m) then rest else line m ∷ rest

log_message-line :
    (l : Logger) (m : Message) (printed : List String)
    → log_message l m printed
      ≡ (if ltb l.level (severity m) then printed else printed ++ line m ∷ [])
unfolding log_message errorf warnf infof debugf
log_message-line l (on_error text) printed = refl
log_message-line l (on_warn text) printed = refl
log_message-line l (on_info text) printed = refl
log_message-line l (on_debug text) printed = refl

-- A logger prints the lines of the messages up to its level, in their order, behind what was printed.
pub log_all-lines :
    (l : Logger) (ms : List Message) (printed : List String)
    → log_all l ms printed ≡ printed ++ lines_up_to l.level ms
unfolding log_all lines_up_to
log_all-lines l [] printed = sym (append-nil printed)
log_all-lines l (m ∷ ms) printed = elim (Bool-cases (ltb l.level (severity m))) [
  | inl below ↦
      log_all-lines l ms _
      ∙ ap (λ p. p ++ lines_up_to l.level ms) (log_message-line l m printed)
      ∙ rw below refl
  | inr reached ↦
      log_all-lines l ms _
      ∙ ap (λ p. p ++ lines_up_to l.level ms) (log_message-line l m printed)
      ∙ rw reached (append_assoc printed (line m ∷ []) (lines_up_to l.level ms))
]

-- The levels of the command line, by their names.
abbrev pub levels : Table Level
levels =
    ("silent", silent) ∷ ("error", error) ∷ ("warn", warn) ∷ ("info", info) ∷ ("debug", debug) ∷ []

abbrev pub known_or_info : Option Level → Level
known_or_info none = info
known_or_info (some level) = level

abbrev pub warning : String → Option Level → List String
warning name none =
    ("[WARN] " & ("invalid log level: " & name & ". ignore and use default info level instead"))
    ∷ []
warning name (some _) = []

set_log_level-levels :
    (name : String) (printed : List String)
    → set_log_level name printed ≡ (
      record { level = known_or_info (lookup name levels) },
      printed ++ warning name (lookup name levels),
    )
unfolding set_log_level lookup warnf
set_log_level-levels name printed = ground (
  arith,
  append-nil printed,
  eq_iff name "silent",
  eq_iff "silent" name,
  eq_iff name "error",
  eq_iff "error" name,
  eq_iff name "warn",
  eq_iff "warn" name,
  eq_iff name "info",
  eq_iff "info" name,
  eq_iff name "debug",
  eq_iff "debug" name,
)

-- With any level name of the command line, what is printed is, in order, the line of every message up
-- to the level of that name; with any other name, a warning and then what the info level prints.
pub set_log_level-lines :
    (name : String) (ms : List Message) (printed : List String)
    → log_all (set_log_level name printed).0 ms (set_log_level name printed).1
      ≡ (printed ++ warning name (lookup name levels))
        ++ lines_up_to (known_or_info (lookup name levels)) ms
set_log_level-lines name ms printed =
    ap (λ s. log_all s.0 ms s.1) (set_log_level-levels name printed) ∙ log_all-lines _ ms _
