-- ===== src/Logging.antt =====
-- steamos_log_submitter/logging.py, and the level of the log in daemon.py: `log_level`,
-- `set_log_level` and `DaemonInterface.Log`.
pub mod Handlers
pub mod Level
mod Tests
use steamos_log_submitter.Base.{
  ℕ, ◌<◌, String, Bool, true, false, ◌&&◌, ◌||◌, List, [], ◌∷◌, ◌++◌, map, Option, none, some, Text,
  codes, text_eq, nat_eq, ltb, leb, if◌then◌else◌, Result, ok, raise, Exc, os_error, ◌==◌, other,
}
use steamos_log_submitter.Base.Json.{Json, num, obj, field, end}
use steamos_log_submitter.Util.Case.{upper}
use steamos_log_submitter.Config.{Config, get_item, set_item, write_config, migrate_key}
use steamos_log_submitter.Exceptions.{
  Raised, Outcome, returned, raised, exception, error, invalid_arguments_error,
}

-- The levels that Python's `logging` has under these names.
unfoldable pub level_number : Text → Option ℕ
level_number name =
    if text_eq name (codes "DEBUG")
    then some 10
    else if text_eq name (codes "INFO")
    then some 20
    else if text_eq name (codes "WARNING")
    then some 30
    else if text_eq name (codes "ERROR")
    then some 40
    else if text_eq name (codes "CRITICAL")
    then some 50
    else none

-- `text.upper()`, for ASCII texts
abbrev pub uppercase : String → Text
uppercase text = map upper (codes text)

abbrev pub is_some : Option ℕ → Bool
is_some none = false
is_some (some n) = true

-- `valid_level` of a text and of a number
unfoldable pub valid_name : String → Bool
valid_name level = is_some (level_number (uppercase level))

unfoldable pub valid_level : ℕ → Bool
valid_level level =
    nat_eq level 10
    || (nat_eq level 20 || (nat_eq level 30 || (nat_eq level 40 || nat_eq level 50)))

-- `a or b` for texts that may be None
abbrev pub or_else : Option String → String → String
or_else none fallback = fallback
or_else (some text) fallback = if text == "" then fallback else text

abbrev pub section : String
section = "logging"

abbrev pub config_level : Config → Option String
config_level c = elim (get_item [] section "level" c) [ ok v ↦ some v | raise e ↦ none ]

-- A handler of the root logger.
pub data Handler : Type 0 where
  stream : Handler
  file : String → Handler
  remote : Handler

-- The root logger, the handlers that were closed, and the level of the logger `asyncio`.
pub record Root : Type 0 where
  pub handlers : List (Handler × ℕ)
  pub closed : List Handler
  pub level : ℕ
  pub asyncio_level : Option ℕ

abbrev pub add_handler : Handler → ℕ → Root → Root
add_handler handler level r = record r { handlers = r.handlers ++ ((handler, level) ∷ []) }

abbrev pub known_or_warning : Option ℕ → ℕ
known_or_warning none = 30
known_or_warning (some n) = n

-- `if valid_level(level)` and its branches
abbrev pub level_int : Option String → Option String → ℕ
level_int level configured =
    known_or_warning (level_number (uppercase (or_else level (or_else configured "WARNING"))))

unfoldable pub remove_handlers : Root → Root
remove_handlers r = record r { handlers = []; closed = r.closed ++ map (λ h. h.0) r.handlers }

-- Opening the log file, which may fail with an OSError, and creating the remote handler, which may
-- fail with a RuntimeError; both are only warned about.
abbrev pub add_file : Bool → Option String → ℕ → Root → Root
add_file opens none level r = r
add_file opens (some path) level r =
    if path == "" then r else if opens then add_handler (file path) level r else r

abbrev pub add_remote : Bool → Bool → ℕ → Root → Root
add_remote connects wanted level r =
    if wanted then (if connects then add_handler remote level r else r) else r

abbrev pub quiet_asyncio : ℕ → Root → Root
quiet_asyncio level r = if ltb level 20 then record r { asyncio_level = some 20 } else r

unfoldable pub reconfigure_logging :
    Bool → Bool → Option String → Option String → Bool → Option String → Root → Root
reconfigure_logging opens connects path level wanted configured r =
    let n = level_int level configured in
    quiet_asyncio n
      (record (add_remote connects wanted n
        (add_file opens path n (add_handler stream n (remove_handlers r)))) { level = n })

-- `RemoteHandler`: what was logged waits for `drain`, which sends it.
pub record LogRecord : Type 0 where
  pub name : String
  pub level : ℕ
  pub message : String
  pub created : ℕ

unfoldable pub emit : LogRecord → List LogRecord → List LogRecord
emit r tasks = tasks ++ (r ∷ [])

-- `drain`, where `log` is the client's command: with an exception nothing is forgotten.
abbrev pub after_drain : List LogRecord → Outcome (Unit {0}) → Outcome (Unit {0}) × List LogRecord
after_drain tasks (returned _) = (returned tt, [])
after_drain tasks (raised e) = (raised e, tasks)

unfoldable pub drain :
    (List LogRecord → Outcome (Unit {0})) → List LogRecord → Outcome (Unit {0}) × List LogRecord
drain log tasks = after_drain tasks (log tasks)

-- `Daemon.log_level`: any other name is whatever attribute of the module `logging` it names.
abbrev pub level_or : Result ℕ → Option ℕ → Result ℕ
level_or attribute none = attribute
level_or attribute (some n) = ok n

unfoldable pub log_level : (Text → Result ℕ) → Config → Result ℕ
log_level attribute c =
    let name = uppercase (or_else (config_level c) "WARNING") in
    level_or (attribute name) (level_number name)

-- `logging.getLevelName` of a level that `valid_level` accepts
unfoldable pub level_name : ℕ → String
level_name level =
    if nat_eq level 10
    then "DEBUG"
    else if nat_eq level 20
    then "INFO"
    else if nat_eq level 30
    then "WARNING"
    else if nat_eq level 40
    then "ERROR"
    else "CRITICAL"

abbrev pub invalid_level : ℕ → Raised
invalid_level level = error invalid_arguments_error (obj (field "level" (num level) end))

-- What `Daemon.set_log_level` changes: the configuration, the root logger, and the levels that the
-- signal `LogLevel` has told of.
pub record Levels : Type 0 where
  pub config : Config
  pub root : Root
  pub signals : List ℕ

abbrev pub config_path : Config → Option String
config_path c = elim (get_item [] section "path" c) [ ok v ↦ some v | raise e ↦ none ]

-- Whether the log file can be opened, the remote handler created, and whether there is `self.iface`.
module _ (opens connects has_iface : Bool) where
  abbrev pub announce : ℕ → Levels → Outcome (Unit {0}) × Levels
  announce level l =
      if has_iface
      then (returned tt, record l { signals = l.signals ++ (level ∷ []) })
      else (raised (exception (other "AttributeError")), l)

  abbrev pub after_write : ℕ → Levels → Result (Unit {0}) × Config → Outcome (Unit {0}) × Levels
  after_write level l (raise e, c) = (raised (exception e), record l { config = c })
  after_write level l (ok _, c) = announce level (record l {
    config = c;
    root = reconfigure_logging opens connects (config_path c) none false (config_level c) l.root;
  })

  abbrev pub after_migration : ℕ → Levels → Result Bool × Config → Outcome (Unit {0}) × Levels
  after_migration level l (raise e, c) = (raised (exception e), record l { config = c })
  after_migration level l (ok moved, c) =
      after_write level l (write_config (set_item section "level" (level_name level) c))

  unfoldable pub set_log_level : ℕ → Levels → Outcome (Unit {0}) × Levels
  set_log_level level l =
      if valid_level level
      then after_migration level l (migrate_key section "level" l.config)
      else (raised (invalid_level level), l)

-- `DaemonInterface.Log`: what goes to the named logger
unfoldable pub log : ℕ → String → ℕ → String → List LogRecord → Outcome (Unit {0}) × List LogRecord
log timestamp name level message logged =
    if valid_level level
    then (
      returned tt,
      logged
          ++ (record { name = name; level = level; message = message; created = timestamp } ∷ []),
    )
    else (raised (invalid_level level), logged)
