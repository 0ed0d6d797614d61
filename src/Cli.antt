-- ===== src/Cli.antt =====
-- steamos_log_submitter/cli.py: what the commands of the command line do with a client, and what they
-- print. argparse reads the arguments.
pub mod Enabling
mod Tests
use steamos_log_submitter.Base.{
  ℕ, String, ◌<>◌, Bool, true, false, ◌&&◌, ◌||◌, List, [], ◌∷◌, ◌++◌, map, Option, none, some,
  Text, codes, nat_eq, if◌then◌else◌, Result,
}
use steamos_log_submitter.Base.Json.{Json}
use steamos_log_submitter.Exceptions.{
  Raised, error, helper_error, dbus_error, exception, Outcome, returned, raised, ◌>>=◌,
}
use steamos_log_submitter.Util.Release.{split_at}
use steamos_log_submitter.Client.{Bus, enable_helpers}
use steamos_log_submitter.Client.Sets.{validated, sorted}
use steamos_log_submitter.Logging.{level_number, uppercase}

-- A line to the standard output or to the standard error stream.
pub data Output : Type 0 where
  out : Text → Output
  err : Text → Output

abbrev pub Printed : Type 0
Printed = List Output

-- `async with ClientWrapper() as client`: with no client the command returns at once; what the body
-- raises goes on.
abbrev pub command {ℓ} : {A : Type ℓ} → Bool → A → A → A
command connected nothing body = if connected then body else nothing

abbrev pub joined : List Text → Text
joined [] = []
joined (t ∷ []) = t
joined (t ∷ u ∷ ts) = t ++ (codes ", " ++ joined (u ∷ ts))

-- `if invalid_helpers: print(...)`
abbrev pub complain : List Text → Printed
complain [] = []
complain (name ∷ names) = err (codes "Invalid helpers: " ++ joined (name ∷ names)) ∷ []

-- `set_helper_enabled`: what is printed, how it ends and the calls that are made. `all` is what
-- `list_helpers` gives.
unfoldable pub set_helper_enabled :
    (String → Result Json)
    → Bus
    → (Text → String)
    → List Text
    → List Text
    → Bool
    → Printed × (Outcome (Unit {0}) × List (Text × Bool))
set_helper_enabled loads bus show all helpers enable =
    let (valid, invalid) = validated all helpers in
    (complain invalid, enable_helpers loads bus show enable valid)

abbrev pub on_off : Bool → Text
on_off true = codes "enabled"
on_off false = codes "disabled"

unfoldable pub status_lines : List (Text × Bool) → Printed
status_lines [] = []
status_lines ((helper, enabled) ∷ helpers) =
    out (codes "Helper " ++ (helper ++ (codes " is currently " ++ on_off enabled)))
    ∷ status_lines helpers

-- What a client answers, for the commands that print it.
pub record Answers : Type 0 where
  pub status : Outcome Bool
  pub helper_status : Option (List Text) → Outcome (List (Text × Bool))
  pub validate_helpers : List Text → Outcome (List Text × List Text)
  pub helpers : Outcome (List Text)
  pub list_type : Text → Option (List Text) → Outcome (List Text)
  pub extract : Text → Text → Text → Outcome (Option Text)
  pub log_level : Outcome ℕ
  pub set_log_level : ℕ → Outcome (Unit {0})
  pub version : Outcome Text

module _ (client : Answers) where
  -- The helpers that were named, and the names that are none.
  abbrev pub chosen {ℓ} :
      {A : Type ℓ} → A → (List Text → Outcome A) → List Text × List Text → Outcome (A × Printed)
  chosen nothing ask ([], invalid) = returned (nothing, complain invalid)
  chosen nothing ask (name ∷ names, invalid) =
      ask (name ∷ names) >>= λ a. returned (a, complain invalid)

  abbrev pub status_of : Bool → List Text → Outcome (List (Text × Bool) × Printed)
  status_of true names = client.helper_status none >>= λ s. returned (s, [])
  status_of false [] = returned ([], [])
  status_of false (name ∷ names) =
      client.validate_helpers (name ∷ names)
      >>= chosen [] (λ valid. client.helper_status (some valid))

  unfoldable pub do_status : Bool → List Text → Outcome Printed
  do_status all helper = client.status >>= λ enabled. status_of all helper >>= λ found. returned (
      found.1
      ++ (out (codes "Log submission is currently " ++ on_off enabled) ∷ status_lines found.0))

  unfoldable pub do_list : Outcome Printed
  do_list = client.helpers >>= λ names. returned (map out (sorted names))

  abbrev pub logs_of : Text → List Text → Outcome (List Text × Printed)
  logs_of type [] = client.list_type type none >>= λ logs. returned (logs, [])
  logs_of type (name ∷ names) =
      client.validate_helpers (name ∷ names)
      >>= chosen [] (λ valid. client.list_type type (some valid))

  unfoldable pub do_list_logs : Text → List Text → Outcome Printed
  do_list_logs type helper = logs_of type helper >>= λ found. returned (found.1 ++ map out found.0)

  -- `do_extract`: what is printed, and what is written to the output. Only a `DBusError` is caught.
  abbrev pub log_type : Bool → Bool → Bool → Text
  log_type pending failed uploaded =
      if pending
      then codes "pending"
      else if failed
      then codes "failed"
      else if uploaded
      then codes "uploaded"
      else []

  abbrev pub extracted : (String → Text) → Outcome (Option Text) → Outcome (Printed × Text)
  extracted text_of (returned none) = returned ([], [])
  extracted text_of (returned (some content)) = returned ([], content)
  extracted text_of (raised (dbus_error type text)) = returned (err (text_of text) ∷ [], [])
  extracted text_of (raised (helper_error c text)) = returned (err (text_of text) ∷ [], [])
  extracted text_of (raised (error c j)) = raised (error c j)
  extracted text_of (raised (exception e)) = raised (exception e)

  unfoldable pub do_extract : (String → Text) → Bool → Bool → Bool → Text → Outcome (Printed × Text)
  do_extract text_of pending failed uploaded log = elim (split_at b'/' log) [
    | none ↦ returned (err (codes "extract requires a path of the form [helper]/[log]") ∷ [], [])
    | some (helper, name) ↦
        extracted text_of (client.extract helper name (log_type pending failed uploaded))
  ]

  abbrev pub change_level : Option ℕ → Outcome Printed
  change_level none = returned (err (codes "Please specify a valid log level") ∷ [])
  change_level (some level) = client.set_log_level level >>= λ _. returned []

  -- `level_name` is `logging.getLevelName`.
  unfoldable pub do_log_level : (ℕ → Text) → Option String → Outcome Printed
  do_log_level level_name none = client.log_level >>= λ n. returned (out (level_name n) ∷ [])
  do_log_level level_name (some level) = change_level (level_number (uppercase level))

  abbrev pub daemon_version : Outcome Text → Printed
  daemon_version (returned version) = out (codes "Daemon " ++ version) ∷ []
  daemon_version (raised e) = out (codes "Could not query daemon") ∷ []

  -- `do_version`, which prints something whether or not there is a daemon
  unfoldable pub do_version : Bool → Text → Printed
  do_version connected version =
      out (codes "Client " ++ version)
      ∷ (if connected
          then daemon_version client.version
          else out (codes "Could not query daemon") ∷ [])
