-- ===== src/Daemon/Schedule.antt =====
-- steamos_log_submitter/daemon.py: when a trigger is due. Times are whole seconds; how a time is
-- written in the configuration, and read, are parameters.
pub mod Restart
use steamos_log_submitter.Base.{
  ℕ, ◌+◌, ◌-◌, ◌≤◌, String, Bool, true, false, List, [], ◌∷◌, Option, none, some, leb, ltb,
  if◌then◌else◌, Result, ok, raise, value_error,
}
use steamos_log_submitter.Config.{Parser, Config, get_item, set_item, write_config, upgrade}

abbrev pub startup : ℕ
startup = 20

abbrev pub interval : ℕ
interval = 3600

abbrev pub applist_update_interval : ℕ
applist_update_interval = 86400

-- the section of `get_config('steamos_log_submitter.daemon')`
abbrev pub section : String
section = "daemon"

-- `config.get(name)`
abbrev pub entry : Result String → Option String
entry (ok v) = some v
entry (raise e) = none

abbrev pub config_get : String → Config → Option String
config_get name c = entry (get_item [] section name c)

-- What `float` does to an entry.
abbrev pub float_of : (String → Option ℕ) → String → Result ℕ
float_of parse text = elim (parse text) [ none ↦ raise value_error | some n ↦ ok n ]

-- `start`, where it sets `_next_trigger`
abbrev pub later_of : ℕ → Result ℕ → Result ℕ
later_of next (raise e) = raise e
later_of next (ok last) = ok (if ltb next (last + interval) then last + interval else next)

unfoldable pub next_trigger : (String → Option ℕ) → ℕ → Option String → Result ℕ
next_trigger parse now none = ok (now + startup)
next_trigger parse now (some last_trigger) = later_of (now + startup) (float_of parse last_trigger)

-- `start` from its test to there: the migration of the configuration, `_serving`, and the time.
pub record Started : Type 0 where
  pub config : Config
  pub serving : Bool
  pub next : Result ℕ

abbrev pub after_upgrade : (String → Option ℕ) → ℕ → Result (Unit {0}) × Config → Started
after_upgrade parse now (raise e, c) = record { config = c; serving = false; next = raise e }
after_upgrade parse now (ok _, c) = record {
  config = c;
  serving = true;
  next = next_trigger parse now (config_get "last_trigger" c);
}

unfoldable pub start_timer :
    (String → Option ℕ) → List String → Option Parser → ℕ → Config → Started
start_timer parse helpers base now c = after_upgrade parse now (upgrade helpers base c)

-- `_trigger` after the run: the time is stored and the next trigger set.
abbrev pub set_next : ℕ → Result (Unit {0}) × Config → Result ℕ × Config
set_next last_trigger (raise e, c) = (raise e, c)
set_next last_trigger (ok _, c) = (ok (last_trigger + interval), c)

unfoldable pub store_trigger : (ℕ → String) → ℕ → Config → Result ℕ × Config
store_trigger show last_trigger c =
    set_next last_trigger (write_config (set_item section "last_trigger" (show last_trigger) c))

-- `_trigger_periodic`: how long it sleeps, and what it does after that, at the time `woken`. What
-- `update_app_list` returns is not looked at; what it raises ends the task.
unfoldable pub sleep_time : ℕ → ℕ → ℕ
sleep_time next now = next - now

abbrev pub last_update : (String → Option ℕ) → Option String → ℕ
last_update parse none = 0
last_update parse (some text) = elim (parse text) [ none ↦ 0 | some n ↦ n ]

abbrev pub update_due : (String → Option ℕ) → ℕ → Option String → Bool
update_due parse woken stored = leb (last_update parse stored + applist_update_interval) woken

-- The app list is asked for or not, and `trigger` is called or not.
pub record Woken : Type 0 where
  pub config : Config
  pub updated : Bool
  pub triggers : Result Bool

abbrev pub after_update : Bool → Result (Unit {0}) × Config → Woken
after_update serving (raise e, c) = record { config = c; updated = true; triggers = raise e }
after_update serving (ok _, c) = record { config = c; updated = true; triggers = ok serving }

unfoldable pub trigger_periodic :
    (ℕ → String) → (String → Option ℕ) → Result Bool → ℕ → ℕ → Bool → Config → Woken
trigger_periodic show parse update_app_list woken updated_at serving c =
    if update_due parse woken (config_get "last_applist_update" c)
    then elim update_app_list [
      | raise e ↦ record { config = c; updated = true; triggers = raise e }
      | ok done ↦
          after_update serving
            (write_config (set_item section "last_applist_update" (show updated_at) c))
    ]
    else record { config = c; updated = false; triggers = ok serving }
