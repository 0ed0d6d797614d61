-- ===== src/Helper/Setup.antt =====
-- helpers/__init__.py: results as codes and as D-Bus errors, `create_helper`, `validate_helpers`.
use steamos_log_submitter.Base.{
  ℕ, zero, suc, ◌/◌, String, ◌<>◌, Bool, true, false, List, [], ◌∷◌, map, Option, none, some,
  Result, ok, raise, value_error, other, contains, if◌then◌else◌,
}
use steamos_log_submitter.Runner.{
  HelperResult, success, transient_error, permanent_error, class_error,
}
use steamos_log_submitter.Helper.Collect.{Stamp, millis, unreadable}

-- `HelperResult(-code)`
unfoldable pub from_code : ℕ → Result HelperResult
from_code zero = ok success
from_code (suc zero) = ok transient_error
from_code (suc (suc zero)) = ok permanent_error
from_code (suc (suc (suc zero))) = ok class_error
from_code (suc (suc (suc (suc n)))) = raise value_error

-- `HelperResult.check`, with the negated codes; the defaults are 0 and 1.
unfoldable pub check : Bool → ℕ → ℕ → Result HelperResult
check true true_code false_code = from_code true_code
check false true_code false_code = from_code false_code

unfoldable pub raise_dbus_error : HelperResult → Result (Unit {0})
raise_dbus_error success = ok tt
raise_dbus_error transient_error = raise (other "TransientError")
raise_dbus_error permanent_error = raise (other "PermanentError")
raise_dbus_error class_error = raise (other "ClassError")

-- What importing the module of a category gives: no module, one without a helper, or one with a
-- helper that is set up or not.
pub data Module : Type 0 where
  missing : Module
  without_helper : Module
  with_helper : Bool → Module

abbrev pub after_setup : Result Bool → Result Bool × Module
after_setup (raise e) = (raise e, with_helper false)
after_setup (ok b) = (ok true, with_helper b)

-- `create_helper`: whether there is a helper, and the module afterwards. `setup` is `_setup`.
unfoldable pub create_helper : Result Bool → Module → Result Bool × Module
create_helper setup missing = (ok false, missing)
create_helper setup without_helper = (ok false, without_helper)
create_helper setup (with_helper true) = (ok true, with_helper true)
create_helper setup (with_helper false) = after_setup setup

abbrev pub as_set : List String → List String
as_set [] = []
as_set (x ∷ xs) = let rest = as_set xs in if contains rest x then rest else x ∷ rest

abbrev pub intersection : List String → List String → List String
intersection [] ys = []
intersection (x ∷ xs) ys = let rest = intersection xs ys in if contains ys x then x ∷ rest else rest

abbrev pub difference : List String → List String → List String
difference [] ys = []
difference (x ∷ xs) ys = let rest = difference xs ys in if contains ys x then rest else x ∷ rest

-- `sorted` is that of Python.
unfoldable pub validate_helpers :
    (List String → List String) → List String → List String → List String × List String
validate_helpers sorted all_helpers helpers = (
  sorted (intersection (as_set helpers) all_helpers),
  sorted (difference (as_set helpers) all_helpers),
)

-- `HelperInterface.LastCollected`, on the entry `newest`
unfoldable pub last_collected : Option Stamp → Result ℕ
last_collected none = ok 0
last_collected (some (millis t)) = ok (t / 1000)
last_collected (some unreadable) = raise value_error

-- `HelperInterface.NewLogs`: what the helper's signal carries, and what the daemon's does, if there
-- is one.
abbrev pub pending_of : List String → List String → List String
pending_of pending [] = []
pending_of pending (log ∷ logs) =
    let rest = pending_of pending logs in if contains pending log then log ∷ rest else rest

unfoldable pub signal_new_logs :
    String → Bool → List String → List String → List String × Option (List String)
signal_new_logs name has_daemon pending logs =
    let logs_there = pending_of pending logs in
    (logs_there, if has_daemon then some (map (λ log. (name <> "/") <> log) logs_there) else none)
