-- ===== src/Journal/Units.antt =====
-- `JournalHelper.failed_units` and `JournalHelper.read_journal`, on what journalctl has answered.
pub mod Failures
pub mod Laws
mod Tests
use steamos_log_submitter.Base.{
  String, Bool, true, false, not, ◌&&◌, ◌||◌, List, [], ◌∷◌, ◌++◌, Option, none, some, ◌==◌,
  contains, if◌then◌else◌,
}
use steamos_log_submitter.Base.Dict.{Dict, lookup, insert, remove}

-- One entry of the journal; its fields here are texts, as the source asserts.
abbrev pub Log : Type 0
Log = Dict String

abbrev pub or_else {ℓ} : {A : Type ℓ} → Option A → Option A → Option A
or_else none b = b
or_else (some a) b = some a

-- `not invocation`: missing or empty
abbrev pub nonempty : Option String → Option String
nonempty none = none
nonempty (some s) = if s == "" then none else some s

abbrev pub get_or {ℓ} : {A : Type ℓ} → Option A → A → A
get_or none d = d
get_or (some a) d = a

-- `log.get('USER_INVOCATION_ID')` or `log.get('INVOCATION_ID')`, and the systemd field if that fails
abbrev pub invocation_of : Bool → Log → Option String
invocation_of user log =
    or_else (nonempty (lookup (if user then "USER_INVOCATION_ID" else "INVOCATION_ID") log))
      (lookup "_SYSTEMD_INVOCATION_ID" log)

abbrev pub unit_of_log : Bool → Log → Option String
unit_of_log user log = lookup (if user then "USER_UNIT" else "UNIT") log

abbrev pub failures : List String
failures =
    "resources" ∷ "protocol" ∷ "timeout" ∷ "exit-code" ∷ "signal" ∷ "core-dump" ∷ "watchdog" ∷ []

abbrev pub one_of : List String → Option String → Bool
one_of names none = false
one_of names (some s) = contains names s

-- The condition of the `continue`, negated.
unfoldable pub reports_failure : Log → Bool
reports_failure log =
    one_of failures (lookup "UNIT_RESULT" log) || one_of ("failed" ∷ []) (lookup "JOB_RESULT" log)

-- `this_unit.add(invocation)` on a set
abbrev pub add : String → List String → List String
add x xs = if contains xs x then xs else xs ++ (x ∷ [])

abbrev pub Failed : Type 0
Failed = Dict (List String)

abbrev pub note_failure : Option String → Option String → Failed → Failed
note_failure (some invocation) (some unit) failed =
    insert unit (add invocation (get_or (lookup unit failed) [])) failed
note_failure _ _ failed = failed

unfoldable pub failed_units_loop : Bool → List Log → Failed → Failed
failed_units_loop user [] failed = failed
failed_units_loop user (log ∷ logs) failed = failed_units_loop user logs (
    if reports_failure log
    then note_failure (invocation_of user log) (unit_of_log user log) failed
    else failed)

unfoldable pub failed_units : Bool → List Log → Failed
unfolding failed_units_loop
failed_units user logs = failed_units_loop user logs []

-- `del log['_HOSTNAME']`, `del log['_MACHINE_ID']`
unfoldable pub strip : Log → Log
strip log = remove "_MACHINE_ID" (remove "_HOSTNAME" log)

abbrev pub Results : Type 0
Results = Dict (List Log)

unfoldable pub add_log : List String → String → Log → Results → Results
add_log invocations invocation log results =
    if contains invocations invocation
    then insert invocation (get_or (lookup invocation results) [] ++ (strip log ∷ [])) results
    else results

-- `log.get('_SYSTEMD_INVOCATION_ID', '')` where the other field is missing or empty
abbrev pub invocation_id : Bool → Log → String
invocation_id user log = get_or (invocation_of user log) ""

unfoldable pub read_journal_loop : Bool → List String → List Log → Results → Results
read_journal_loop user invocations [] results = results
read_journal_loop user invocations (log ∷ logs) results =
    read_journal_loop user invocations logs
      (add_log invocations (invocation_id user log) log results)

unfoldable pub read_journal : Bool → List String → List Log → Results
read_journal user invocations logs = read_journal_loop user invocations logs []
