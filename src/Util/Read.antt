-- ===== src/Util/Read.antt =====
-- util.py, `read_journal`: what is kept of the answer of journalctl.
use steamos_log_submitter.Base.{
  String, ◌<>◌, Bool, false, ◌&&◌, ◌||◌, not, List, [], ◌∷◌, ◌++◌, Option, none, some, Result, ok,
  raise, key_error, ◌==◌, if◌then◌else◌,
}
use steamos_log_submitter.Base.Dict.{lookup}
use steamos_log_submitter.Journal.Units.{Log}

-- The arguments of `read_journal`, with numbers as `str` writes them.
pub record Query : Type 0 where
  pub unit : String
  pub cursor : Option String
  pub current_boot : Bool
  pub start_ago_ms : Option String
  pub uid : Option String
  pub allow_system : Bool
  pub allow_user : Bool

abbrev pub option_args : String → Option String → List String
option_args flag none = []
option_args flag (some value) = flag ∷ value ∷ []

abbrev pub source_args : Query → List String
source_args q =
    if q.unit == "kernel"
    then "-k" ∷ []
    else if q.allow_system && not q.allow_user
    then "-u" ∷ q.unit ∷ []
    else []

abbrev pub since : Option String → Option String
since none = none
since (some ago) = some (("-" <> ago) <> "ms")

unfoldable pub command : Query → List String
command q =
    ("journalctl" ∷ "-o" ∷ "json" ∷ [])
    ++ (source_args q
        ++ (option_args "--after-cursor" q.cursor
            ++ ((if q.current_boot then "-b" ∷ "0" ∷ [] else [])
                ++ option_args "-S" (since q.start_ago_ms))))

abbrev pub is_field : String → Option String → Bool
is_field unit none = false
is_field unit (some value) = value == unit

abbrev pub is_foreign : Option String → Option String → Bool
is_foreign none value = false
is_foreign (some uid) value = not (is_field uid value)

-- Whether the loop appends an entry.
unfoldable pub keeps : Query → Log → Bool
keeps q log =
    if is_foreign q.uid (lookup "_UID" log)
    then false
    else (q.allow_system && is_field q.unit (lookup "_SYSTEMD_UNIT" log))
      || (q.allow_user && is_field q.unit (lookup "_SYSTEMD_USER_UNIT" log))

-- The loop; an entry without `__CURSOR` is a KeyError.
unfoldable pub read_lines :
    Query → List Log → List Log → Option String → Result (List Log × Option String)
read_lines q [] logs cursor = ok (logs, cursor)
read_lines q (log ∷ rest) logs cursor = elim (lookup "__CURSOR" log) [
  | none ↦ raise key_error
  | some c ↦ read_lines q rest (if keeps q log then logs ++ (log ∷ []) else logs) (some c)
]

-- What journalctl prints for a command, or an OSError.
module _ (journalctl : List String → Result (List Log)) where
  unfoldable pub read_journal : Query → Result (Option (List Log) × Option String)
  unfolding command read_lines
  read_journal q = elim (journalctl (command q)) [
    | raise e ↦ ok (none, none)
    | ok lines ↦ elim (read_lines q lines [] none) [
      | raise e ↦ raise e
      | ok (logs, cursor) ↦ ok (some logs, cursor)
    ]
  ]
