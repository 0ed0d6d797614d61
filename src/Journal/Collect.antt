-- ===== src/Journal/Collect.antt =====
-- `JournalHelper.collect_inner`: the reports of failed units, over what journalctl prints.
pub mod Lost
pub mod Forgotten
mod Tests
use steamos_log_submitter.Base.{
  String, ◌<>◌, Bool, true, false, not, List, [], ◌∷◌, ◌++◌, Option, none, some, Result, ok, raise,
  ◌>>=◌, Text, codes, contains, if◌then◌else◌,
}
use steamos_log_submitter.Base.Dict.{Dict, lookup, insert}
use steamos_log_submitter.Util.Read.{Query}
use steamos_log_submitter.Util.Read
use steamos_log_submitter.Journal.Units.{Log, Failed, Results, failed_units, read_journal}
use steamos_log_submitter.Journal.FileNames.{unit_name}

-- What a pending file holds: entries, or something that is no JSON.
pub data Content : Type 0 where
  entries : List Log → Content
  garbage : Content

-- The pending files by name, which of them can be opened for reading and for writing, and the
-- cursors in `cls.data`, where None is a value too.
pub record Journals : Type 0 where
  pub files : Dict Content
  pub readable : String → Bool
  pub writable : String → Bool
  pub cursors : Dict (Option String)

-- `cls.data.get(name)`
abbrev pub cursor_of : Option (Option String) → Option String
cursor_of none = none
cursor_of (some c) = c

abbrev pub cursor_at : String → Dict (Option String) → Option String
cursor_at name cursors = cursor_of (lookup name cursors)

abbrev pub entries_of : Option Content → List Log
entries_of none = []
entries_of (some garbage) = []
entries_of (some (entries logs)) = logs

-- A file that is not there is no error, one that cannot be opened is.
abbrev pub old_journal : String → Journals → Option (List Log)
old_journal name j = elim (lookup name j.files) [
  | none ↦ some []
  | some content ↦ if j.readable name then some (entries_of (some content)) else none
]

abbrev pub dump : String → List Log → Journals → Journals
dump name [] j = j
dump name (log ∷ logs) j =
    if j.writable name then record j { files = insert name (entries (log ∷ logs)) j.files } else j

-- One invocation: the new entries go behind those of the file.
unfoldable pub write_invocation : String → List Log → Journals → Journals
write_invocation name new_logs j = elim (old_journal name j) [
  | none ↦ j
  | some old ↦ dump name (old ++ new_logs) j
]

abbrev pub log_name : String → String → String
log_name unit invocation = ((unit <> " ") <> invocation) <> ".json"

unfoldable pub write_all : String → Results → Journals → Journals
write_all unit [] j = j
write_all unit ((invocation, new_logs) ∷ results) j =
    write_all unit results (write_invocation (log_name unit invocation) new_logs j)

abbrev pub or_none : Option (List Log) → List Log
or_none none = []
or_none (some logs) = logs

-- The query of `failed_units`; the first run looks back 30 days.
unfoldable pub failed_query : Bool → Option String → Query
failed_query user cursor = record {
  unit = if user then "user@1000.service" else "init.scope";
  cursor = cursor;
  current_boot = false;
  start_ago_ms = elim cursor [ none ↦ some "2592000000" | some c ↦ none ];
  uid = none;
  allow_system = true;
  allow_user = false;
}

-- The query of `read_journal`.
abbrev pub unit_query : Bool → String → Option String → Query
unit_query user unit cursor = record {
  unit = unit;
  cursor = cursor;
  current_boot = false;
  start_ago_ms = none;
  uid = none;
  allow_system = not user;
  allow_user = user;
}

abbrev pub cursor_name : Bool → String
cursor_name user = if user then "user_cursor" else "system_cursor"

abbrev pub set_cursor : String → Option String → Journals → Journals
set_cursor name cursor j = record j { cursors = insert name cursor j.cursors }

-- `of_codes` is the string of code points, `journalctl` what the command prints.
module _ (of_codes : Text → String) (journalctl : List String → Result (List Log)) where
  unfoldable pub find_failed : Bool → Option String → Result (Failed × Option String)
  unfolding failed_units Read.read_journal
  find_failed user cursor =
      Read.read_journal journalctl (failed_query user cursor)
      >>= (λ r. ok (failed_units user (or_none r.0), r.1))

  unfoldable pub read_unit :
      Bool → String → List String → Option String → Result (Results × Option String)
  unfolding read_journal Read.read_journal
  read_unit user unit invocations cursor =
      Read.read_journal journalctl (unit_query user unit cursor)
      >>= (λ r. ok (read_journal user invocations (or_none r.0), r.1))

  abbrev pub file_unit : Bool → String → String
  file_unit user unit = of_codes (unit_name user (codes unit))

  -- After the journal of a unit is read; nothing read is an error that leaves its cursor.
  unfoldable pub keep_results : String → Results → Option String → Journals → Journals
  keep_results unit [] cursor j = j
  keep_results unit (x ∷ results) cursor j =
      set_cursor (unit <> ".cursor") cursor (write_all unit (x ∷ results) j)

  abbrev pub kept_of :
      String → Journals → Result (Results × Option String) → Result (Unit {0}) × Journals
  kept_of unit j (raise e) = (raise e, j)
  kept_of unit j (ok (results, cursor)) = (ok tt, keep_results unit results cursor j)

  unfoldable pub collect_unit :
      Bool → String → List String → Journals → Result (Unit {0}) × Journals
  unfolding keep_results
  collect_unit user unit invocations j =
      let name = file_unit user unit in
      kept_of name j (read_unit user unit invocations (cursor_at (name <> ".cursor") j.cursors))

  abbrev pub then_units :
      (Journals → Result (Unit {0}) × Journals)
      → Result (Unit {0}) × Journals
      → Result (Unit {0}) × Journals
  then_units next (raise e, j) = (raise e, j)
  then_units next (ok _, j) = next j

  -- The loop over the units.
  unfoldable pub collect_units :
      Bool → List String → Failed → Journals → Result (Unit {0}) × Journals
  collect_units user [] failed j = (ok tt, j)
  collect_units user (unit ∷ units) failed j = elim (lookup unit failed) [
    | none ↦ collect_units user units failed j
    | some invocations ↦
        then_units (collect_units user units failed) (collect_unit user unit invocations j)
  ]

  abbrev pub collect_failed :
      Bool → List String → Journals → Result (Failed × Option String) → Result (Unit {0}) × Journals
  collect_failed user units j (raise e) = (raise e, j)
  collect_failed user units j (ok (failed, cursor)) =
      collect_units user units failed (set_cursor (cursor_name user) cursor j)

  -- `units` are the ones of the system or of the user.
  unfoldable pub collect_inner : Bool → List String → Journals → Result (Unit {0}) × Journals
  unfolding find_failed collect_units
  collect_inner user units j =
      collect_failed user units j (find_failed user (cursor_at (cursor_name user) j.cursors))
