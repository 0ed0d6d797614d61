-- ===== src/Journal/Collect/Tests.antt =====
-- Collections at concrete journals.
use steamos_log_submitter.Base.{
  String, Bool, true, false, List, [], ◌∷◌, none, some, Result, ok, Text, ◌≡◌, refl, contains,
  if◌then◌else◌,
}
use steamos_log_submitter.Base.Dict.{lookup, insert, remove}
use steamos_log_submitter.Util.Read.{command, keeps, read_lines}
use steamos_log_submitter.Util.Read
use steamos_log_submitter.Journal.Escape.{escape}
use steamos_log_submitter.Journal.FileNames.{unit_name}
use steamos_log_submitter.Journal.Units.{
  Log, reports_failure, failed_units, failed_units_loop, add_log, strip, read_journal,
  read_journal_loop,
}
use steamos_log_submitter.Journal.Collect.{
  entries, Journals, cursor_at, failed_query, set_cursor, write_invocation, write_all, find_failed,
  read_unit, keep_results, collect_unit, collect_units, collect_inner,
}
use steamos_log_submitter.Journal.Collect.Lost.{Lost, collect_unit_loses}
use steamos_log_submitter.Journal.Collect.Forgotten.{collect_inner_forgets}

-- `init.scope` tells of the failure, the unit of what it said.
abbrev failure : Log
failure =
    ("_SYSTEMD_UNIT", "init.scope")
    ∷ ("UNIT_RESULT", "exit-code")
    ∷ ("UNIT", "rauc")
    ∷ ("INVOCATION_ID", "a1")
    ∷ ("__CURSOR", "7")
    ∷ []

abbrev line : Log
line =
    ("_SYSTEMD_UNIT", "rauc")
    ∷ ("MESSAGE", "no slot")
    ∷ ("INVOCATION_ID", "a1")
    ∷ ("__CURSOR", "8")
    ∷ []

abbrev journalctl : List String → Result (List Log)
journalctl args = if contains args "rauc" then ok (line ∷ []) else ok (failure ∷ [])

abbrev name_of : Text → String
name_of codes = "rauc"

abbrev journals : Bool → Journals
journals may_write = record {
  files = ("rauc a1.json", entries (failure ∷ [])) ∷ [];
  readable = λ name. true;
  writable = λ name. may_write;
  cursors = ("system_cursor", some "5") ∷ ("rauc.cursor", some "6") ∷ [];
}

collect_inner_run :
    collect_inner name_of journalctl false ("rauc" ∷ "vpower" ∷ []) (journals true) ≡ (
      ok tt,
      record (journals true) {
        files = ("rauc a1.json", entries (failure ∷ line ∷ [])) ∷ [];
        cursors = ("system_cursor", some "7") ∷ ("rauc.cursor", some "8") ∷ [];
      },
    )
unfolding collect_inner find_failed failed_query Read.read_journal command read_lines keeps
    failed_units failed_units_loop reports_failure lookup insert collect_units collect_unit
    read_unit read_journal read_journal_loop add_log strip remove keep_results write_all
    write_invocation unit_name escape
collect_inner_run = refl

-- Behind the cursor 8 there is nothing.
abbrev journalctl_once : List String → Result (List Log)
journalctl_once args = if contains args "8" then ok [] else journalctl args

collect_unit_loses_example :
    Lost name_of journalctl_once false "rauc"
      ("a1" ∷ [])
      (journals false)
      (collect_unit name_of journalctl_once false "rauc" ("a1" ∷ []) (journals false))
unfolding Read.read_journal command read_lines keeps lookup insert read_unit read_journal
    read_journal_loop add_log strip remove unit_name escape
collect_unit_loses_example =
    collect_unit_loses name_of journalctl_once false "rauc" ("a1" ∷ []) (journals false)
      ("a1", line ∷ []) [] "8" (λ n. refl) refl refl

collect_inner_forgets_run :
    (collect_inner name_of (λ args. ok []) true [] (journals true)
      ≡ (ok tt, set_cursor "user_cursor" none (journals true)))
    × (cursor_at "user_cursor"
          (collect_inner name_of (λ args. ok []) true [] (journals true)).1.cursors
        ≡ none)
collect_inner_forgets_run =
    collect_inner_forgets name_of (λ args. ok []) true [] (journals true) refl
