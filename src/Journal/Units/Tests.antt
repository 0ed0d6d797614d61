-- ===== src/Journal/Units/Tests.antt =====
-- The journal theorems at concrete entries.
use steamos_log_submitter.Base.{List, [], ◌∷◌, ◌≡◌, refl, true, false, not, ◌||◌, All, contains}
use steamos_log_submitter.Base.Dict.{has}
use steamos_log_submitter.Journal.Units.{Log, failed_units, read_journal}
use steamos_log_submitter.Journal.Units.Failures.{recorded, any_failure, recorded-failed_units}
use steamos_log_submitter.Journal.Units.Laws.{
  grouped, entries_of, grouped-read_journal, IsAnonymous, read_journal-IsAnonymous,
}

abbrev logs : List Log
logs =
    (("UNIT", "rauc.service") ∷ ("UNIT_RESULT", "timeout") ∷ ("INVOCATION_ID", "1f") ∷ [])
    ∷ (("UNIT", "rauc.service") ∷ ("JOB_RESULT", "done") ∷ ("INVOCATION_ID", "2f") ∷ [])
    ∷ (("_HOSTNAME", "deck") ∷ ("_SYSTEMD_INVOCATION_ID", "1f") ∷ [])
    ∷ []

recorded-failed_units_example :
    recorded "rauc.service" "1f" (failed_units false logs)
    ≡ any_failure false "rauc.service" "1f" logs
recorded-failed_units_example = recorded-failed_units false logs "rauc.service" "1f"

grouped-read_journal_run :
    grouped "1f" (read_journal false ("1f" ∷ []) logs) ≡ entries_of false "1f" logs
grouped-read_journal_run = grouped-read_journal false ("1f" ∷ []) logs "1f" refl

read_journal-IsAnonymous_example :
    All IsAnonymous (grouped "1f" (read_journal false ("1f" ∷ []) logs))
    × ((contains ("1f" ∷ []) "1f" || not (has "1f" (read_journal false ("1f" ∷ []) logs))) ≡ true)
read_journal-IsAnonymous_example = read_journal-IsAnonymous false ("1f" ∷ []) logs "1f"
