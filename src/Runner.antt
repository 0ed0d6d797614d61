-- ===== src/Runner.antt =====
-- steamos_log_submitter/runner.py: one helper's submission, and the phases over all helpers.
pub mod Tests
pub mod Kept
pub mod Report
pub mod Agreement
pub mod Stop
pub mod Phases
use steamos_log_submitter.Base.{
  String, Bool, true, false, List, [], ◌∷◌, Result, ok, raise, starts_with,
}
use steamos_log_submitter.Base.Dict.{Dict, insert}
use steamos_log_submitter.Spool.{Spool, pending, uploaded, failed, replace}

-- helpers/__init__.py
pub data HelperResult : Type 0 where
  success transient_error permanent_error class_error : HelperResult

abbrev pub Submitted : Type 0
Submitted = Dict (Result HelperResult)

pub record Progress : Type 0 where
  pub submitted : Submitted
  pub spool : Spool

-- After `os.replace` the loop goes on, unless that raised.
abbrev pub proceed : Result (Unit {0}) × Spool → Result Bool × Spool
proceed (ok _, s) = (ok false, s)
proceed (raise e, s) = (raise e, s)

-- What follows a result: the moves, and whether the loop breaks.
unfoldable pub settle : HelperResult → String → Spool → Result Bool × Spool
settle success log s = proceed (replace pending uploaded log s)
settle transient_error log s = (ok false, s)
settle permanent_error log s = proceed (replace pending failed log s)
settle class_error log s = (ok true, s)

-- The `except` clause around all this.
abbrev pub caught : String → Submitted → Result Bool × Spool → Bool × Progress
caught log submitted (ok stop, s) = (stop, record { submitted = submitted; spool = s })
caught log submitted (raise e, s) =
    (false, record { submitted = insert log (raise e) submitted; spool = s })

-- What the `try` block of one log does with the outcome of `helper.submit`; true is a `break`.
unfoldable pub conclude : String → Submitted → Result HelperResult → Spool → Bool × Progress
conclude log submitted (raise e) s = caught log submitted (raise e, s)
conclude log submitted (ok result) s =
    caught log (insert log (ok result) submitted) (settle result log s)

-- `helper.submit(...)` of the log with this name, which may read and change the directories.
module _ (submit : String → Spool → Result HelperResult × Spool) where
  unfoldable pub submit_log : String → Progress → Bool × Progress
  submit_log log p = let (r, s) = submit log p.spool in conclude log p.submitted r s

  -- The `for` loop.
  unfoldable pub submit_logs : List String → Progress → Progress
  submit_logs [] p = p
  submit_logs (log ∷ logs) p = elim (starts_with log ".") [
    | true ↦ submit_logs logs p
    | false ↦
        let (stop, p') = submit_log log p in elim stop [ true ↦ p' | false ↦ submit_logs logs p' ]
  ]

  -- `lock` is what `with helper.lock()` gets: an exception, or the lock.
  unfoldable pub submit_category : Result (Unit {0}) → List String → Spool → Progress
  submit_category (ok _) logs s = submit_logs logs (record { submitted = []; spool = s })
  submit_category (raise e) logs s = record { submitted = []; spool = s }
