-- ===== src/Runner/Kept.antt =====
-- The submission loop loses no pending log.
use steamos_log_submitter.Base.{ℕ, String, List, [], ◌∷◌, ◌≡◌, arith, Result, ok, raise}
use steamos_log_submitter.Spool.{Spool}
use steamos_log_submitter.Spool.Moves.{Kept, replace-uploaded-Kept, replace-failed-Kept}
use steamos_log_submitter.Runner.{
  HelperResult, success, permanent_error, Progress, settle, submit_log, conclude, Submitted,
  submit_logs, submit_category,
}

settle-Kept :
    (r : HelperResult) (log name : String) (content : List ℕ) (s : Spool)
    → Kept name content s
    → Kept name content (settle r log s).1
unfolding settle
settle-Kept success log name content s h = ground (arith, replace-uploaded-Kept log name s content)
settle-Kept permanent_error log name content s h =
    ground (arith, replace-failed-Kept log name s content)
settle-Kept _ log name content s h = h

conclude-Kept :
    (r : Result HelperResult) (log name : String) (content : List ℕ) (sent : Submitted) (s : Spool)
    → Kept name content s
    → Kept name content (conclude log sent r s).1.spool
unfolding conclude
conclude-Kept (raise e) log name content sent s h = h
conclude-Kept (ok r) log name content sent s h = ground (arith, settle-Kept r log name content s h)

module _ (submit : String → Spool → Result HelperResult × Spool)
    (quiet : (log : String) (s : Spool) → (submit log s).1 ≡ s) (name : String)
    (content : List ℕ) where
  submit_log-Kept :
      (log : String) (p : Progress)
      → Kept name content p.spool
      → Kept name content (submit_log submit log p).1.spool
  unfolding submit_log
  submit_log-Kept log p h =
      conclude-Kept (submit log p.spool).0 log name content p.submitted (submit log p.spool).1
        (rw (quiet log p.spool) h)

  submit_logs-Kept :
      (logs : List String) (p : Progress)
      → Kept name content p.spool
      → Kept name content (submit_logs submit logs p).spool
  unfolding submit_logs
  submit_logs-Kept [] p h = h
  submit_logs-Kept (log ∷ logs) p h = ground (
    arith,
    submit_logs-Kept logs p h,
    submit_log-Kept log p h,
    submit_logs-Kept logs (submit_log submit log p).1,
  )

  -- Whatever the helper answers and whether or not the lock was free: content that was pending under
  -- a name before the category is submitted lies under that name in `pending`, or has left it for
  -- `uploaded` or `failed`. The helper's `submit` is assumed to leave the directories alone.
  pub submit_category-Kept :
      (lock : Result (Unit {0})) (logs : List String) (s : Spool)
      → Kept name content s
      → Kept name content (submit_category submit lock logs s).spool
  unfolding submit_category
  submit_category-Kept (ok _) logs s h = submit_logs-Kept logs _ h
  submit_category-Kept (raise e) logs s h = h
