-- ===== src/Runner/Stop.antt =====
-- CLASS_ERROR ends the submission of a category.
use steamos_log_submitter.Base.{
  String, true, false, List, [], ◌∷◌, ◌++◌, ◌≡◌, refl, arith, starts_with, Result, ok, raise,
}
use steamos_log_submitter.Spool.{Spool}
use steamos_log_submitter.Runner.{
  HelperResult, class_error, Progress, submit_log, conclude, settle, submit_logs, submit_category,
}

module _ (submit : String → Spool → Result HelperResult × Spool) (log : String)
    (answers : (t : Spool) → (submit log t).0 ≡ ok class_error)
    (shown : starts_with log "." ≡ false) where
  submit_log_breaks : (p : Progress) → (submit_log submit log p).0 ≡ true
  unfolding submit_log conclude settle
  submit_log_breaks p = rw answers refl

  submit_logs_ends :
      (after : List String) (p : Progress)
      → submit_logs submit (log ∷ after) p ≡ (submit_log submit log p).1
  unfolding submit_logs
  submit_logs_ends after p = ground (arith, submit_log_breaks p)

  submit_logs-stop :
      (before after after' : List String) (p : Progress)
      → submit_logs submit (before ++ (log ∷ after)) p
        ≡ submit_logs submit (before ++ (log ∷ after')) p
  unfolding submit_logs
  submit_logs-stop [] after after' p = rw (submit_logs_ends after p, submit_logs_ends after' p)
  submit_logs-stop (l ∷ before) after after' p = ground (
    arith,
    submit_logs-stop before after after' p,
    submit_logs-stop before after after' (submit_log submit l p).1,
  )

  -- A log whose submission answers CLASS_ERROR ends the run: what follows it in the list makes no
  -- difference to the reports or to the directories. The log's name does not begin with a dot.
  pub submit_category_stops :
      (lock : Result (Unit {0})) (before after after' : List String) (s : Spool)
      → submit_category submit lock (before ++ (log ∷ after)) s
        ≡ submit_category submit lock (before ++ (log ∷ after')) s
  unfolding submit_category
  submit_category_stops (raise e) before after after' s = refl
  submit_category_stops (ok _) before after after' s = submit_logs-stop before after after' _
