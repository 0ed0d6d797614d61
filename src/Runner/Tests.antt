-- ===== src/Runner/Tests.antt =====
-- Runs of the submission, and the theorems at concrete data.
use steamos_log_submitter.Base.{
  String, true, List, [], ◌∷◌, ◌≡◌, refl, Result, ok, raise, other, inl, ◌==◌, if◌then◌else◌,
}
use steamos_log_submitter.Base.Dict.{lookup, insert, remove}
use steamos_log_submitter.Spool.{Spool, replace}
use steamos_log_submitter.Spool.Moves.{Kept}
use steamos_log_submitter.Runner.{
  HelperResult, success, permanent_error, class_error, conclude, settle, submit_category,
  submit_logs, submit_log,
}
use steamos_log_submitter.Runner.Kept.{submit_category-Kept}
use steamos_log_submitter.Runner.Stop.{submit_category_stops}

abbrev pub spool : Spool
spool = record {
  pending_files = ("a", 1 ∷ []) ∷ ("b", 2 ∷ []) ∷ ("c", 3 ∷ []) ∷ ("d", 4 ∷ []) ∷ [];
  uploaded_files = [];
  failed_files = [];
  writable = λ area. true;
}

abbrev answer : String → Result HelperResult
answer log =
    if log == "a"
    then ok success
    else if log == "b"
    then ok permanent_error
    else if log == "c"
    then ok class_error
    else raise (other "RuntimeError")

abbrev send : String → Spool → Result HelperResult × Spool
send log s = (answer log, s)

abbrev logs : List String
logs = ".lock" ∷ "a" ∷ "b" ∷ "c" ∷ "d" ∷ []

submitted_run : submit_category send (ok tt) logs spool ≡ record {
  submitted = ("a", ok success) ∷ ("b", ok permanent_error) ∷ ("c", ok class_error) ∷ [];
  spool = record {
    pending_files = ("c", 3 ∷ []) ∷ ("d", 4 ∷ []) ∷ [];
    uploaded_files = ("a", 1 ∷ []) ∷ [];
    failed_files = ("b", 2 ∷ []) ∷ [];
    writable = λ area. true;
  };
}
unfolding submit_category submit_logs submit_log conclude settle replace lookup insert remove
submitted_run = refl

submit_category-Kept_example : Kept "b" (2 ∷ []) (submit_category send (ok tt) logs spool).spool
unfolding lookup
submit_category-Kept_example =
    submit_category-Kept send (λ log s. refl) "b" (2 ∷ []) (ok tt) logs spool (inl refl)

submit_category_stops_example :
    submit_category send (ok tt) ("a" ∷ "c" ∷ "d" ∷ []) spool
    ≡ submit_category send (ok tt) ("a" ∷ "c" ∷ "b" ∷ []) spool
submit_category_stops_example =
    submit_category_stops send "c" (λ t. refl) refl (ok tt) ("a" ∷ []) ("d" ∷ []) ("b" ∷ []) spool
