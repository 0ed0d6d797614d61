-- ===== src/Reports/Tests.antt =====
-- The theorems about reports at concrete logs.
use steamos_log_submitter.Base.{
  String, true, [], ◌∷◌, some, Result, ok, raise, other, ◌≡◌, refl, map, codes, ends_with,
}
use steamos_log_submitter.Base.Dict.{Dict, lookup}
use steamos_log_submitter.Base.Json.{Json, string, num}
use steamos_log_submitter.Spool.{Spool, uploaded, failed}
use steamos_log_submitter.Spool.Moves.{places, at}
use steamos_log_submitter.Runner.{HelperResult, success, transient_error, Progress, submit_log}
use steamos_log_submitter.Sentry.{SentryEvent}
use steamos_log_submitter.Reports.{Bytes, Loaded, object}
use steamos_log_submitter.Reports.Earlyoom.{submit_earlyoom, submit_earlyoom-unnamed}
use steamos_log_submitter.Reports.Gpu.{describe, describe_fingerprint, entry}
use steamos_log_submitter.Reports.Sysreport.{send_report}
use steamos_log_submitter.Reports.Placed.{IsPlaced, send_report-IsPlaced}
use steamos_log_submitter.Sentry.Tests.{event}

abbrev str : Json → String
str (string s) = s
str j = "0"

abbrev taken : SentryEvent → Result HelperResult
taken e = ok success

abbrev loads : Bytes → Loaded
loads b = object (("uid", num 1000) ∷ [])

abbrev spool : Spool
spool = record {
  pending_files = ("1.json", 1 ∷ []) ∷ [];
  uploaded_files = [];
  failed_files = [];
  writable = λ area. true;
}

abbrev progress : Progress
progress = record { submitted = []; spool = spool }

submit_earlyoom-unnamed_run :
    (submit_earlyoom str loads taken event "1.json" (ok (1 ∷ []))
      ≡ raise (other "UnboundLocalError"))
    × ((submit_log
          (λ _ s. (submit_earlyoom str loads taken event "1.json" (ok (1 ∷ [])), s))
          "1.json"
          progress).1.spool
        ≡ spool)
unfolding lookup
submit_earlyoom-unnamed_run =
    submit_earlyoom-unnamed str loads taken event "1.json" "1.json" (1 ∷ [])
      (("uid", num 1000) ∷ []) progress refl refl refl

abbrev gpu_log : Dict Json
gpu_log = ("appid", num 7) ∷ ("comm", string "game") ∷ []

fingerprint_run :
    (describe str some some gpu_log).fingerprint
    ≡ map (entry str some some) (describe str some some gpu_log).tags
fingerprint_run = describe_fingerprint str some some gpu_log

abbrev refuse : String → Spool → Result HelperResult × Spool
refuse log s = (ok transient_error, s)

send_report-IsPlaced_example :
    IsPlaced
      (5 ∷ [])
      (some (5 ∷ []), at uploaded "3467-9ABE.zip" spool, at failed "3467-9ABE.zip" spool)
      (send_report refuse (ok tt) "3467-9ABE" (codes "/tmp/a.zip") (ok (5 ∷ [])) spool).0
      (places "3467-9ABE.zip"
        (send_report refuse (ok tt) "3467-9ABE" (codes "/tmp/a.zip") (ok (5 ∷ [])) spool).1)
unfolding ends_with
send_report-IsPlaced_example =
    send_report-IsPlaced refuse (λ log s. refl) (ok tt) "3467-9ABE" (codes "/tmp/a.zip") (5 ∷ [])
      spool refl refl
