-- ===== src/Reports/Sysreport.antt =====
-- helpers/sysreport.py: a report that is submitted at once, by the runner's own `submit_category`.
use steamos_log_submitter.Base.{
  String, ◌<>◌, List, [], ◌∷◌, Option, none, some, Result, ok, raise, if◌then◌else◌, Text, codes,
  ends_with,
}
use steamos_log_submitter.Base.Dict.{lookup, insert}
use steamos_log_submitter.Base.Json.{string}
use steamos_log_submitter.Spool.{Spool, pending, failed, files, with_files, replace}
use steamos_log_submitter.Runner.{
  HelperResult, success, transient_error, permanent_error, submit_category,
}
use steamos_log_submitter.Sentry.{SentryEvent, add_attachment}
use steamos_log_submitter.Reports.{Bytes}

abbrev pub joined : List String → String
joined [] = ""
joined (s ∷ ss) = s <> joined ss

-- `make_id` for eight choices of the alphabet
unfoldable pub make_id : List String → List String → String
make_id first rest = (joined first <> "-") <> joined rest

-- `submit`; any error of `open` is an OSError.
unfoldable pub submit_sysreport :
    (SentryEvent → Result HelperResult) → SentryEvent → String → Result Bytes → Result HelperResult
submit_sysreport send event id (raise e) = ok transient_error
submit_sysreport send event id (ok attachment) =
    send
      (record (add_attachment
        (record {
          mime_type = some "application/zip";
          filename = some "report.zip";
          content = attachment;
        })
        event) {
          tags = ("friendly_id", string id) ∷ [];
          message = some (string ("System report " <> id));
        })

-- What `send_report` returns: the report's id, or a result.
pub data Sent : Type 0 where
  sent : String → Sent
  unsent : HelperResult → Sent

abbrev pub answer : Option (Result HelperResult) → Result Sent
answer none = ok (unsent permanent_error)
answer (some (raise e)) = raise e
answer (some (ok r)) = ok (unsent r)

-- After `submit_category`: a failure of the move is logged at most.
abbrev pub clean_up : String → String → Option (Result HelperResult) → Spool → Result Sent × Spool
clean_up id name (some (ok success)) s = (ok (sent id), s)
clean_up id name r s = (answer r, (replace pending failed name s).1)

-- `copyfile` puts a copy of the report below `pending`, or raises.
abbrev pub copy_in : String → Result Bytes → Spool → Spool
copy_in name (raise e) s = s
copy_in name (ok content) s = with_files pending (insert name content (files pending s)) s

module _ (submit : String → Spool → Result HelperResult × Spool) (lock : Result (Unit {0}))
    (id : String) where
  abbrev pub submit_report : Result Bytes → Spool → Result Sent × Spool
  submit_report (raise e) s = (raise e, s)
  submit_report (ok content) s =
      let name = id <> ".zip" in
      let p = submit_category submit lock (name ∷ []) (copy_in name (ok content) s) in
      clean_up id name (lookup name p.submitted) p.spool

  -- `send_report`, for the id that `make_id` gave
  unfoldable pub send_report : Text → Result Bytes → Spool → Result Sent × Spool
  send_report path source s =
      if ends_with path (codes ".zip")
      then submit_report source s
      else (ok (unsent permanent_error), s)
