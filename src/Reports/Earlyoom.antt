-- ===== src/Reports/Earlyoom.antt =====
-- helpers/earlyoom.py, `EarlyoomHelper.submit`.
use steamos_log_submitter.Base.{
  String, ◌<>◌, false, [], ◌∷◌, Option, none, some, Result, ok, raise, other, ◌≡◌, refl,
  if◌then◌else◌,
}
use steamos_log_submitter.Base.Dict.{Dict, lookup}
use steamos_log_submitter.Base.Json.{Json, string, get, truthy, some_truthy}
use steamos_log_submitter.Runner.{HelperResult, submit_log, conclude, Progress}
use steamos_log_submitter.Sentry.{SentryEvent, add_attachment, put_some}
use steamos_log_submitter.Reports.{Bytes, caught, Loaded, object, with_object}

-- `str` is that of Python, `event` a new event with the helper's DSN.
module _ (str : Json → String) (loads : Bytes → Loaded) (send : SentryEvent → Result HelperResult)
    (event : SentryEvent) where
  -- The variable `message`; none if no branch assigns it.
  abbrev pub message : Option Json → Option Json → Option Json
  message appid none = if some_truthy appid then appid else none
  message appid (some comm) =
      if truthy comm
      then (if some_truthy appid
          then elim appid [
            | none ↦ none
            | some a ↦ some (string (((str comm <> " (") <> str a) <> ")"))
          ]
          else some comm)
      else (if some_truthy appid then appid else none)

  abbrev pub described : String → Bytes → Dict Json → SentryEvent
  described basename log parsed_log =
      let comm = get "comm" parsed_log in
      record (add_attachment
        (record { mime_type = some "application/json"; filename = some basename; content = log })
        event) {
          appid = get "steamappid" parsed_log;
          tags = put_some "comm" comm (put_some "uid" (lookup "uid" parsed_log) []);
          fingerprint = elim comm [ none ↦ [] | some c ↦ ("comm:" <> str c) ∷ [] ];
        }

  -- Reading a variable that has no value raises.
  abbrev pub send_with : SentryEvent → Option Json → Result HelperResult
  send_with e none = raise (other "UnboundLocalError")
  send_with e (some m) = send (record e { message = some m })

  unfoldable pub submit_earlyoom : String → Result Bytes → Result HelperResult
  submit_earlyoom basename (raise e) = caught e
  submit_earlyoom basename (ok log) = with_object (loads log) λ parsed_log.
      send_with (described basename log parsed_log)
        (message (get "steamappid" parsed_log) (get "comm" parsed_log))

  unnamed :
      (appid comm : Option Json)
      → some_truthy appid ≡ false
      → some_truthy comm ≡ false
      → message appid comm ≡ none
  unnamed appid none h k = rw h refl
  unnamed appid (some c) h k = rw (k, h) refl

  -- A log that names neither an application nor a command is never sent: `submit` raises, whatever
  -- the server would say, and the runner's step on it leaves every directory as it was. So it stays
  -- pending for good.
  pub submit_earlyoom-unnamed :
      (basename name : String) (log : Bytes) (parsed_log : Dict Json) (p : Progress)
      → loads log ≡ object parsed_log
      → some_truthy (get "steamappid" parsed_log) ≡ false
      → some_truthy (get "comm" parsed_log) ≡ false
      → (submit_earlyoom basename (ok log) ≡ raise (other "UnboundLocalError"))
        × ((submit_log (λ _ s. (submit_earlyoom basename (ok log), s)) name p).1.spool ≡ p.spool)
  unfolding submit_earlyoom submit_log conclude
  submit_earlyoom-unnamed basename name log parsed_log p h no_app no_comm =
      let raised : submit_earlyoom basename (ok log) ≡ raise (other "UnboundLocalError") =
        rw (h, unnamed (get "steamappid" parsed_log) (get "comm" parsed_log) no_app no_comm) refl in
      (raised, rw raised refl)
