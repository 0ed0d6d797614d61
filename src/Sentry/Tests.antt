-- ===== src/Sentry/Tests.antt =====
-- The theorems about events at a concrete event.
use steamos_log_submitter.Base.{[], ◌∷◌, none, some, ok, ◌≡◌, ◌↔◌, ◌⊎◌}
use steamos_log_submitter.Base.Dict.{lookup}
use steamos_log_submitter.Base.Json.{string, num}
use steamos_log_submitter.Runner.{success}
use steamos_log_submitter.Sentry.{SentryEvent, System, seal_tags, seal_envelope}
use steamos_log_submitter.Sentry.Seal.{lookup-seal_tags}
use steamos_log_submitter.Sentry.Send.{send, status, network_error, send_success}

abbrev pub event : SentryEvent
event = record {
  event_id = "0f";
  dsn = "https://sentry.example/1";
  appid = some (num 440);
  attachments = [];
  exceptions = [];
  tags = ("kernel", string "6.1") ∷ ("os_build", string "old") ∷ [];
  fingerprint = [];
  extra = [];
  timestamp = none;
  environment = some "stable";
  message = some (string "crash");
  os_build = some "20260101.1";
  version = some "3.7";
  architecture = "x86_64";
}

abbrev system : System
system = record {
  sent_at = "2026-01-01T00:00:00";
  program_version = "1.0";
  unit_id = some "ab";
  dmi_info = ok (("product", "Jupiter") ∷ []);
  app_name = λ appid. string "game";
  str = λ j. "440";
}

-- The build of the system wins over a tag of the helper.
seal_tags_run : lookup "os_build" (seal_tags system event) ≡ some (string "20260101.1")
unfolding lookup
seal_tags_run = lookup-seal_tags system event "os_build"

send_success_run :
    (send (seal_envelope system event) (status 200) network_error ≡ ok success)
    ↔ ((status 200 ≡ status 200) × ((event.attachments ≡ []) ⊎ (network_error ≡ status 200)))
send_success_run = send_success system event (status 200) network_error
