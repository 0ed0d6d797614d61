-- ===== src/Trace/Event/Shown.antt =====
-- What of an event is seen in the report that is sent for it.
use steamos_log_submitter.Base.{String, [], ◌∷◌, Option, none, some, ◌≡◌, All}
use steamos_log_submitter.Base.Dict.{Dict, lookup}
use steamos_log_submitter.Base.Json.{Json, num, string, put_if}
use steamos_log_submitter.Sentry.{SentryEvent}
use steamos_log_submitter.Reports.{Bytes}
use steamos_log_submitter.Trace.{value}
use steamos_log_submitter.Trace.Event.{TraceEvent, attributes, to_json, copied, trace_event, is_set}

abbrev pub flat : Option (Option Json) → Option Json → Option Json
flat none other = other
flat (some none) other = other
flat (some (some v)) other = some v

abbrev pub first_of : Option Json → Option Json → Option Json
first_of none other = other
first_of (some v) other = some v

-- The entries that do not come from the attributes.
abbrev base : TraceEvent → Dict Json
base e = put_if (is_set e.uptime) "uptime" (num e.uptime) (
    put_if (is_set e.timestamp) "timestamp" (num e.timestamp)
      (("type", string (value e.type)) ∷ []))

-- The tag of each copied attribute: the attribute, or what the event had before.
abbrev pub ShowsAll : TraceEvent → SentryEvent → SentryEvent → Type 0
ShowsAll e event sent =
    All (λ k. lookup k sent.tags ≡ flat (lookup k (attributes e)) (lookup k event.tags)) copied

module _ (str : Json → String) (e : TraceEvent) (event : SentryEvent) (log : Bytes) where
  abbrev pub sent_for : SentryEvent
  sent_for = trace_event str log (to_json e) (string (value e.type)) event
