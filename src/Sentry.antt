-- ===== src/Sentry.antt =====
-- steamos_log_submitter/aggregators/sentry.py: an event, what it is sealed to, and how it is sent.
pub mod Seal
pub mod Send
pub mod Tests
use steamos_log_submitter.Base.{
  ℕ, String, ◌<>◌, Bool, true, false, not, List, [], ◌∷◌, ◌++◌, Option, none, some, Result, ok,
  raise, contains, length, if◌then◌else◌, ◌==◌,
}
use steamos_log_submitter.Base.Dict.{Dict, lookup, insert}
use steamos_log_submitter.Base.Json.{
  Json, string, num, arr, obj, truthy, put_truthy, put_text, put_if, fields_of, texts_of, items_of,
}

-- A key that is missing is none.
pub record Attachment : Type 0 where
  pub mime_type : Option String
  pub filename : Option String
  pub content : List ℕ

-- `message` is what a helper sets it to, a string for all but one of them.
pub record SentryEvent : Type 0 where
  pub event_id : String
  pub dsn : String
  pub appid : Option Json
  pub attachments : List Attachment
  pub exceptions : List Json
  pub tags : Dict Json
  pub fingerprint : List String
  pub extra : Dict Json
  pub timestamp : Option Json
  pub environment : Option String
  pub message : Option Json
  pub os_build : Option String
  pub version : Option String
  pub architecture : String

-- What `seal` asks the system for: the time, the version of the program, `telemetry_unit_id`,
-- `get_dmi_info`, `get_app_name` and Python's `str` of a value.
pub record System : Type 0 where
  pub sent_at : String
  pub program_version : String
  pub unit_id : Option String
  pub dmi_info : Result (Dict String)
  pub app_name : Json → Json
  pub str : Json → String

abbrev pub add_attachment : Attachment → SentryEvent → SentryEvent
add_attachment a e = record e { attachments = e.attachments ++ (a ∷ []) }

abbrev pub timestamp_or : Json → Option Json → Json
timestamp_or sent none = sent
timestamp_or sent (some t) = if truthy t then t else sent

-- `_initialize`
abbrev pub initial : System → SentryEvent → Dict Json
initial s e =
    ("event_id", string e.event_id)
    ∷ ("timestamp", timestamp_or (string s.sent_at) e.timestamp)
    ∷ ("platform", string "native")
    ∷ []

abbrev pub put_some : String → Option Json → Dict Json → Dict Json
put_some k none d = d
put_some k (some v) d = insert k v d

-- An error of `get_dmi_info` is logged at most.
abbrev pub product : Result (Dict String) → Option Json
product (raise e) = none
product (ok info) = elim (lookup "product" info) [ none ↦ none | some p ↦ some (string p) ]

unfoldable pub seal_tags : System → SentryEvent → Dict Json
seal_tags s e = put_some "product" (product s.dmi_info) (
    put_text "unit_id" s.unit_id (
      put_text "os_build" e.os_build
        (insert "architecture" (string e.architecture) (put_some "appid" e.appid e.tags))))

abbrev pub add_appid : String → List String → List String
add_appid a fingerprint = if contains fingerprint a then fingerprint else fingerprint ++ (a ∷ [])

unfoldable pub seal_fingerprint : System → SentryEvent → List String
seal_fingerprint s e = elim e.appid [
  | none ↦ e.fingerprint
  | some appid ↦ add_appid ("appid:" <> s.str appid) e.fingerprint
]

unfoldable pub seal_extra : System → SentryEvent → Dict Json
seal_extra s e =
    let extra = insert "sls.version" (string s.program_version) e.extra in
    elim e.appid [ none ↦ extra | some appid ↦ insert "app.name" (s.app_name appid) extra ]

abbrev pub put_user : Option String → Dict Json → Dict Json
put_user none d = d
put_user (some u) d = put_if (not (u == "")) "user" (obj (fields_of (("id", string u) ∷ []))) d

abbrev pub put_items : String → List Json → Dict Json → Dict Json
put_items k [] d = d
put_items k (j ∷ js) d = insert k (arr (items_of (j ∷ js))) d

abbrev pub put_texts : String → List String → Dict Json → Dict Json
put_texts k [] d = d
put_texts k (j ∷ js) d = insert k (arr (texts_of (j ∷ js))) d

abbrev pub put_dict : String → Dict Json → Dict Json → Dict Json
put_dict k [] d = d
put_dict k (x ∷ xs) d = insert k (obj (fields_of (x ∷ xs))) d

abbrev pub put_exceptions : List Json → Dict Json → Dict Json
put_exceptions [] d = d
put_exceptions (j ∷ js) d =
    insert "exception" (obj (fields_of (("values", arr (items_of (j ∷ js))) ∷ []))) d

-- `_event` after `seal`
unfoldable pub seal_event : System → SentryEvent → Dict Json
unfolding seal_tags seal_fingerprint seal_extra
seal_event s e = put_exceptions e.exceptions (
    put_dict "extra" (seal_extra s e) (
      put_texts "fingerprint" (seal_fingerprint s e) (
        put_dict "tags" (seal_tags s e) (
          put_user s.unit_id (
            put_text "environment" e.environment
              (put_truthy "message" e.message (put_text "release" e.version (initial s e))))))))

-- The lines of the envelope: a header in JSON, and the bytes that follow it.
abbrev pub Line : Type 0
Line = Dict Json × List ℕ

abbrev pub attachment_info : Attachment → Dict Json
attachment_info a =
    let info = ("type", string "attachment") ∷ ("length", num (length a.content)) ∷ [] in
    put_some "filename" (elim a.filename [ none ↦ none | some f ↦ some (string f) ])
      (put_some "content_type" (elim a.mime_type [ none ↦ none | some m ↦ some (string m) ]) info)

abbrev pub lines : List Attachment → List Line
lines [] = []
lines (a ∷ attachments) = (attachment_info a, a.content) ∷ lines attachments

-- The envelope after `seal`; none if nothing was written to it.
unfoldable pub seal_envelope : System → SentryEvent → Option (List Line)
seal_envelope s e = elim e.attachments [
  | [] ↦ none
  | a ∷ attachments ↦ some (
      (
        ("dsn", string e.dsn)
            ∷ ("event_id", string e.event_id)
            ∷ ("sent_at", string s.sent_at)
            ∷ [],
        [],
      )
      ∷ lines (a ∷ attachments))
]
