-- ===== src/Reports/Gpu.antt =====
-- helpers/gpu.py, `GPUHelper.submit`.
use steamos_log_submitter.Base.{
  String, ◌<>◌, Bool, true, false, List, [], ◌∷◌, ◌++◌, map, Option, none, some, Result, ok, raise,
  ◌≡◌, arith,
}
use steamos_log_submitter.Base.Dict.{Dict, lookup, insert}
use steamos_log_submitter.Base.Json.{Json, string, get, truthy}
use steamos_log_submitter.Runner.{HelperResult, permanent_error}
use steamos_log_submitter.Sentry.{SentryEvent, add_attachment}
use steamos_log_submitter.Reports.{
  Bytes, caught, Loaded, with_object, Zip, bad_zip, zip_error, unzipped,
}

-- The variables `tags`, `fingerprint` and `message`.
pub record Description : Type 0 where
  pub tags : Dict Json
  pub fingerprint : List String
  pub message : Option String

abbrev pub blank : Description
blank = record { tags = []; fingerprint = []; message = none }

-- `str` is that of Python, `to_float` and `to_int` give none for a ValueError or a TypeError.
module _ (str : Json → String) (to_float to_int : Json → Option Json) where
  abbrev pub convert : (Json → Option Json) → Option Json → Option Json
  convert f none = none
  convert f (some v) = f v

  abbrev pub entry : String × Json → String
  entry (k, v) = (k <> ":") <> str v

  abbrev pub label : String → Json → Description → Description
  label k v d = record d {
    tags = insert k v d.tags;
    fingerprint = d.fingerprint ++ (entry (k, v) ∷ []);
  }

  -- `if not message: message = f'GPU reset ({v})'`; no message is ever empty.
  abbrev pub name_after : Option String → Json → Option String
  name_after none v = some (("GPU reset (" <> str v) <> ")")
  name_after (some m) v = some m

  abbrev pub note_if : Bool → Bool → String → Json → Description → Description
  note_if false names k v d = d
  note_if true false k v d = label k v d
  note_if true true k v d = label k v (record d { message = name_after d.message v })

  abbrev pub note_truthy : Bool → String → Option Json → Description → Description
  note_truthy names k none d = d
  note_truthy names k (some v) d = note_if (truthy v) names k v d

  abbrev pub note_some : String → Option Json → Description → Description
  note_some k none d = d
  note_some k (some v) d = label k v d

  unfoldable pub app_message : Option Json → Option String
  app_message none = none
  app_message (some appid) = some (("GPU reset (" <> str appid) <> ")")

  abbrev pub or_default : Option String → String
  or_default none = "GPU reset"
  or_default (some m) = m

  unfoldable pub describe : Dict Json → Description
  describe log = note_truthy false "mesa" (get "mesa" log) (
      note_some "kernel" (get "kernel" log) (
        note_truthy true "comm" (get "comm" log) (
          note_truthy true "executable" (get "executable" log)
            (record blank { message = app_message (convert to_int (lookup "appid" log)) }))))

  module _ (loads : Bytes → Loaded) (send : SentryEvent → Result HelperResult)
      (event : SentryEvent) where
    abbrev pub described : String → Bytes → Bytes → Dict Json → SentryEvent
    described basename metadata attachment log =
        let d = describe log in
        record (add_attachment
          (record {
            mime_type = some "application/zip";
            filename = some basename;
            content = attachment;
          })
          (add_attachment
            (record {
              mime_type = some "application/json";
              filename = some "metadata.json";
              content = metadata;
            })
            event)) {
              appid = convert to_int (lookup "appid" log);
              timestamp = convert to_float (lookup "timestamp" log);
              tags = d.tags;
              fingerprint = d.fingerprint;
              message = some (string (or_default d.message));
            }

    unfoldable pub submit_gpu : String → Zip Bytes → Result Bytes → Result HelperResult
    submit_gpu basename bad_zip file = ok permanent_error
    submit_gpu basename (zip_error e) file = caught e
    submit_gpu basename (unzipped metadata) (raise e) = caught e
    submit_gpu basename (unzipped metadata) (ok attachment) =
        with_object (loads metadata) λ log. send (described basename metadata attachment log)

  -- The fingerprint of a GPU report has one entry for each tag, `name:value`, in the order of the
  -- tags, whatever the log holds.
  pub describe_fingerprint :
      (log : Dict Json) → (describe log).fingerprint ≡ map entry (describe log).tags
  unfolding describe insert
  describe_fingerprint log =
      labels (get "executable" log) (get "comm" log) (get "kernel" log) (get "mesa" log)
        (app_message (convert to_int (lookup "appid" log)))
    where
      labels :
          (e c k m : Option Json) (msg : Option String)
          → (note_truthy false "mesa" m (
              note_some "kernel" k (
                note_truthy true "comm" c
                  (note_truthy true "executable" e (record blank { message = msg }))))).fingerprint
            ≡ map entry
                (note_truthy false "mesa" m (
                  note_some "kernel" k (
                    note_truthy true "comm" c
                      (note_truthy true "executable" e (record blank { message = msg }))))).tags
      labels e c k m msg = ground arith
