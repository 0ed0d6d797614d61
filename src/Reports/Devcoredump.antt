-- ===== src/Reports/Devcoredump.antt =====
-- helpers/devcoredump.py, `DevcoredumpHelper.submit`.
use steamos_log_submitter.Base.{
  String, ◌<>◌, List, [], ◌∷◌, ◌++◌, Option, none, some, Result, ok, raise, key_error,
}
use steamos_log_submitter.Base.Dict.{Dict, lookup}
use steamos_log_submitter.Base.Json.{Json, string}
use steamos_log_submitter.Runner.{HelperResult, permanent_error}
use steamos_log_submitter.Sentry.{SentryEvent, add_attachment, put_some}
use steamos_log_submitter.Reports.{
  Bytes, caught, Loaded, with_object, Zip, bad_zip, zip_error, unzipped,
}

abbrev pub caught_key : Result HelperResult → Result HelperResult
caught_key (raise key_error) = ok permanent_error
caught_key r = r

module _ (str : Json → String) (loads : Bytes → Loaded) (send : SentryEvent → Result HelperResult)
    (event : SentryEvent) where
  -- `failing_device` and `driver`, each none if the key is missing
  abbrev pub device_message : Option Json → Option Json → String
  device_message (some device) (some driver) = (str driver <> ": ") <> str device
  device_message (some device) none = str device
  device_message none (some driver) = str driver
  device_message none none = "Unknown device"

  abbrev pub add_driver : Option Json → List String → List String
  add_driver none fingerprint = fingerprint
  add_driver (some driver) fingerprint = fingerprint ++ (("driver:" <> str driver) ∷ [])

  abbrev pub or_event : Option Json → Option Json → Option Json
  or_event none t = t
  or_event (some v) t = some v

  unfoldable pub device_event : String → Bytes → Bytes → Dict Json → SentryEvent
  device_event basename archive metadata_json metadata =
      let driver = lookup "driver" metadata in
      let device = lookup "failing_device" metadata in
      record (add_attachment
        (record {
          mime_type = some "application/json";
          filename = some "metadata.json";
          content = metadata_json;
        })
        (add_attachment
          (record {
            mime_type = some "application/zip";
            filename = some basename;
            content = archive;
          })
          event)) {
            timestamp = or_event (lookup "timestamp" metadata) event.timestamp;
            tags = put_some "driver" driver (
                put_some "failing_device" device (
                  put_some "branch" (lookup "branch" metadata)
                    (put_some "kernel" (lookup "kernel" metadata) event.tags)));
            fingerprint = add_driver driver event.fingerprint;
            message = some (string (device_message device driver));
          }

  -- The file is read first, then `metadata.json` of the archive in it.
  unfoldable pub submit_devcoredump : String → Result Bytes → Zip Bytes → Result HelperResult
  submit_devcoredump basename (raise e) zip = caught_key (caught e)
  submit_devcoredump basename (ok archive) bad_zip = ok permanent_error
  submit_devcoredump basename (ok archive) (zip_error e) = caught_key (caught e)
  submit_devcoredump basename (ok archive) (unzipped metadata_json) =
      with_object (loads metadata_json)
        λ metadata. send (device_event basename archive metadata_json metadata)
