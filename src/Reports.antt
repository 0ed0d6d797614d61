-- ===== src/Reports.antt =====
-- The `submit` methods of the helpers: steamos_log_submitter/helpers/earlyoom.py, gpu.py,
-- devcoredump.py and sysreport.py. What is read of a file is an argument, as are the zip and JSON
-- libraries and the sending of the event.
pub mod Earlyoom
pub mod Gpu
pub mod Devcoredump
pub mod Sysreport
pub mod Placed
mod Tests
use steamos_log_submitter.Base.{
  ℕ, String, Bool, true, false, List, Option, none, some, Result, ok, raise, Exc, file_not_found,
  file_exists, permission, os_error, other,
}
use steamos_log_submitter.Base.Dict.{Dict}
use steamos_log_submitter.Base.Json.{Json, get}
use steamos_log_submitter.Runner.{HelperResult, transient_error, permanent_error}

abbrev pub Bytes : Type 0
Bytes = List ℕ

-- `except OSError`
abbrev pub is_os_error : Exc → Bool
is_os_error file_not_found = true
is_os_error file_exists = true
is_os_error permission = true
is_os_error os_error = true
is_os_error _ = false

-- What `json.loads` gives: a JSONDecodeError, an object, or another value, on which `.get` raises.
pub data Loaded : Type 0 where
  invalid : Loaded
  object : Dict Json → Loaded
  no_object : Loaded

-- An exception before the event is sent.
abbrev pub caught : Exc → Result HelperResult
caught e = elim (is_os_error e) [ true ↦ ok transient_error | false ↦ raise e ]

-- A log that was read as a whole, and what is done with its JSON.
abbrev pub with_object : Loaded → (Dict Json → Result HelperResult) → Result HelperResult
with_object invalid next = ok permanent_error
with_object (object log) next = next log
with_object no_object next = raise (other "AttributeError")

-- `zipfile` on a file: a BadZipFile, another exception, or what was read of it.
pub data Zip (A : Type 0) : Type 0 where
  bad_zip : Zip A
  zip_error : Exc → Zip A
  unzipped : A → Zip A
