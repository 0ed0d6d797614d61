-- ===== src/Exceptions.antt =====
-- steamos_log_submitter/exceptions.py, the errors of helpers/__init__.py, and how an error comes from
-- the daemon to its clients: `_reraise` and `exc_wrap` of daemon.py, `_rethrow` of client.py.
pub mod Wire
mod Tests
use steamos_log_submitter.Base.{
  String, ◌<>◌, Bool, true, false, List, [], ◌∷◌, Option, none, some, Result, ok, raise, Exc, ◌==◌,
  if◌then◌else◌,
}
use steamos_log_submitter.Base.Dict.{Dict, lookup, insert}
use steamos_log_submitter.Base.Json.{Json, string, obj, field, end}

abbrev pub dbus_name : String
dbus_name = "com.steampowered.SteamOSLogSubmitter"

pub data ErrorClass : Type 0 where
  unknown_error invalid_arguments_error lock_held_error lock_not_held_error : ErrorClass
  rate_limiting_error : ErrorClass

pub data HelperErrorClass : Type 0 where
  transient permanent classwide : HelperErrorClass

-- `cls.__name__`
abbrev pub error_class_name : ErrorClass → String
error_class_name unknown_error = "UnknownError"
error_class_name invalid_arguments_error = "InvalidArgumentsError"
error_class_name lock_held_error = "LockHeldError"
error_class_name lock_not_held_error = "LockNotHeldError"
error_class_name rate_limiting_error = "RateLimitingError"

abbrev pub helper_class_name : HelperErrorClass → String
helper_class_name transient = "TransientError"
helper_class_name permanent = "PermanentError"
helper_class_name classwide = "ClassError"

-- `cls.name`
abbrev pub qualified : String → String
qualified class_name = dbus_name <> ".Error." <> class_name

-- `__init_subclass__`, the same in both hierarchies: a class goes into the map under both names.
abbrev pub init_subclass {ℓ} : {C : Type ℓ} → String → C → Dict C → Dict C
init_subclass class_name c classes = insert (qualified class_name) c (insert class_name c classes)

abbrev pub declare_all {ℓ} : {C : Type ℓ} → (C → String) → List C → Dict C → Dict C
declare_all class_name [] classes = classes
declare_all class_name (c ∷ cs) classes =
    declare_all class_name cs (init_subclass (class_name c) c classes)

-- `Error.map` and `HelperError.map`, when the modules are loaded
unfoldable pub error_map : Dict ErrorClass
error_map =
    declare_all error_class_name
      (unknown_error ∷ invalid_arguments_error ∷ lock_held_error ∷ lock_not_held_error
        ∷ rate_limiting_error ∷ [])
      []

unfoldable pub helper_error_map : Dict HelperErrorClass
helper_error_map = declare_all helper_class_name (transient ∷ permanent ∷ classwide ∷ []) []

-- What is raised, as `_rethrow` tells it apart: an `Error` with its data; a `HelperError`, which is a
-- `DBusError` whose type is the name of its class; any other `DBusError`; and the rest.
pub data Raised : Type 0 where
  error : ErrorClass → Json → Raised
  helper_error : HelperErrorClass → String → Raised
  dbus_error : String → String → Raised
  exception : Exc → Raised

abbrev pub default_text : HelperErrorClass → String
default_text transient = "A transient error occurred"
default_text permanent = "A permanent error occurred"
default_text classwide = "A classwide error occurred"

-- The constructors of the three classes, which take None or an empty text for none.
abbrev pub make_helper_error : HelperErrorClass → String → Raised
make_helper_error c text = helper_error c (if text == "" then default_text c else text)

pub data Outcome {ℓ} (A : Type ℓ) : Type ℓ where
  returned : A → Outcome A
  raised : Raised → Outcome A

abbrev pub unknown_text : String → Raised
unknown_text text = error unknown_error (obj (field "text" (string text) end))

infixl 5 ◌>>=◌
abbrev pub ◌>>=◌ {ℓ κ} : {A : Type ℓ} {B : Type κ} → Outcome A → (A → Outcome B) → Outcome B
returned a >>= f = f a
raised e >>= f = raised e

-- `json.dumps`
module _ (dumps : Json → String) where
  abbrev pub reraise : ErrorClass → Json → Raised
  reraise c j = dbus_error (qualified (error_class_name c)) (dumps j)

  -- `exc_wrap` and `exc_awrap`
  unfoldable pub exc_wrap {ℓ} : {A : Type ℓ} → Outcome A → Outcome A
  exc_wrap (returned a) = returned a
  exc_wrap (raised (error c j)) = raised (reraise c j)
  exc_wrap (raised e) = raised e

-- `json.loads`
module _ (loads : String → Result Json) where
  abbrev pub as_error : ErrorClass → Result Json → Raised
  as_error c (ok j) = error c j
  as_error c (raise e) = exception e

  -- `_rethrow` of a `DBusError` with this type and text
  unfoldable pub rethrow_dbus : String → String → Raised
  rethrow_dbus type text = elim (lookup type error_map) [
    | some c ↦ as_error c (loads text)
    | none ↦ elim (lookup type helper_error_map) [
      | some c ↦ make_helper_error c text
      | none ↦ unknown_text text
    ]
  ]

  unfoldable pub rethrow : Raised → Raised
  rethrow (error c j) = error c j
  rethrow (helper_error c text) = rethrow_dbus (qualified (helper_class_name c)) text
  rethrow (dbus_error type text) = rethrow_dbus type text
  rethrow (exception e) = exception e

  -- `command` after it has connected
  unfoldable pub command {ℓ} : {A : Type ℓ} → Outcome A → Outcome A
  command (returned a) = returned a
  command (raised e) = raised (rethrow e)
