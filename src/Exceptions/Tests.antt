-- ===== src/Exceptions/Tests.antt =====
-- Errors on their way from the daemon to a client, on concrete values.
use steamos_log_submitter.Base.{
  String, Result, ok, raise, value_error, ◌==◌, if◌then◌else◌, ◌≡◌, refl,
}
use steamos_log_submitter.Base.Dict.{lookup, insert}
use steamos_log_submitter.Base.Json.{Json, null, string, arr, cons, nil, obj, field, end}
use steamos_log_submitter.Exceptions.{
  invalid_arguments_error, error_map, helper_error_map, Raised, error, dbus_error, raised, rethrow,
  rethrow_dbus, unknown_text,
}
use steamos_log_submitter.Exceptions.Wire.{call, call-raised}

abbrev invalid : Json
invalid = obj (field "invalid-helper" (arr (cons (string "x") nil)) end)

abbrev invalid_text : String
invalid_text = "{\"invalid-helper\": [\"x\"]}"

-- `json.dumps` and `json.loads` at two values.
abbrev dumps : Json → String
dumps (obj fields) = invalid_text
dumps j = "null"

abbrev loads : String → Result Json
loads s =
    if s == "null" then ok null else if s == invalid_text then ok invalid else raise value_error

abbrev service : Raised → Raised
service e = dbus_error "org.freedesktop.DBus.Error.Failed" "the exception"

call-raised_example :
    call {A = Unit {0}} service dumps loads (raised (error invalid_arguments_error invalid))
    ≡ raised (error invalid_arguments_error invalid)
call-raised_example = call-raised service dumps loads (error invalid_arguments_error invalid) refl

-- Any other error of the bus is an unknown one, with its text and without its type.
other_error :
    rethrow loads (dbus_error "org.freedesktop.DBus.Error.NoReply" "no reply")
    ≡ unknown_text "no reply"
unfolding rethrow rethrow_dbus lookup insert error_map helper_error_map
other_error = refl
