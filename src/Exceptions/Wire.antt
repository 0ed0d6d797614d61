-- ===== src/Exceptions/Wire.antt =====
-- An error of the daemon is the same error for its clients.
use steamos_log_submitter.Base.{String, false, none, some, Result, ok, ◌==◌, ◌≡◌, refl, ap}
use steamos_log_submitter.Base.Dict.{lookup, insert}
use steamos_log_submitter.Base.Json.{Json}
use steamos_log_submitter.Exceptions.{
  ErrorClass, unknown_error, invalid_arguments_error, lock_held_error, lock_not_held_error,
  rate_limiting_error, HelperErrorClass, transient, permanent, classwide, qualified,
  error_class_name, helper_class_name, error_map, helper_error_map, Raised, error, helper_error,
  dbus_error, exception, Outcome, returned, raised, exc_wrap, rethrow_dbus, rethrow, command,
}

error_map-qualified : (c : ErrorClass) → lookup (qualified (error_class_name c)) error_map ≡ some c
unfolding lookup insert error_map
error_map-qualified unknown_error = refl
error_map-qualified invalid_arguments_error = refl
error_map-qualified lock_held_error = refl
error_map-qualified lock_not_held_error = refl
error_map-qualified rate_limiting_error = refl

not_in_error_map :
    (c : HelperErrorClass) → lookup (qualified (helper_class_name c)) error_map ≡ none
unfolding lookup insert error_map
not_in_error_map transient = refl
not_in_error_map permanent = refl
not_in_error_map classwide = refl

helper_error_map-qualified :
    (c : HelperErrorClass) → lookup (qualified (helper_class_name c)) helper_error_map ≡ some c
unfolding lookup insert helper_error_map
helper_error_map-qualified transient = refl
helper_error_map-qualified permanent = refl
helper_error_map-qualified classwide = refl

-- How dbus_next sends what a method of a service raises: a `DBusError` as its type and its text. What
-- it makes of any other exception is its own affair.
abbrev pub sent : (Raised → Raised) → Raised → Raised
sent service (dbus_error type text) = dbus_error type text
sent service (helper_error c text) = dbus_error (qualified (helper_class_name c)) text
sent service e = service e

-- What the daemon's method raises, as `exc_wrap` passes it on, dbus_next sends it and `command` gets it.
abbrev pub transported {ℓ} :
    {A : Type ℓ} → (Raised → Raised) → (Json → String) → Outcome A → Outcome A
transported service dumps r = elim (exc_wrap dumps r) [
  | returned a ↦ returned a
  | raised e ↦ raised (sent service e)
]

abbrev pub call {ℓ} :
    {A : Type ℓ}
    → (Raised → Raised)
    → (Json → String)
    → (String → Result Json)
    → Outcome A
    → Outcome A
call service dumps loads r = command loads (transported service dumps r)

rethrow_dbus-error :
    (dumps : Json → String) (loads : String → Result Json) (c : ErrorClass) (j : Json)
    → loads (dumps j) ≡ ok j
    → rethrow_dbus loads (qualified (error_class_name c)) (dumps j) ≡ error c j
unfolding rethrow_dbus
rethrow_dbus-error dumps loads c j h = rw (error_map-qualified c, rethrow_dbus) (rw h refl)

rethrow_dbus-helper_error :
    (loads : String → Result Json) (c : HelperErrorClass) (text : String)
    → (text == "") ≡ false
    → rethrow_dbus loads (qualified (helper_class_name c)) text ≡ helper_error c text
unfolding rethrow_dbus
rethrow_dbus-helper_error loads c text h =
    rw (not_in_error_map c, rethrow_dbus) (rw (helper_error_map-qualified c) (rw h refl))

-- The errors that the program means to carry: one of its own with data that `json.loads` reads back as
-- `json.dumps` wrote them, and one of a helper with a text.
abbrev pub IsCarried : (Json → String) → (String → Result Json) → Raised → Type 0
IsCarried dumps loads (error c j) = loads (dumps j) ≡ ok j
IsCarried dumps loads (helper_error c text) = (text == "") ≡ false
IsCarried dumps loads (dbus_error type text) = ⊥
IsCarried dumps loads (exception e) = ⊥

-- A method of the daemon that raises an error of the program, with data that `json.loads` reads back
-- from what `json.dumps` makes of them, or an error of a helper with a text that is not empty: the
-- command of the client raises the same error, with the same data or text, whatever dbus_next makes
-- of other exceptions.
pub call-raised :
    {A : Type 0} (service : Raised → Raised) (dumps : Json → String) (loads : String → Result Json)
    (e : Raised)
    → IsCarried dumps loads e
    → call {A = A} service dumps loads (raised e) ≡ raised e
unfolding exc_wrap command rethrow
call-raised service dumps loads (error c j) h = ap raised (rethrow_dbus-error dumps loads c j h)
call-raised service dumps loads (helper_error c text) h =
    ap raised (rethrow_dbus-helper_error loads c text h)
call-raised service dumps loads (dbus_error type text) h = absurd h
call-raised service dumps loads (exception e) h = absurd h
