-- ===== src/Client.antt =====
-- steamos_log_submitter/client.py: the commands of a client. A command that has failed to connect
-- raises outside the `try`; inside other commands the connection is there.
pub mod Sets
pub mod Paths
mod Tests
use steamos_log_submitter.Base.{
  ℕ, String, Bool, true, false, not, List, [], ◌∷◌, ◌++◌, map, Option, none, some, Text, text_eq,
  codes, key_error, Result, Exc, other, if◌then◌else◌,
}
use steamos_log_submitter.Base.Json.{Json, string, arr, obj, field, end, cons, nil, Items}
use steamos_log_submitter.Exceptions.{
  Raised, error, exception, invalid_arguments_error, Outcome, returned, raised, ◌>>=◌, command,
}
use steamos_log_submitter.Util.Case.{camel_case, snake_case}
use steamos_log_submitter.Helper.Names.{basename}
use steamos_log_submitter.Client.Sets.{validated, sorted}

abbrev pub dbus_root : Text
dbus_root = codes "/com/steampowered/SteamOSLogSubmitter"

-- `f'{DBUS_ROOT}/helpers/{camel_case}'`, which the daemon builds in the same way
unfoldable pub helper_path : Text → Text
helper_path helper = dbus_root ++ (codes "/helpers" ++ (b'/' ∷ camel_case helper))

-- What the bus and the daemon answer: the connection; the children of the object of the helpers; a
-- list of logs of the manager or of the object at a path; the files that a helper has collected.
pub record Bus : Type 0 where
  pub connect : Outcome (Unit {0})
  pub child_paths : Outcome (List Text)
  pub list_logs : Option Text → Text → Outcome (List Text)
  pub collect_logs : Text → Outcome (List Text)
  pub set_enabled : Text → Bool → Outcome (Unit {0})

-- `f'{helper}/{log}'`
abbrev pub prefixed : Text → List Text → List Text
prefixed helper logs = map (λ log. helper ++ (b'/' ∷ log)) logs

-- A list of texts as data of an error, given how a text is written.
unfoldable pub items : (Text → String) → List Text → Items
items show [] = nil
items show (t ∷ ts) = cons (string (show t)) (items show ts)

-- `helpers[helper]`
unfoldable pub state_of : Text → List (Text × Bool) → Option Bool
state_of helper [] = none
state_of helper ((name, state) ∷ helpers) =
    if text_eq name helper then some state else state_of helper helpers

module _ (loads : String → Result Json) (bus : Bus) where
  -- a command of the client, called from outside
  unfoldable pub run {ℓ} : {A : Type ℓ} → Outcome A → Outcome A
  run body = bus.connect >>= λ _. command loads body

  abbrev pub list_body : Outcome (List Text)
  list_body =
      bus.child_paths >>= λ children. returned (map (λ child. snake_case (basename child)) children)

  unfoldable pub client_list : Outcome (List Text)
  client_list = command loads list_body

  unfoldable pub validate_helpers : List Text → Outcome (List Text × List Text)
  validate_helpers requested =
      client_list >>= λ valid_names. returned (validated valid_names requested)

  abbrev pub with_paths : List Text → List (Text × Text)
  with_paths helpers = map (λ helper. (helper, helper_path helper)) helpers

  abbrev pub refuse_invalid : (Text → String) → List Text × List Text → Outcome (List (Text × Text))
  refuse_invalid show (valid, []) = returned (with_paths valid)
  refuse_invalid show (valid, name ∷ names) = raised (
      error invalid_arguments_error
        (obj (field "invalid-helper" (arr (items show (name ∷ names))) end)))

  -- `_helper_objects`, with the path of each object
  unfoldable pub helper_objects :
      (Text → String) → Option (List Text) → Outcome (List (Text × Text))
  helper_objects show none = client_list >>= λ names. returned (with_paths names)
  helper_objects show (some helpers) =
      validate_helpers helpers >>= λ checked. refuse_invalid show checked

  -- the loops over `_helper_objects` that gather logs
  unfoldable pub gather : (Text → Outcome (List Text)) → List (Text × Text) → Outcome (List Text)
  gather logs_of [] = returned []
  gather logs_of ((helper, path) ∷ objects) = logs_of path >>= λ logs.
      gather logs_of objects >>= λ rest. returned (prefixed helper logs ++ rest)

  unfoldable pub list_type : (Text → String) → Text → Option (List Text) → Outcome (List Text)
  list_type show type none =
      command loads (bus.list_logs none type >>= λ logs. returned (sorted logs))
  list_type show type (some helpers) = command loads (
      helper_objects show (some helpers) >>= λ objects.
      gather (λ path. bus.list_logs (some path) type) objects >>= λ logs. returned (sorted logs))

  unfoldable pub collect : (Text → String) → Option (List Text) → Outcome (List Text)
  collect show helpers = command loads (
      helper_objects show helpers >>= λ objects.
      gather bus.collect_logs objects >>= λ logs. returned (sorted logs))

  -- `props.set('Enabled', helpers[helper])` for one helper after the other, with the calls that were
  -- made
  unfoldable pub set_each :
      List (Text × Bool) → List (Text × Text) → Outcome (Unit {0}) × List (Text × Bool)
  set_each helpers [] = (returned tt, [])
  set_each helpers ((helper, path) ∷ objects) =
      let rest = set_each helpers objects in
      elim (state_of helper helpers) [
        | none ↦ (raised (exception key_error), [])
        | some state ↦ elim (bus.set_enabled path state) [
          | returned done ↦ (rest.0, (path, state) ∷ rest.1)
          | raised e ↦ (raised e, (path, state) ∷ [])
        ]
      ]

  unfoldable pub set_helpers_enabled :
      (Text → String) → List (Text × Bool) → Outcome (Unit {0}) × List (Text × Bool)
  set_helpers_enabled show helpers = elim (helper_objects show (some (map (λ h. h.0) helpers))) [
    | raised e ↦ (command loads (raised e), [])
    | returned objects ↦ let done = set_each helpers objects in (command loads done.0, done.1)
  ]

  -- `enable_helpers` and `disable_helpers`
  unfoldable pub enable_helpers :
      (Text → String) → Bool → List Text → Outcome (Unit {0}) × List (Text × Bool)
  enable_helpers show state helpers =
      let done = set_helpers_enabled show (map (λ helper. (helper, state)) helpers) in
      (command loads done.0, done.1)
