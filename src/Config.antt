-- ===== src/Config.antt =====
-- steamos_log_submitter/config.py: three files in two parsers. A parser maps sections to options;
-- names of options are in lower case, no value uses `$`, so interpolation changes nothing, and no
-- file has a section DEFAULT.
pub mod Laws
pub mod Migration
pub mod Upgrade
mod Tests
use steamos_log_submitter.Base.{
  String, Bool, true, false, List, [], ◌∷◌, Option, none, some, Result, ok, raise, Exc, key_error,
  file_not_found, os_error, if◌then◌else◌, map, ◌<>◌, ◌||◌,
}
use steamos_log_submitter.Base.Dict.{Dict, lookup, insert, remove, has}

abbrev pub Parser : Type 0
Parser = Dict (Dict String)

abbrev pub get_or {ℓ} : {A : Type ℓ} → Option A → A → A
get_or none d = d
get_or (some a) d = a

-- `parser.get(section, option)` if `has_section` and `has_option`
unfoldable pub value : Parser → String → String → Option String
value p section option = lookup option (get_or (lookup section p) [])

-- `add_section` if it is missing, and `set`
unfoldable pub set : String → String → String → Parser → Parser
set section option v p = insert section (insert option v (get_or (lookup section p) [])) p

unfoldable pub remove_option : String → String → Parser → Parser
remove_option section option p = elim (lookup section p) [
  | none ↦ p
  | some options ↦ insert section (remove option options) p
]

-- `read_file` over what the parser holds: the options of the file win. Neither a file nor a parser
-- has a section or an option twice, and their order is not modelled.
abbrev pub read_options : String → Dict String → Parser → Parser
read_options section [] p = p
read_options section ((option, v) ∷ options) p =
    set section option v (read_options section options p)

unfoldable pub read_file : Parser → Parser → Parser
unfolding set
read_file [] p = p
read_file ((section, options) ∷ file) p = read_options section options (read_file file p)

-- The module's two parsers, and the files for the user and the local configuration as they are on
-- the disk: none if there is no path or no readable file. The local file can be written if it has a
-- path, the user's file if `user_writable`. That the base file and the user's file give the paths is
-- not modelled.
pub record Config : Type 0 where
  pub config : Parser
  pub local_config : Parser
  pub local_config_path : Bool
  pub local_file : Option Parser
  pub user_file : Option Parser
  pub user_writable : Bool

-- `ConfigSection.__getitem__`
abbrev pub first_of {ℓ} : {A : Type ℓ} → Option A → Option A → Option A
first_of none b = b
first_of (some a) b = some a

abbrev pub found : Option String → Result String
found none = raise key_error
found (some v) = ok v

unfoldable pub get_item : Dict String → String → String → Config → Result String
get_item defaults section name c = found (
    first_of (value c.local_config section name)
      (first_of (value c.config section name) (lookup name defaults)))

-- `ConfigSection.__setitem__`; only the local configuration is ever written.
unfoldable pub set_item : String → String → String → Config → Config
set_item section name v c = record c { local_config = set section name v c.local_config }

-- `ConfigSection.__contains__`
unfoldable pub contains_item : String → String → Config → Bool
contains_item section name c =
    elim (first_of (value c.local_config section name) (value c.config section name)) [
      | none ↦ false
      | some v ↦ true
    ]

unfoldable pub write_config : Config → Result (Unit {0}) × Config
write_config c =
    if c.local_config_path
    then (ok tt, record c { local_file = some c.local_config })
    else (raise file_not_found, c)

-- The end of `migrate_key`, after its tests: the value moves from the user's file to the local one. A
-- user's file that cannot be opened for writing raises an OSError; the local file has been written.
abbrev pub rewrite_user :
    String → String → Parser → Result (Unit {0}) × Config → Result Bool × Config
rewrite_user section key user (raise e, c) = (raise e, c)
rewrite_user section key user (ok _, c) =
    if c.user_writable
    then (ok true, record c { user_file = some (remove_option section key user) })
    else (raise os_error, c)

abbrev pub migrate_value :
    String → String → Parser → Option String → Option String → Config → Result Bool × Config
migrate_value section key user none old c = (ok false, c)
migrate_value section key user (some v) (some old) c = (ok false, c)
migrate_value section key user (some v) none c =
    rewrite_user section key user (write_config (set_item section key v c))

abbrev pub migrate_user : String → String → Option Parser → Config → Result Bool × Config
migrate_user section key none c = (ok false, c)
migrate_user section key (some user) c =
    migrate_value section key user (value user section key) (value c.local_config section key) c

unfoldable pub migrate_key : String → String → Config → Result Bool × Config
unfolding write_config set_item
migrate_key section key c = migrate_user section key c.user_file c

-- `reload_config`, for the base file and the paths that it gives: `config` is built anew, and the
-- local file is read over what `local_config` holds.
abbrev pub read_if : Option Parser → Parser → Parser
read_if none p = p
read_if (some file) p = read_file file p

unfoldable pub reload_config : Option Parser → Config → Config
unfolding read_file
reload_config base c = record c {
  config = read_if c.user_file (read_if base []);
  local_config = read_if c.local_file c.local_config;
}

-- `upgrade`: the migrations of the fixed keys and of each helper's `enable`, all of them tried.
abbrev pub migrations : List String → List (String × String)
migrations helpers =
    ("sls", "enable")
    ∷ ("steam", "account_id")
    ∷ ("steam", "account_name")
    ∷ ("steam", "deck_serial")
    ∷ map (λ helper. ("helpers." <> helper, "enable")) helpers

abbrev pub note_migrated :
    (Bool → Config → Result Bool × Config) → Bool → Result Bool × Config → Result Bool × Config
note_migrated next any (raise e, c) = (raise e, c)
note_migrated next any (ok b, c) = next (any || b) c

unfoldable pub migrate_all : List (String × String) → Bool → Config → Result Bool × Config
migrate_all [] any c = (ok any, c)
migrate_all ((section, key) ∷ keys) any c =
    note_migrated (migrate_all keys) any (migrate_key section key c)

abbrev pub reload_if : Option Parser → Result Bool × Config → Result (Unit {0}) × Config
reload_if base (raise e, c) = (raise e, c)
reload_if base (ok true, c) = (ok tt, reload_config base c)
reload_if base (ok false, c) = (ok tt, c)

unfoldable pub upgrade : List String → Option Parser → Config → Result (Unit {0}) × Config
upgrade helpers base c =
    reload_if base (migrate_all (migrations helpers) false (reload_config base c))
