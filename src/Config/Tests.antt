-- ===== src/Config/Tests.antt =====
-- The configuration theorems at concrete files.
use steamos_log_submitter.Base.{String, [], ◌∷◌, some, true, ◌≡◌, refl, ok, ◌∙◌}
use steamos_log_submitter.Base.Dict.{lookup, lookup-nil, insert, remove}
use steamos_log_submitter.Config.{
  Parser, Config, value, set, remove_option, get_item, set_item, read_file, migrate_key,
  reload_config,
}
use steamos_log_submitter.Config.Laws.{get_item-set_item, value-read_file}
use steamos_log_submitter.Config.Migration.{migrate_key-get_item}
use steamos_log_submitter.Config.Upgrade.{Unchanged, upgrade-Unchanged, first_of_self}
use steamos_log_submitter.Config.{upgrade}

abbrev base : Parser
base = ("sls", ("enable", "off") ∷ ("uid", "1000") ∷ []) ∷ []

abbrev user : Parser
user = ("sls", ("enable", "on") ∷ []) ∷ ("steam", ("account_id", "7") ∷ []) ∷ []

abbrev local : Parser
local = ("helpers.kdump", ("enable", "off") ∷ []) ∷ []

abbrev config : Config
config = record {
  config = [];
  local_config = local;
  local_config_path = true;
  local_file = some local;
  user_file = some user;
  user_writable = true;
}

set_then_get : get_item [] "sls" "enable" (set_item "sls" "enable" "off" config) ≡ ok "off"
set_then_get = get_item-set_item [] "sls" "enable" "off" "sls" "enable" config

-- After the migration the user's file lacks the key and the local one has it.
migrate_run :
    (migrate_key "sls" "enable" config).1.user_file
    ≡ some (("sls", []) ∷ ("steam", ("account_id", "7") ∷ []) ∷ [])
unfolding migrate_key value set remove_option lookup insert remove
migrate_run = refl

local-synced : (s o : String) → value (read_file local local) s o ≡ value local s o
local-synced s o =
    value-read_file local local s o (lookup-nil "helpers.kdump", tt)
    ∙ first_of_self (value local s o)

migrate_key_run :
    get_item [] "sls" "enable" (reload_config (some base) (migrate_key "sls" "enable" config).1)
    ≡ get_item [] "sls" "enable" (reload_config (some base) config)
unfolding lookup
migrate_key_run =
    migrate_key-get_item (some base) "sls" "enable" config user refl refl refl (refl, (refl, tt))
      (refl, tt) local-synced [] "sls" "enable"

upgrade-Unchanged_example :
    Unchanged
      (some base)
      []
      "steam"
      "account_id"
      (reload_config (some base) config)
      (upgrade ("kdump" ∷ []) (some base) config)
unfolding lookup reload_config read_file set insert
upgrade-Unchanged_example =
    upgrade-Unchanged (some base) ("kdump" ∷ []) config [] "steam" "account_id"
      ((user, (refl, (refl, (refl, tt)))), refl, refl, (refl, tt), local-synced)
