-- ===== src/Logging/Tests.antt =====
-- The level of the log on concrete configurations.
use steamos_log_submitter.Base.{
  ℕ, true, false, none, some, [], ◌∷◌, Text, Result, raise, other, ◌≡◌, ◌⊎◌, refl,
}
use steamos_log_submitter.Config.{Config}
use steamos_log_submitter.Exceptions.{raised}
use steamos_log_submitter.Logging.{
  valid_level, set_log_level, Levels, invalid_level, Root, stream, remote, level_int,
  reconfigure_logging,
}
use steamos_log_submitter.Logging.Level.{LevelSet, set_log_level-log_level}
use steamos_log_submitter.Logging.Handlers.{Replaces, reconfigure_logging-Replaces}

abbrev attribute : Text → Result ℕ
attribute name = raise (other "AttributeError")

abbrev config : Config
config = record {
  config = ("logging", ("level", "verbose") ∷ []) ∷ [];
  local_config = [];
  local_config_path = true;
  local_file = none;
  user_file = some (("logging", ("level", "verbose") ∷ []) ∷ []);
  user_writable = true;
}

abbrev old : Root
old = record {
  handlers = (stream, 30) ∷ (remote, 30) ∷ [];
  closed = [];
  level = 30;
  asyncio_level = none;
}

abbrev levels : Levels
levels = record { config = config; root = old; signals = [] }

set_log_level-log_level_example :
    (valid_level 20 ≡ true) × LevelSet attribute 20 levels (set_log_level true true true 20 levels)
    ⊎ (valid_level 20 ≡ false)
      × (set_log_level true true true 20 levels ≡ (raised (invalid_level 20), levels))
set_log_level-log_level_example = set_log_level-log_level true true attribute 20 levels refl refl

reconfigure_logging-Replaces_run :
    let r =
      reconfigure_logging true true (some "/var/log/sls.log") none false (some "verbose") old in
    let n = level_int none (some "verbose") in
    (valid_level n ≡ true) × Replaces n old r × (r.level ≡ n)
reconfigure_logging-Replaces_run =
    reconfigure_logging-Replaces true true (some "/var/log/sls.log") none false (some "verbose") old
