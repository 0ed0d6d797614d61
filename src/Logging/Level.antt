-- ===== src/Logging/Level.antt =====
-- The level of the log: what is set is read back, and what is configured is a level.
use steamos_log_submitter.Base.{
  ℕ, String, Bool, true, false, [], Option, none, some, Text, Result, ok, raise, ◌≡◌, ◌⊎◌, inl, inr,
  refl, sym, ap, arith, Bool-cases, ◌∷◌, ◌++◌, ◌∙◌,
}
use mathlib.Core.Path.{subst}
use steamos_log_submitter.Config.{
  Parser, Config, value, get_item, set_item, migrate_key, migrate_user, migrate_value, rewrite_user,
}
use steamos_log_submitter.Config.Upgrade.{write_config_ok, rewrite_user_ok}
use steamos_log_submitter.Config.Laws.{value-set}
use steamos_log_submitter.Logging.Handlers.{reconfigure_logging-Replaces}
use steamos_log_submitter.Exceptions.{Outcome, returned, raised}
use steamos_log_submitter.Logging.{
  level_number, uppercase, valid_level, or_else, section, config_level, level_name, log_level,
  set_log_level, after_migration, invalid_level, Levels, level_int,
}

-- A level that is valid is one of the five.
five : (n : ℕ) → valid_level n ≡ true → (n ≡ 10) ⊎ (n ≡ 20) ⊎ (n ≡ 30) ⊎ (n ≡ 40) ⊎ (n ≡ 50)
unfolding valid_level
five n h = ground arith

level_name-number :
    (n : ℕ)
    → valid_level n ≡ true
    → level_number (uppercase (or_else (some (level_name n)) "WARNING")) ≡ some n
unfolding level_name level_number
level_name-number n h = elim (five n h) [
  | inl is ↦ rw is refl
  | inr (inl is) ↦ rw is refl
  | inr (inr (inl is)) ↦ rw is refl
  | inr (inr (inr (inl is))) ↦ rw is refl
  | inr (inr (inr (inr is))) ↦ rw is refl
]

-- Where the files can be written, a migration does not fail, and it can still be written.
abbrev Migrated : Result Bool × Config → Type 0
Migrated (raise e, c) = ⊥
Migrated (ok moved, c) = c.local_config_path ≡ true

migrate_value-Migrated :
    (name key : String) (user : Parser) (new old : Option String) (c : Config)
    → c.user_writable ≡ true
    → c.local_config_path ≡ true
    → Migrated (migrate_value name key user new old c)
unfolding set_item
migrate_value-Migrated name key user none old c u h = h
migrate_value-Migrated name key user (some v) (some w) c u h = h
migrate_value-Migrated name key user (some v) none c u h =
    let new = set_item name key v c in
    subst Migrated
      (sym (
        ap (rewrite_user name key user) (write_config_ok new h)
        ∙ rewrite_user_ok name key user (record new { local_file = some new.local_config }) u))
      h

migrate_user-Migrated :
    (name key : String) (file : Option Parser) (c : Config)
    → c.user_writable ≡ true
    → c.local_config_path ≡ true
    → Migrated (migrate_user name key file c)
migrate_user-Migrated name key none c u h = h
migrate_user-Migrated name key (some user) c u h =
    migrate_value-Migrated name key user (value user name key) (value c.local_config name key) c u h

migrate_key-Migrated :
    (name key : String) (c : Config)
    → c.user_writable ≡ true
    → c.local_config_path ≡ true
    → Migrated (migrate_key name key c)
unfolding migrate_key
migrate_key-Migrated name key c u h = migrate_user-Migrated name key c.user_file c u h

-- What `set_log_level` comes to: the level is configured, the root logger has it, and the signal told
-- of it.
abbrev pub LevelSet : (Text → Result ℕ) → ℕ → Levels → Outcome (Unit {0}) × Levels → Type 0
LevelSet attribute n old r =
    (r.0 ≡ returned tt)
    × (log_level attribute r.1.config ≡ ok n)
    × (r.1.root.level ≡ n)
    × (r.1.signals ≡ old.signals ++ (n ∷ []))

stored_level :
    (n : ℕ) (c : Config)
    → get_item [] section "level" (
        let stored = set_item section "level" (level_name n) c in
        record stored { local_file = some stored.local_config })
      ≡ ok (level_name n)
unfolding set_item get_item
stored_level n c = rw value-set refl

log_level-get_item :
    (attribute : Text → Result ℕ) (n : ℕ) (c : Config)
    → valid_level n ≡ true
    → get_item [] section "level" c ≡ ok (level_name n)
    → log_level attribute c ≡ ok n
unfolding log_level
log_level-get_item attribute n c valid h =
    let there : config_level c ≡ some (level_name n) = rw (h, config_level) refl in
    rw there (rw (level_name-number n valid) refl)

level_int-level_name :
    (n : ℕ) (c : Config)
    → valid_level n ≡ true
    → get_item [] section "level" c ≡ ok (level_name n)
    → level_int none (config_level c) ≡ n
level_int-level_name n c valid h =
    let there : config_level c ≡ some (level_name n) = rw (h, config_level) refl in
    rw there (rw (level_name-number n valid) refl)

module _ (opens connects : Bool) (attribute : Text → Result ℕ) (n : ℕ) (l : Levels) where
  after_migration-LevelSet :
      (r : Result Bool × Config)
      → valid_level n ≡ true
      → Migrated r
      → LevelSet attribute n l (after_migration opens connects true n l r)
  unfolding set_item
  after_migration-LevelSet (raise e, c) valid h = absurd h
  after_migration-LevelSet (ok moved, c) valid h =
      rw (write_config_ok (set_item section "level" (level_name n) c) h) (
        refl,
        log_level-get_item attribute n _ valid (stored_level n c),
        (reconfigure_logging-Replaces opens connects _ none false _ l.root).2
            ∙ level_int-level_name n _ valid (stored_level n c),
        refl,
      )

  -- A level that `valid_level` accepts, configuration files that can be written, and a daemon that is on
  -- the bus: `set_log_level` raises nothing, `log_level` gives this level from then on, whatever the
  -- files and the user's configuration said, the root logger has it, whether or not the log file
  -- could be opened, and the signal tells of it. Any other level raises InvalidArgumentsError and
  -- changes nothing.
  pub set_log_level-log_level :
      l.config.user_writable ≡ true
      → l.config.local_config_path ≡ true
      → (valid_level n ≡ true) × LevelSet attribute n l (set_log_level opens connects true n l)
        ⊎ (valid_level n ≡ false)
          × (set_log_level opens connects true n l ≡ (raised (invalid_level n), l))
  unfolding set_log_level
  set_log_level-log_level rewritable writable = elim (Bool-cases (valid_level n)) [
    | inl valid ↦ inl (
      valid,
      rw valid (
          after_migration-LevelSet (migrate_key section "level" l.config) valid
            (migrate_key-Migrated section "level" l.config rewritable writable)),
    )
    | inr invalid ↦ inr (invalid, rw invalid refl)
  ]
