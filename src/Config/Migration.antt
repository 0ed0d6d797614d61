-- ===== src/Config/Migration.antt =====
-- `migrate_key` moves a key from the user's file to the local one, and no entry changes.
use steamos_log_submitter.Base.{
  String, true, [], Option, none, some, ◌≡◌, refl, sym, ap, ◌∙◌, arith, eq_iff, Option-cases, inl,
  inr,
}
use steamos_log_submitter.Base.Dict.{Dict, NodupKeys, lookup, insert-NodupKeys}
use steamos_log_submitter.Config.{
  Parser, Config, value, set, remove_option, get_item, set_item, found, first_of, read_file,
  read_if, migrate_key, migrate_user, migrate_value, write_config, reload_config,
}
use steamos_log_submitter.Config.Laws.{value-set, value-remove_option, value-read_file}

pub set-NodupKeys :
    (section option v : String) (p : Parser) → NodupKeys p → NodupKeys (set section option v p)
unfolding set
set-NodupKeys section option v p h = insert-NodupKeys section _ p h

pub remove_option-NodupKeys :
    (section option : String) (p : Parser)
    → NodupKeys p
    → NodupKeys (remove_option section option p)
unfolding remove_option
remove_option-NodupKeys section option p h = elim (Option-cases (lookup section p)) [
  | inl absent ↦ rw (absent, remove_option) h
  | inr (options, there) ↦ rw (there, remove_option) (insert-NodupKeys section _ p h)
]

-- An entry after `reload_config`, from the entries of the three files.
abbrev pub layered : Option Parser → Config → String → String → Option String
layered base c s o =
    first_of (value (read_if c.local_file c.local_config) s o)
      (value (read_if c.user_file (read_if base [])) s o)

-- A key that only the user's file has.
module _ (section key v : String) (user local : Parser) (in_user : value user section key ≡ some v)
    (not_local : value local section key ≡ none) (user_nodup : NodupKeys user)
    (local_nodup : NodupKeys local) where
  moved :
      (rest : Parser) (s o : String)
      → first_of
          (value (read_file (set section key v local) (set section key v local)) s o)
          (value (read_file (remove_option section key user) rest) s o)
        ≡ first_of (value local s o) (value (read_file user rest) s o)
  moved rest s o =
      rw
        (
          value-read_file (set section key v local) (set section key v local) s o
              (set-NodupKeys section key v local local_nodup),
          value-read_file (remove_option section key user) rest s o
              (remove_option-NodupKeys section key user user_nodup),
          value-read_file user rest s o user_nodup,
          value-set section key s o v local,
          value-remove_option section key s o user,
        )
        (ground (arith, eq_iff section s, eq_iff key o, in_user, not_local))

first_of_assoc : (a b c : Option String) → first_of a (first_of b c) ≡ first_of (first_of a b) c
first_of_assoc none b c = refl
first_of_assoc (some a) b c = refl

pub get_item-reload_config :
    (defaults : Dict String) (base : Option Parser) (c : Config) (s o : String)
    → get_item defaults s o (reload_config base c)
      ≡ found (first_of (layered base c s o) (lookup o defaults))
unfolding get_item reload_config
get_item-reload_config defaults base c s o = rw first_of_assoc

module _ (base : Option Parser) (section key : String) (c : Config) (user : Parser)
    (readable : c.user_file ≡ some user) (rewritable : c.user_writable ≡ true)
    (writable : c.local_config_path ≡ true) (user_nodup : NodupKeys user)
    (local_nodup : NodupKeys c.local_config)
    (synced : (s o : String)
      → value (read_if c.local_file c.local_config) s o ≡ value c.local_config s o) where
  pub migrate_key-cases :
      (in_user old : Option String)
      → value user section key ≡ in_user
      → value c.local_config section key ≡ old
      → (s o : String)
      → layered base (migrate_value section key user in_user old c).1 s o ≡ layered base c s o
  migrate_key-cases none old absent local s o = refl
  migrate_key-cases (some v) (some w) there local s o = refl
  migrate_key-cases (some v) none there local s o =
      unfold write_config set_item in
      rw writable (
        rw (synced, readable, rewritable)
          (moved section key v user c.local_config there local user_nodup local_nodup
            (read_if base []) s o))

  pub migrate_key-migrate_value :
      migrate_key section key c
      ≡ migrate_value section key user (value user section key) (value c.local_config section key) c
  unfolding migrate_key
  migrate_key-migrate_value = go c.user_file readable
    where
      go :
          (u : Option Parser)
          → u ≡ some user
          → migrate_user section key u c
            ≡ migrate_value section key user
                (value user section key)
                (value c.local_config section key)
                c
      go u e = rw e refl

  migrate_key-layered :
      (s o : String) → layered base (migrate_key section key c).1 s o ≡ layered base c s o
  migrate_key-layered s o =
      rw migrate_key-migrate_value (
        migrate_key-cases (value user section key) (value c.local_config section key) refl refl s o)

  -- The local configuration has a file and what is in it has been read; the user's file can be read
  -- and written. Then `migrate_key` and a reload change no entry: every option of every section reads as it does
  -- after a reload alone, the migrated one included, and under any defaults.
  pub migrate_key-get_item :
      (defaults : Dict String) (s o : String)
      → get_item defaults s o (reload_config base (migrate_key section key c).1)
        ≡ get_item defaults s o (reload_config base c)
  migrate_key-get_item defaults s o =
      get_item-reload_config defaults base (migrate_key section key c).1 s o
      ∙ ap (λ l. found (first_of l (lookup o defaults))) (migrate_key-layered s o)
      ∙ sym (get_item-reload_config defaults base c s o)
