-- ===== src/Config/Upgrade.antt =====
-- `upgrade` of config.py changes no entry.
use steamos_log_submitter.Base.{
  String, Bool, true, false, List, [], ◌∷◌, Option, none, some, ◌≡◌, refl, sym, ap, ◌∙◌, Result, ok,
  raise,
}
use mathlib.Core.Path.{subst}
use steamos_log_submitter.Base.Dict.{Dict, NodupKeys, lookup}
use steamos_log_submitter.Config.{
  Parser, Config, value, set, remove_option, get_item, set_item, found, first_of, read_if,
  migrate_key, migrate_value, rewrite_user, write_config, reload_config, migrations, note_migrated,
  migrate_all, reload_if, upgrade,
}
use steamos_log_submitter.Config.Laws.{value-read_file}
use steamos_log_submitter.Config.Migration.{
  set-NodupKeys, remove_option-NodupKeys, layered, migrate_key-cases, migrate_key-migrate_value,
  get_item-reload_config,
}

pub first_of_self : {A : Type 0} (a : Option A) → first_of a a ≡ a
first_of_self none = refl
first_of_self (some a) = refl

first_of_twice : {A : Type 0} (a b : Option A) → first_of a (first_of a b) ≡ first_of a b
first_of_twice none b = refl
first_of_twice (some a) b = refl

-- No section stands twice in a file that is there.
abbrev pub FileNodup : Option Parser → Type 0
FileNodup none = Unit
FileNodup (some file) = NodupKeys file

-- The user's file can be read and written, the local one written, and what is in the local one has
-- been read.
abbrev pub IsReady : Config → Type 0
IsReady c =
    ((user : Parser) × ((c.user_file ≡ some user) × NodupKeys user))
    × (c.user_writable ≡ true)
    × (c.local_config_path ≡ true)
    × NodupKeys c.local_config
    × ((s o : String) → value (read_if c.local_file c.local_config) s o ≡ value c.local_config s o)

pub write_config_ok :
    (c : Config)
    → c.local_config_path ≡ true
    → write_config c ≡ (ok tt, record c { local_file = some c.local_config })
unfolding write_config
write_config_ok c h = simp h

pub rewrite_user_ok :
    (section key : String) (user : Parser) (c : Config)
    → c.user_writable ≡ true
    → rewrite_user section key user (ok tt, c)
      ≡ (ok true, record c { user_file = some (remove_option section key user) })
rewrite_user_ok section key user c h = rw h refl

module _ (base : Option Parser) where
  -- The migrations went through; if none applied, nothing has changed, and else no entry has.
  abbrev Good : Config → Result Bool × Config → Type 0
  Good old (raise e, c) = ⊥
  Good old (ok false, c) = IsReady c × (c ≡ old)
  Good old (ok true, c) = IsReady c × ((s o : String) → layered base c s o ≡ layered base old s o)

  migrate_value-Good :
      (section key : String) (c : Config) (user : Parser) (in_user old : Option String)
      → c.user_file ≡ some user
      → NodupKeys user
      → IsReady c
      → value user section key ≡ in_user
      → value c.local_config section key ≡ old
      → Good c (migrate_value section key user in_user old c)
  unfolding set_item
  migrate_value-Good section key c user none old readable nodup ready there local = (ready, refl)
  migrate_value-Good section key c user (some v) (some w) readable nodup ready there local =
      (ready, refl)
  migrate_value-Good section key c user (some v) none readable nodup
        (u, rewritable, writable, local_nodup, synced) there local =
      let stored =
        ap (rewrite_user section key user) (write_config_ok (set_item section key v c) writable)
        ∙ rewrite_user_ok section key user
            (let new = set_item section key v c in
              record new { local_file = some new.local_config })
            rewritable in
      let fresh = set-NodupKeys section key v c.local_config local_nodup in
      subst (Good c) (sym stored) (
        (
          (remove_option section key user, (refl, remove_option-NodupKeys section key user nodup)),
          rewritable,
          writable,
          fresh,
          λ s o.
              value-read_file (set section key v c.local_config) (set section key v c.local_config)
                s o fresh
              ∙ first_of_self (value (set section key v c.local_config) s o),
        ),
        λ s o.
            ap (λ r. layered base r.1 s o) (sym stored)
            ∙ migrate_key-cases base section key c user readable rewritable writable nodup
                local_nodup synced (some v) none there local s o,
      )

  migrate_key-Good :
      (section key : String) (c : Config) → IsReady c → Good c (migrate_key section key c)
  migrate_key-Good section key c
        ((user, (readable, nodup)), rewritable, writable, local_nodup, synced) =
      subst (Good c)
        (sym (
          migrate_key-migrate_value base section key c user readable rewritable writable nodup
            local_nodup synced))
        (migrate_value-Good section key c user (value user section key)
          (value c.local_config section key) readable nodup
          ((user, (readable, nodup)), rewritable, writable, local_nodup, synced) refl refl)

  Good-IsReady : (b : Bool) (old c : Config) → Good old (ok b, c) → IsReady c
  Good-IsReady true old c g = g.0
  Good-IsReady false old c g = g.0

  note_migrated-Good :
      (next : Bool → Config → Result Bool × Config) (old c : Config) (b : Bool)
      (r : Result Bool × Config)
      → ((any : Bool) (d : Config) → Good old (ok any, d) → Good old (next any d))
      → Good old (ok b, c)
      → Good c r
      → Good old (note_migrated next b r)
  note_migrated-Good next old c b (raise e, d) go g k = absurd k
  note_migrated-Good next old c true (ok true, d) go (_, g) (ready, k) =
      go true d (ready, λ s o. k s o ∙ g s o)
  note_migrated-Good next old c true (ok false, d) go (_, g) (ready, k) =
      go true d (ready, λ s o. ap (λ e. layered base e s o) k ∙ g s o)
  note_migrated-Good next old c false (ok true, d) go (_, g) (ready, k) =
      go true d (ready, λ s o. k s o ∙ ap (λ e. layered base e s o) g)
  note_migrated-Good next old c false (ok false, d) go (_, g) (ready, k) = go false d (ready, k ∙ g)

  -- After the first migrations, whose outcome is `(ok any, c)`, the others go on from `c`.
  migrate_all-Good :
      (keys : List (String × String)) (any : Bool) (old c : Config)
      → Good old (ok any, c)
      → Good old (migrate_all keys any c)
  unfolding migrate_all
  migrate_all-Good [] any old c h = h
  migrate_all-Good ((section, key) ∷ keys) any old c h =
      note_migrated-Good (migrate_all keys) old c any (migrate_key section key c)
        (λ b d g. migrate_all-Good keys b old d g) h
        (migrate_key-Good section key c (Good-IsReady any old c h))

  reload_config-twice :
      (defaults : Dict String) (c : Config) (s o : String)
      → IsReady (reload_config base c)
      → get_item defaults s o (reload_config base (reload_config base c))
        ≡ get_item defaults s o (reload_config base c)
  unfolding get_item reload_config
  reload_config-twice defaults c s o (_, _, _, _, synced) =
      ap
        (λ v. found (
          first_of v
            (first_of (value (read_if c.user_file (read_if base [])) s o) (lookup o defaults))))
        (synced s o)

  -- What the caller of `upgrade` gets, and what an option reads as then.
  abbrev pub Unchanged :
      Dict String → String → String → Config → Result (Unit {0}) × Config → Type 0
  Unchanged defaults s o old r =
      (r.0 ≡ ok tt) × (get_item defaults s o r.1 ≡ get_item defaults s o old)

  reload_if-Unchanged :
      (defaults : Dict String) (s o : String) (c : Config) (r : Result Bool × Config)
      → IsReady (reload_config base c)
      → Good (reload_config base c) r
      → Unchanged defaults s o (reload_config base c) (reload_if base r)
  reload_if-Unchanged defaults s o c (raise e, d) ready g = absurd g
  reload_if-Unchanged defaults s o c (ok false, d) ready (_, g) =
      (refl, ap (get_item defaults s o) g)
  reload_if-Unchanged defaults s o c (ok true, d) ready (_, g) = (
    refl,
    get_item-reload_config defaults base d s o
        ∙ ap (λ l. found (first_of l (lookup o defaults))) (g s o)
        ∙ sym (get_item-reload_config defaults base (reload_config base c) s o)
        ∙ reload_config-twice defaults c s o ready,
  )

  -- Once the files are loaded the user's file can be read and written, the local one can be written
  -- and its content has been read, and neither has a section twice. Then `upgrade` raises nothing, and every
  -- option of every section reads as it does after loading the files alone, for whatever helpers
  -- there are.
  pub upgrade-Unchanged :
      (helpers : List String) (c : Config) (defaults : Dict String) (s o : String)
      → IsReady (reload_config base c)
      → Unchanged defaults s o (reload_config base c) (upgrade helpers base c)
  unfolding upgrade
  upgrade-Unchanged helpers c defaults s o ready =
      reload_if-Unchanged defaults s o c
        (migrate_all (migrations helpers) false (reload_config base c)) ready
        (migrate_all-Good (migrations helpers) false (reload_config base c) (reload_config base c)
          (ready, refl))
