-- ===== src/Daemon/Schedule/Restart.antt =====
-- The time of the next trigger over a restart of the daemon.
use steamos_log_submitter.Base.{
  ℕ, ◌+◌, ◌≤◌, String, true, List, [], ◌∷◌, Option, some, Result, ok, raise, ◌⊎◌, inl, inr, ◌≡◌,
  refl, ap, ◌∙◌, arith,
}
use native.Mathlib.Decide.{dec_lt}
use text.Mathlib.TextPositions.{eq_refl}
use steamos_log_submitter.Base.Dict.{Dict, NodupKeys}
use steamos_log_submitter.Config.{
  Parser, Config, value, set, get_item, set_item, reload_config, upgrade, read_file, read_options,
}
use steamos_log_submitter.Config.Laws.{value-set, value-read_file}
use steamos_log_submitter.Config.Migration.{set-NodupKeys, get_item-reload_config}
use steamos_log_submitter.Config.Upgrade.{IsReady, upgrade-Unchanged, write_config_ok}
use steamos_log_submitter.Daemon.Schedule.{
  startup, interval, section, next_trigger, Started, after_upgrade, start_timer, store_trigger,
  set_next,
}

-- A new process: the parsers are empty, then the files are read.
abbrev pub restarted : Option Parser → Config → Config
restarted base c = reload_config base (record c { config = []; local_config = [] })

-- What a file that was just written says, after it is read twice.
read_back :
    (name v : String) (p : Parser)
    → NodupKeys p
    → let file = set section name v p in
      value (read_file file (read_file file [])) section name ≡ some v
read_back name v p nodup =
    let file = set section name v p in
    let fresh = set-NodupKeys section name v p nodup in
    value-read_file file (read_file file []) section name fresh ∙ rw (value-set, eq_refl name) refl

read_options-NodupKeys :
    (name : String) (options : Dict String) (p : Parser)
    → NodupKeys p
    → NodupKeys (read_options name options p)
read_options-NodupKeys name [] p h = h
read_options-NodupKeys name ((option, v) ∷ options) p h =
    set-NodupKeys name option v (read_options name options p)
      (read_options-NodupKeys name options p h)

read_file-NodupKeys : (file p : Parser) → NodupKeys p → NodupKeys (read_file file p)
unfolding read_file
read_file-NodupKeys [] p h = h
read_file-NodupKeys ((name, options) ∷ file) p h =
    read_options-NodupKeys name options (read_file file p) (read_file-NodupKeys file p h)

-- The configuration with one more entry, written to the local file.
abbrev pub written : String → String → Config → Config
written name v c = record c {
  local_config = set section name v c.local_config;
  local_file = some (set section name v c.local_config);
}

stored_value :
    (base : Option Parser) (name v : String) (c : Config)
    → NodupKeys c.local_config
    → get_item [] section name (reload_config base (restarted base (written name v c))) ≡ ok v
unfolding reload_config
stored_value base name v c nodup =
    get_item-reload_config [] base (restarted base (written name v c)) section name
    ∙ rw (read_back name v c.local_config nodup) refl

written-IsReady :
    (base : Option Parser) (name v : String) (c : Config) (user : Parser)
    → c.user_file ≡ some user
    → NodupKeys user
    → c.user_writable ≡ true
    → c.local_config_path ≡ true
    → NodupKeys c.local_config
    → IsReady (reload_config base (restarted base (written name v c)))
unfolding reload_config
written-IsReady base name v c user there user_nodup rewritable writable nodup =
    let file = set section name v c.local_config in
    let fresh = set-NodupKeys section name v c.local_config nodup in
    (
      (user, (there, user_nodup)),
      rewritable,
      writable,
      read_file-NodupKeys file (read_file file []) (read_file-NodupKeys file [] tt),
      λ s o.
          value-read_file file (read_file file (read_file file [])) s o fresh
          ∙ rw
              (
                value-read_file file (read_file file []) s o fresh,
                value-read_file file [] s o fresh,
              )
              (ground arith),
    )

-- The next trigger that `start` sets, when the time of the last one is stored.
next_trigger-stored :
    (show : ℕ → String) (parse : String → Option ℕ) (last now : ℕ)
    → parse (show last) ≡ some last
    → (next : ℕ) × (next_trigger parse now (some (show last)) ≡ ok next)
      × (now + startup ≤ next)
      × (last + interval ≤ next)
      × ((next ≡ now + startup) ⊎ (next ≡ last + interval))
unfolding next_trigger
next_trigger-stored show parse last now reads = elim (dec_lt (now + startup) (last + interval)) [
  | yes later ↦ (last + interval, ground arith, omega arith, omega arith, inr refl)
  | no sooner ↦ (now + startup, ground arith, omega arith, omega arith, inl refl)
]

store_trigger_ok :
    (show : ℕ → String) (last : ℕ) (c : Config)
    → c.local_config_path ≡ true
    → store_trigger show last c ≡ (ok (last + interval), written "last_trigger" (show last) c)
unfolding store_trigger set_item
store_trigger_ok show last c writable =
    ap (set_next last) (write_config_ok (set_item section "last_trigger" (show last) c) writable)

-- What `start` comes to.
abbrev pub StartsAfter : ℕ → ℕ → Started → Type 0
StartsAfter last now started =
    (started.serving ≡ true)
    × ((next : ℕ) × (started.next ≡ ok next)
        × (now + startup ≤ next)
        × (last + interval ≤ next)
        × ((next ≡ now + startup) ⊎ (next ≡ last + interval)))

after_upgrade-StartsAfter :
    (show : ℕ → String) (parse : String → Option ℕ) (last now : ℕ) (r : Result (Unit {0}) × Config)
    → parse (show last) ≡ some last
    → r.0 ≡ ok tt
    → get_item [] section "last_trigger" r.1 ≡ ok (show last)
    → StartsAfter last now (after_upgrade parse now r)
after_upgrade-StartsAfter show parse last now (raise e, c) reads done stored = cc
after_upgrade-StartsAfter show parse last now (ok _, c) reads done stored =
    let (next, is, soon, late, one) = next_trigger-stored show parse last now reads in
    (refl, (next, rw stored is, soon, late, one))

-- Let the user's and the local configuration have no section twice, the user's file be there and both be
-- writable, and let `float` read back the time of a trigger as it was written. The
-- daemon stores the time of a trigger, is restarted at any later time, and `start` then migrates the
-- configuration, is serving, and sets the next trigger: not before the pause after the start is
-- over, not before the interval since the stored trigger is over, and no later than the later of
-- the two.
pub start_timer-store_trigger :
    (show : ℕ → String) (parse : String → Option ℕ) (helpers : List String) (base : Option Parser)
    (last now : ℕ) (c : Config) (user : Parser)
    → parse (show last) ≡ some last
    → c.user_file ≡ some user
    → NodupKeys user
    → c.user_writable ≡ true
    → c.local_config_path ≡ true
    → NodupKeys c.local_config
    → StartsAfter last now
        (start_timer parse helpers base now (restarted base (store_trigger show last c).1))
unfolding start_timer
start_timer-store_trigger show parse helpers base last now c user reads there user_nodup rewritable
      writable nodup =
    let name : String = "last_trigger" in
    let v = show last in
    let (done, same) =
      upgrade-Unchanged base helpers (restarted base (written name v c)) [] section name
        (written-IsReady base name v c user there user_nodup rewritable writable nodup) in
    rw (store_trigger_ok show last c writable) (
      after_upgrade-StartsAfter show parse last now
        (upgrade helpers base (restarted base (written name v c))) reads done
        (same ∙ stored_value base name v c nodup))
