-- ===== src/Helper/Switches.antt =====
-- The switches of a helper: `Helper.enabled`, `enable`, `collect_enabled` and the rest.
use steamos_log_submitter.Base.{
  String, Bool, true, false, List, [], ◌∷◌, ◌++◌, Result, ok, raise, ◌≡◌, refl, ap, ◌∙◌, arith,
  ◌==◌, if◌then◌else◌,
}
use text.Mathlib.TextPositions.{eq_refl}
use steamos_log_submitter.Config.{Config, get_item, set_item, write_config}
use steamos_log_submitter.Config.Laws.{get_item-set_item}

pub data Switch : Type 0 where
  enable_switch collect_switch submit_switch : Switch

abbrev pub key : Switch → String
key enable_switch = "enable"
key collect_switch = "collect"
key submit_switch = "submit"

-- The property that `emit_properties_changed` names.
abbrev pub property : Switch → String
property enable_switch = "Enabled"
property collect_switch = "CollectEnabled"
property submit_switch = "SubmitEnabled"

-- A helper's section of the configuration, whether it has an interface, and the signals so far.
pub record Switches : Type 0 where
  pub section : String
  pub has_iface : Bool
  pub config : Config
  pub signals : List (String × Bool)

-- `cls.config.get(key, 'on') == 'on'`
abbrev pub get_on : Result String → Bool
get_on (ok value) = value == "on"
get_on (raise e) = true

unfoldable pub switched : Switch → Switches → Bool
switched s h = get_on (get_item [] h.section (key s) h.config)

abbrev pub on_or_off : Bool → String
on_or_off true = "on"
on_or_off false = "off"

abbrev pub signalled :
    Switch → Bool → Switches → Result (Unit {0}) × Config → Result (Unit {0}) × Switches
signalled s b h (raise e, c) = (raise e, record h { config = c })
signalled s b h (ok _, c) = (
  ok tt,
  record h {
    config = c;
    signals = if h.has_iface then h.signals ++ ((property s, b) ∷ []) else h.signals;
  },
)

-- `enable`, `enable_collect` and `enable_submit`
unfoldable pub switch : Switch → Bool → Switches → Result (Unit {0}) × Switches
switch s b h = signalled s b h (write_config (set_item h.section (key s) (on_or_off b) h.config))

get_on-on_or_off : (b : Bool) → (on_or_off b == "on") ≡ b
get_on-on_or_off true = refl
get_on-on_or_off false = refl

get_item-write_config :
    (section name : String) (c : Config)
    → get_item [] section name (write_config c).1 ≡ get_item [] section name c
unfolding get_item write_config
get_item-write_config section name c = ground arith

signalled_config :
    (s : Switch) (b : Bool) (h : Switches) (p : Result (Unit {0}) × Config)
    → (signalled s b h p).1.config ≡ p.1
signalled_config s b h (ok _, c) = refl
signalled_config s b h (raise e, c) = refl

signalled_section :
    (s : Switch) (b : Bool) (h : Switches) (p : Result (Unit {0}) × Config)
    → (signalled s b h p).1.section ≡ h.section
signalled_section s b h (ok _, c) = refl
signalled_section s b h (raise e, c) = refl

get_on-if :
    (c b : Bool) (r : Result String)
    → get_on (if c then ok (on_or_off b) else r) ≡ (if c then b else get_on r)
get_on-if true b r = get_on-on_or_off b
get_on-if false b r = refl

get_item_switch :
    (s t : Switch) (b : Bool) (h : Switches)
    → get_item [] h.section
        (key t)
        (write_config (set_item h.section (key s) (on_or_off b) h.config)).1
      ≡ (if key s == key t then ok (on_or_off b) else get_item [] h.section (key t) h.config)
get_item_switch s t b h =
    get_item-write_config h.section (key t) (set_item h.section (key s) (on_or_off b) h.config)
    ∙ get_item-set_item [] h.section (key s) (on_or_off b) h.section (key t) h.config
    ∙ rw (eq_refl h.section) refl

-- After a switch is set it reads as set and the other two read as before, also if the configuration
-- could not be written.
pub switched-switch :
    (s t : Switch) (b : Bool) (h : Switches)
    → switched t (switch s b h).1 ≡ (if key s == key t then b else switched t h)
unfolding switched switch
switched-switch s t b h =
    let set : Config = set_item h.section (key s) (on_or_off b) h.config in
    rw (signalled_config s b h (write_config set), signalled_section s b h (write_config set))
      (ap get_on (get_item_switch s t b h)
        ∙ get_on-if (key s == key t) b (get_item [] h.section (key t) h.config))
