-- ===== src/Sysinfo/Local.antt =====
-- steamos_log_submitter/helpers/sysinfo.py: the device types that read files and commands of the
-- system, and what all types share. `read` is `sls.util.read_file`, none for a missing file.
mod Tests
use steamos_log_submitter.Base.{
  ℕ, String, ◌<>◌, Bool, true, false, ◌&&◌, ◌||◌, not, List, [], ◌∷◌, ◌++◌, map, Option, none, some,
  Text, codes, text_eq, begins_with, from_last, nat_eq, leb, Result, ok, raise, ◌>>=◌, Exc,
  file_not_found, permission, os_error, if◌then◌else◌,
}
use steamos_log_submitter.Base.Dict.{Dict, insert}
use steamos_log_submitter.Util.Release.{strip, is_space}
use steamos_log_submitter.Helper.Switches.{get_on, on_or_off}
use steamos_log_submitter.Config.{Config, get_item, set_item, write_config}
use steamos_log_submitter.Trace.{split_lines}
use steamos_log_submitter.Sysinfo.Edid.{Info, parse_edid, drop}

-- `SysinfoType.enabled` and `enable`, for the snake case of the type's name
unfoldable pub type_enabled : String → Config → Bool
type_enabled name c = get_on (get_item [] "helpers.sysinfo" (name <> ".enabled") c)

unfoldable pub enable_type : String → Bool → Config → Result (Unit {0}) × Config
enable_type name enabled c =
    write_config (set_item "helpers.sysinfo" (name <> ".enabled") (on_or_off enabled) c)

-- `SysinfoHelper.list`: None for any exception
unfoldable pub list_or_none {ℓ} : {A : Type ℓ} → Result A → Option A
list_or_none (ok a) = some a
list_or_none (raise e) = none

abbrev pub Fields : Type 0
Fields = List (String × Text)

abbrev pub is_text : Option Text → Bool
is_text none = false
is_text (some []) = false
is_text (some (c ∷ s)) = true

abbrev pub or_nothing : Option Text → Text
or_nothing none = []
or_nothing (some s) = s

abbrev pub with_field : String → Option Text → Fields → Fields
with_field key none fields = fields
with_field key (some s) fields = fields ++ ((key, s) ∷ [])

abbrev pub kept {ℓ} : {A : Type ℓ} → Option A → List A → List A
kept none rest = rest
kept (some a) rest = a ∷ rest

-- `UsbType.list`
module _ (read : Text → Result (Option Text)) where
  abbrev pub usb : Text
  usb = codes "/sys/bus/usb/devices/"

  abbrev pub usb_names : Text → Text → Text → Result (Option Fields)
  usb_names dev vid pid = read (usb ++ (dev ++ codes "/manufacturer")) >>= λ manufacturer.
      read (usb ++ (dev ++ codes "/product")) >>= λ product. ok (
        some (
          with_field "product" product
            (with_field "manufacturer" manufacturer (("vid", vid) ∷ ("pid", pid) ∷ []))))

  unfoldable pub usb_device : Text → Result (Option Fields)
  usb_device dev =
      if begins_with dev (codes "usb")
      then ok none
      else (read (usb ++ (dev ++ codes "/idVendor")) >>= λ vid.
          read (usb ++ (dev ++ codes "/idProduct")) >>= λ pid.
          if is_text vid && is_text pid
          then usb_names dev (or_nothing vid) (or_nothing pid)
          else ok none)

  unfoldable pub each_usb : List Text → Result (List Fields)
  each_usb [] = ok []
  each_usb (dev ∷ devs) = usb_device dev >>= λ d. each_usb devs >>= λ rest. ok (kept d rest)

  -- for what `os.listdir` gives
  abbrev pub usb_list : Result (List Text) → Result (List Fields)
  usb_list devs = devs >>= each_usb

-- `re.match(r'card\d+-', dev)`
abbrev pub is_digit : ℕ → Bool
is_digit c = leb b'0' c && leb c b'9'

unfoldable pub digits_dash : Text → Bool
digits_dash [] = false
digits_dash (c ∷ s) = let rest = digits_dash s in if is_digit c then rest else nat_eq c b'-'

abbrev pub digit_first : Text → Bool
digit_first [] = false
digit_first (c ∷ s) = is_digit c && digits_dash s

unfoldable pub is_card : Text → Bool
is_card dev = begins_with dev (codes "card") && digit_first (drop 4 dev)

-- One device of `MonitorsType.list`: its modes, its EDID in hexadecimal, and what is in it.
pub record Monitor : Type 0 where
  pub modes : Option (List Text)
  pub edid : Option Text
  pub parsed : Option Info

abbrev pub has_info : Monitor → Bool
has_info m = elim m.modes [
  | some modes ↦ true
  | none ↦ elim m.edid [ some edid ↦ true | none ↦ false ]
]

abbrev pub lines_of : Option Text → Option (List Text)
lines_of none = none
lines_of (some modes) = some (split_lines modes)

-- `hex` is that of Python's bytes.
abbrev pub described : (List ℕ → Text) → Option (List Text) → Option (List ℕ) → Monitor
described hex modes none = record { modes = modes; edid = none; parsed = none }
described hex modes (some []) = record { modes = modes; edid = none; parsed = none }
described hex modes (some (b ∷ bytes)) = record {
  modes = modes;
  edid = some (hex (b ∷ bytes));
  parsed = parse_edid (b ∷ bytes);
}

module _ (read : Text → Result (Option Text)) (hex : List ℕ → Text) where
  abbrev pub drm : Text
  drm = codes "/sys/class/drm/"

  unfoldable pub monitor : Text → Result (Option Monitor)
  monitor dev =
      if is_card dev
      then (read (drm ++ (dev ++ codes "/modes")) >>= λ modes.
          read (drm ++ (dev ++ codes "/edid")) >>= λ edid.
          let info = described hex (lines_of modes) edid in
          ok (if has_info info then some info else none))
      else ok none

  unfoldable pub each_monitor : List Text → Result (List Monitor)
  each_monitor [] = ok []
  each_monitor (dev ∷ devs) = monitor dev >>= λ d. each_monitor devs >>= λ rest. ok (kept d rest)

-- `line.split(':')[-1].strip()`
abbrev pub after_colon : Option Text → Text → Text
after_colon none line = line
after_colon (some rest) line = drop 1 rest

abbrev pub last_field : Text → Text
last_field line = strip is_space (after_colon (from_last b':' line) line)

-- `SystemType.get_ram`: the loop over the lines of /proc/meminfo
pub record Ram : Type 0 where
  pub mem : Option Text
  pub swap : Option Text

abbrev pub read_line : Text → Ram → Ram
read_line line ram =
    if begins_with line (codes "MemTotal")
    then record ram { mem = some (last_field line) }
    else if begins_with line (codes "SwapTotal")
    then record ram { swap = some (last_field line) }
    else ram

unfoldable pub ram_loop : List Text → Ram → Ram
ram_loop [] ram = ram
ram_loop (line ∷ lines) ram =
    let ram' = read_line line ram in
    let rest = ram_loop lines ram' in if is_text ram'.mem && is_text ram'.swap then ram' else rest

unfoldable pub get_ram : Result (List Text) → Ram
get_ram (ok lines) = ram_loop lines (record { mem = none; swap = none })
get_ram (raise e) = record { mem = none; swap = none }

-- `SystemType.get_vram`: the line after the one with the heading, of what eglinfo prints
unfoldable pub vram_loop : Bool → List Text → Option Text
vram_loop next_line [] = none
vram_loop true (line ∷ lines) = some (last_field line)
vram_loop false (line ∷ lines) =
    vram_loop (begins_with line (codes "Memory info (GL_NVX_gpu_memory_info)")) lines

unfoldable pub get_vram : Result (List Text) → Option Text
get_vram (ok lines) = vram_loop false lines
get_vram (raise e) = none

-- `SystemType.list`, with what the functions of util.py gave. The branch, the build and the version
-- may be None; the last part is `get_dmi_info`, whose own exceptions are caught if they are an
-- OSError.
pub record SystemInfo : Type 0 where
  pub branch : Option Text
  pub build : Option Text
  pub version : Option Text
  pub devmode : Bool
  pub vram : Option Text
  pub mem : Option Text
  pub swap : Option Text
  pub dmi : Dict String

abbrev pub if_text : Option Text → Option Text
if_text none = none
if_text (some []) = none
if_text (some (c ∷ s)) = some (c ∷ s)

abbrev pub is_os_error : Exc → Bool
is_os_error file_not_found = true
is_os_error permission = true
is_os_error os_error = true
is_os_error _ = false

abbrev pub dmi_or_none : Result (Dict String) → Result (Dict String)
dmi_or_none (ok info) = ok info
dmi_or_none (raise e) = if is_os_error e then ok [] else raise e

unfoldable pub system_list :
    Option Text
    → Option Text
    → Option Text
    → Bool
    → Option Text
    → Ram
    → Result (Dict String)
    → Result SystemInfo
system_list branch build version devmode vram ram dmi = dmi_or_none dmi >>= λ info. ok (record {
  branch = branch;
  build = build;
  version = version;
  devmode = devmode;
  vram = if_text vram;
  mem = if_text ram.mem;
  swap = if_text ram.swap;
  dmi = info;
})

-- `AudioType.list`: a card as ALSA describes it, with the values of its controls named
-- `Headphone Jack`; the last one stays.
pub record Card : Type 0 where
  pub id : Text
  pub card : ℕ
  pub name : Text
  pub mixer : Text
  pub controls : List (Text × Bool)

pub record Audio : Type 0 where
  pub id : Text
  pub card : ℕ
  pub name : Text
  pub mixer : Text
  pub headphones : Option Bool

unfoldable pub headphones_of : List (Text × Bool) → Option Bool → Option Bool
headphones_of [] last = last
headphones_of ((name, value) ∷ controls) last =
    headphones_of controls (if text_eq name (codes "Headphone Jack") then some value else last)

unfoldable pub audio_list : List Card → List Audio
audio_list [] = []
audio_list (c ∷ cards) =
    record {
      id = c.id;
      card = c.card;
      name = c.name;
      mixer = c.mixer;
      headphones = headphones_of c.controls none;
    }
    ∷ audio_list cards
