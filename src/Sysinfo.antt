-- ===== src/Sysinfo.antt =====
-- steamos_log_submitter/helpers/sysinfo.py: what the types of devices list is gathered in a cache,
-- and once in an interval the cache becomes a log.
pub mod Aligned
pub mod Merged
pub mod Private
pub mod Devices
pub mod Local
pub mod Mounts
pub mod Edid
mod Tests
use Prim.Native.String.{compare}
use text.Mathlib.Text.{is_lt}
use steamos_log_submitter.Base.{
  ℕ, zero, suc, ◌+◌, String, Bool, true, false, not, ◌&&◌, ◌||◌, List, [], ◌∷◌, ◌++◌, map, Option,
  none, some, leb, ltb, contains, if◌then◌else◌, ◌==◌,
}
use steamos_log_submitter.Base.Dict.{Dict, lookup, insert, remove, has}
use steamos_log_submitter.Base.Json.{Json, num, arr, obj, Items, nil, cons, Fields, end, field}

-- An entry of `device_types`: whether it is enabled, its version, and what its `list` gives, none
-- for None or an exception.
pub record DeviceType : Type 0 where
  pub enabled : Bool
  pub version : ℕ
  pub listed : Option Json

-- `asyncio.gather` over the enabled types, in their order
unfoldable pub gather : Dict DeviceType → List (Option Json)
gather [] = []
gather ((name, t) ∷ types) = let rest = gather types in if t.enabled then t.listed ∷ rest else rest

-- the dict comprehension over `zip`, for names that are all different
unfoldable pub zip_devices : Dict DeviceType → List (Option Json) → Dict Json
zip_devices [] results = []
zip_devices (t ∷ types) [] = []
zip_devices ((name, t) ∷ types) (none ∷ results) = zip_devices types results
zip_devices ((name, t) ∷ types) (some j ∷ results) = (name, j) ∷ zip_devices types results

-- `devices`, for the sorted types
unfoldable pub devices : Dict DeviceType → Dict Json
devices types = zip_devices types (gather types)

-- `sorted(dev.items())`
abbrev pub insert_sorted : String → Json → Fields → Fields
insert_sorted k v end = field k v end
insert_sorted k v (field j w fs) =
    if is_lt (compare k j) then field k v (field j w fs) else field j w (insert_sorted k v fs)

abbrev pub sorted_fields : Fields → Fields
sorted_fields end = end
sorted_fields (field k v fs) = insert_sorted k v (sorted_fields fs)

-- `d[k] = v`
abbrev pub set_field : String → Json → Fields → Fields
set_field k v end = field k v end
set_field k v (field j w fs) = if j == k then field j v fs else field j w (set_field k v fs)

abbrev pub versioned : ℕ → Json → Json
versioned version (obj fs) = obj (sorted_fields (set_field "_version" (num version) fs))
versioned version dev = dev

abbrev pub each : ℕ → Items → List Json
each version nil = []
each version (cons dev devs) = versioned version dev ∷ each version devs

-- The devices that a listing adds; one dict is not sorted.
unfoldable pub listing : ℕ → Json → List Json
listing version (arr devs) = each version devs
listing version (obj fs) = obj (set_field "_version" (num version) fs) ∷ []
listing version _ = []

-- `devs[key] = True`, in an ordered dict
abbrev pub add_key : List String → String → List String
add_key keys key = if contains keys key then keys else keys ++ (key ∷ [])

unfoldable pub add_keys : List String → List String → List String
add_keys keys [] = keys
add_keys keys (k ∷ more) = add_keys (add_key keys k) more

-- `json.dumps` and `json.loads`
module _ (dumps : Json → String) (loads : String → Json) where
  -- The new list of a section, from the cached one and what was listed.
  unfoldable pub merge : List Json → List Json → List Json
  merge old new = map loads (add_keys (add_keys [] (map dumps old)) (map dumps new))

  abbrev pub cached : Option (List Json) → List Json
  cached none = []
  cached (some devs) = devs

  abbrev pub version_of : Option DeviceType → ℕ
  version_of none = 0
  version_of (some t) = t.version

  -- the loop over `devices`
  unfoldable pub merge_all : Dict DeviceType → Dict Json → Dict (List Json) → Dict (List Json)
  merge_all types [] known = known
  merge_all types ((section, value) ∷ rest) known = merge_all types rest (
      insert section
        (merge (cached (lookup section known)) (listing (version_of (lookup section types)) value))
        known)

-- `del known[name]` for the types that are not enabled
unfoldable pub without_disabled : Dict DeviceType → Dict (List Json) → Dict (List Json)
without_disabled [] known = known
without_disabled ((name, t) ∷ types) known =
    without_disabled types (if t.enabled then known else remove name known)

-- What the helper keeps: the cache file, none if it is not there or is no JSON, the time of the last
-- log, none for no number, and the logs by their time.
pub record Kept : Type 0 where
  pub cache : Option (Dict (List Json))
  pub timestamp : Option ℕ
  pub logs : List (ℕ × Dict (List Json))

abbrev pub or_empty : Option (Dict (List Json)) → Dict (List Json)
or_empty none = []
or_empty (some known) = known

abbrev pub is_due : ℕ → ℕ → Option ℕ → Bool
is_due now interval none = false
is_due now interval (some timestamp) = leb (timestamp + interval) now

-- `not timestamp`
abbrev pub is_unset : Option ℕ → Bool
is_unset none = true
is_unset (some zero) = true
is_unset (some (suc n)) = false

-- `collect` once the cache is merged; all files can be written.
unfoldable pub store : Dict DeviceType → ℕ → ℕ → Dict (List Json) → Kept → Kept
store types now interval known k =
    if is_due now interval k.timestamp
    then record {
      cache = none;
      timestamp = some now;
      logs = k.logs ++ ((now, without_disabled types known) ∷ []);
    }
    else record k {
      cache = some known;
      timestamp = if is_unset k.timestamp then some now else k.timestamp;
    }

unfoldable pub collect : (Json → String) → (String → Json) → Dict DeviceType → ℕ → ℕ → Kept → Kept
collect dumps loads types now interval k =
    store types now interval (merge_all dumps loads types (devices types) (or_empty k.cache)) k
