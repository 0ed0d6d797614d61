-- ===== src/DataStore.antt =====
-- steamos_log_submitter/data.py: named stores with defaults, kept in one JSON file each. `V` is the
-- type of JSON values; what `json.dump` writes `json.load` reads back as it was.
pub mod Laws
mod Tests
use steamos_log_submitter.Base.{
  String, Bool, true, false, List, [], ◌∷◌, Option, none, some, Result, ok, raise, key_error, ◌==◌,
  if◌then◌else◌,
}
use steamos_log_submitter.Base.Dict.{Dict, lookup, insert, has}

pub record DataStore (V : Type 0) : Type 0 where
  pub name : String
  pub defaults : Dict V
  pub entries : Dict V
  pub dirty : Bool

-- The files below `data_root`, by the name of the store; none for one that is not there or cannot be
-- read. `writable` says whether opening one for writing succeeds.
pub record Files (V : Type 0) : Type 0 where
  pub stored : Dict (Dict V)
  pub writable : Bool

module _ {V : Type 0} where
  abbrev pub loaded : Option (Dict V) → Dict V
  loaded none = []
  loaded (some d) = d

  -- `DataStore.__init__`; a missing or unreadable file leaves the store empty.
  unfoldable pub open_store : String → Dict V → Files V → DataStore V
  open_store name defaults files = record {
    name = name;
    defaults = defaults;
    entries = loaded (lookup name files.stored);
    dirty = false;
  }

  abbrev pub found : Option V → Option V → Result V
  found (some v) other = ok v
  found none (some v) = ok v
  found none none = raise key_error

  unfoldable pub get_item : DataStore V → String → Result V
  get_item d name = found (lookup name d.entries) (lookup name d.defaults)

  unfoldable pub set_item : String → V → DataStore V → DataStore V
  set_item name v d = record d { entries = insert name v d.entries; dirty = true }

  -- `dict.update`
  abbrev pub update : Dict V → Dict V → Dict V
  update d [] = d
  update d ((k, v) ∷ more) = update (insert k v d) more

  unfoldable pub add_defaults : Dict V → DataStore V → DataStore V
  add_defaults defaults d = record d { defaults = update d.defaults defaults }

  -- `write`; true means that the file was written without an error.
  unfoldable pub write : DataStore V → Files V → Bool × DataStore V × Files V
  write d files =
      if d.dirty
      then (if files.writable
          then (
            true,
            record d { dirty = false },
            record files { stored = insert d.name d.entries files.stored },
          )
          else (false, d, files))
      else (true, d, files)

  -- `get_data`, after the module prefix is cut off: the datastore keeps one object for each name.
  abbrev pub shared :
      String → Dict V → Files V → Dict (DataStore V) → Option (DataStore V) → Dict (DataStore V)
  shared name defaults files datastore none = insert name (open_store name defaults files) datastore
  shared name [] files datastore (some d) = datastore
  shared name (x ∷ xs) files datastore (some d) = insert name (add_defaults (x ∷ xs) d) datastore

  unfoldable pub get_data : String → Dict V → Files V → Dict (DataStore V) → Dict (DataStore V)
  get_data name defaults files datastore =
      shared name defaults files datastore (lookup name datastore)
