-- ===== src/DataStore/Laws.antt =====
-- What is set is read back, also after a restart.
use steamos_log_submitter.Base.{
  String, true, false, ◌≡◌, refl, arith, ◌==◌, ok, if◌then◌else◌, Bool-cases, inl, inr,
}
use steamos_log_submitter.Base.Dict.{Dict, lookup, lookup-insert, lookup-insert_self}
use steamos_log_submitter.DataStore.{
  DataStore, Files, loaded, open_store, get_item, set_item, write,
}

module _ {V : Type 0} where
  -- A value that is set is read back, and no other name reads differently.
  pub get_item-set_item :
      (d : DataStore V) (name other : String) (v : V)
      → get_item (set_item name v d) other ≡ (if name == other then ok v else get_item d other)
  unfolding get_item set_item
  get_item-set_item d name other v = rw lookup-insert (ground arith)

  -- The store agrees with its file, unless it is marked as changed.
  abbrev pub IsSynced : DataStore V → Files V → Type 0
  IsSynced d files = d.dirty ≡ false → loaded (lookup d.name files.stored) ≡ d.entries

  open_store-IsSynced :
      (name : String) (defaults : Dict V) (files : Files V)
      → IsSynced (open_store name defaults files) files
  unfolding open_store
  open_store-IsSynced name defaults files clean = refl

  set_item-IsSynced :
      (d : DataStore V) (files : Files V) (name : String) (v : V)
      → IsSynced (set_item name v d) files
  unfolding set_item
  set_item-IsSynced d files name v clean = cc

  -- A store that agrees with its file or is marked as changed is written without an error. Opened
  -- anew from the files that this leaves, a store of that name with the same defaults reads the same
  -- under every name.
  pub get_item-reopen :
      (d : DataStore V) (files : Files V) (name : String)
      → files.writable ≡ true
      → IsSynced d files
      → get_item (open_store d.name d.defaults (write d files).2) name ≡ get_item d name
  unfolding get_item open_store write
  get_item-reopen d files name may synced = elim (Bool-cases d.dirty) [
    | inl changed ↦ rw (changed, may) (rw lookup-insert_self refl)
    | inr clean ↦ rw clean (rw (synced clean) refl)
  ]
