-- ===== src/DataStore/Tests.antt =====
-- The theorems about stores at a concrete store.
use steamos_log_submitter.Base.{arith, ℕ, [], ◌∷◌, true, ◌≡◌, refl, ok}
use steamos_log_submitter.DataStore.{DataStore, Files, open_store, get_item, set_item, write}
use steamos_log_submitter.DataStore.Laws.{get_item-set_item, get_item-reopen}

abbrev store : DataStore ℕ
store = record {
  name = "sls";
  defaults = ("retries", 3) ∷ [];
  entries = ("timestamp", 5) ∷ [];
  dirty = true;
}

abbrev files : Files ℕ
files = record { stored = ("sls", ("timestamp", 4) ∷ []) ∷ []; writable = true }

set_then_get : get_item (set_item "timestamp" 9 store) "timestamp" ≡ ok 9
set_then_get = get_item-set_item store "timestamp" "timestamp" 9

reopened_run :
    get_item (open_store "sls" (("retries", 3) ∷ []) (write store files).2) "timestamp"
    ≡ get_item store "timestamp"
reopened_run = get_item-reopen store files "timestamp" refl (λ clean. ground arith)
