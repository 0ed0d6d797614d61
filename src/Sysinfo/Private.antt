-- ===== src/Sysinfo/Private.antt =====
-- What a log of helpers/sysinfo.py leaves out.
use steamos_log_submitter.Base.{
  ℕ, String, true, false, List, [], ◌∷◌, ◌++◌, none, some, ◌≡◌, refl, arith, eq_iff,
}
use steamos_log_submitter.Base.Dict.{Dict, lookup, remove, lookup-remove}
use steamos_log_submitter.Base.Json.{Json}
use steamos_log_submitter.Sysinfo.{
  DeviceType, devices, merge_all, without_disabled, Kept, is_due, or_empty, store, collect,
}

without_disabled-none :
    (types : Dict DeviceType) (known : Dict (List Json)) (name : String)
    → lookup name known ≡ none
    → lookup name (without_disabled types known) ≡ none
unfolding without_disabled
without_disabled-none [] known name h = h
without_disabled-none ((n, t) ∷ types) known name h = ground (
  arith,
  lookup-remove n name known,
  without_disabled-none types known name h,
  without_disabled-none types (remove n known) name,
)

lookup-without_disabled :
    (types : Dict DeviceType) (known : Dict (List Json)) (name : String) (t : DeviceType)
    → lookup name types ≡ some t
    → t.enabled ≡ false
    → lookup name (without_disabled types known) ≡ none
unfolding without_disabled lookup
lookup-without_disabled [] known name t h off = cc
lookup-without_disabled ((n, u) ∷ types) known name t h off = ground (
  arith,
  eq_iff n name,
  lookup-remove n name known,
  without_disabled-none types (remove n known) name,
  lookup-without_disabled types known name t,
  lookup-without_disabled types (remove n known) name t,
)

-- A collection that is due adds one log, and that log has no section of a type that is disabled,
-- whatever the cache had for it and wherever the listings were filed.
pub collect-without_disabled :
    (dumps : Json → String) (loads : String → Json) (types : Dict DeviceType) (now interval : ℕ)
    (k : Kept) (name : String) (t : DeviceType)
    → is_due now interval k.timestamp ≡ true
    → lookup name types ≡ some t
    → t.enabled ≡ false
    → (known : Dict (List Json)) × ((collect dumps loads types now interval k).logs
        ≡ k.logs ++ ((now, known) ∷ []))
      × (lookup name known ≡ none)
unfolding collect store
collect-without_disabled dumps loads types now interval k name t due there off =
    let known = merge_all dumps loads types (devices types) (or_empty k.cache) in
    (
      without_disabled types known,
      rw due refl,
      lookup-without_disabled types known name t there off,
    )
