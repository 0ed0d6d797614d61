-- ===== src/Sysinfo/Merged.antt =====
-- The cache of helpers/sysinfo.py does not grow with what it has.
use steamos_log_submitter.Base.{
  String, true, ◌||◌, List, [], ◌∷◌, ◌++◌, map, ◌≡◌, refl, ap, ◌∙◌, arith, eq_iff, ◌==◌, contains,
  All, Bool-cases, inl, inr,
}
use steamos_log_submitter.Base.Json.{Json}
use steamos_log_submitter.Sysinfo.{add_key, add_keys, merge}
use text.Mathlib.TextPositions.{eq_refl}

contains-append :
    (xs ys : List String) (k : String) → contains (xs ++ ys) k ≡ (contains xs k || contains ys k)
contains-append [] ys k = refl
contains-append (x ∷ xs) ys k = ground (arith, contains-append xs ys k)

contains-add_key :
    (keys : List String) (m k : String) → contains (add_key keys m) k ≡ (contains keys k || m == k)
contains-add_key keys m k = ground (arith, contains-append keys (m ∷ []) k, eq_iff m k)

contains-add_keys_left :
    (keys more : List String) (k : String)
    → contains keys k ≡ true
    → contains (add_keys keys more) k ≡ true
unfolding add_keys
contains-add_keys_left keys [] k h = h
contains-add_keys_left keys (m ∷ more) k h =
    contains-add_keys_left (add_key keys m) more k (rw (contains-add_key, h) refl)

contains-add_keys_right :
    (keys more : List String) → All (λ k. contains (add_keys keys more) k ≡ true) more
unfolding add_keys
contains-add_keys_right keys [] = tt
contains-add_keys_right keys (m ∷ more) = (
  contains-add_keys_left (add_key keys m) more m
      (ground (arith, contains-add_key keys m m, eq_refl m)),
  contains-add_keys_right (add_key keys m) more,
)

add_keys_absorbed :
    (keys more : List String) → All (λ k. contains keys k ≡ true) more → add_keys keys more ≡ keys
unfolding add_keys
add_keys_absorbed keys [] h = refl
add_keys_absorbed keys (m ∷ more) (h, hs) = rw h (add_keys_absorbed keys more hs)

add_keys_last :
    (keys more : List String) (k : String)
    → add_keys keys (more ++ (k ∷ [])) ≡ add_key (add_keys keys more) k
unfolding add_keys
add_keys_last keys [] k = refl
add_keys_last keys (m ∷ more) k = add_keys_last (add_key keys m) more k

-- A list of keys that was built without repetition is built from itself.
add_key_fixed :
    (keys : List String) (k : String)
    → add_keys [] keys ≡ keys
    → add_keys [] (add_key keys k) ≡ add_key keys k
add_key_fixed keys k h = elim (Bool-cases (contains keys k)) [
  | inl old ↦ rw old h
  | inr new ↦ rw new (add_keys_last [] keys k ∙ ap (λ l. add_key l k) h ∙ rw new refl)
]

add_keys_fixed :
    (keys more : List String)
    → add_keys [] keys ≡ keys
    → add_keys [] (add_keys keys more) ≡ add_keys keys more
unfolding add_keys
add_keys_fixed keys [] h = h
add_keys_fixed keys (m ∷ more) h = add_keys_fixed (add_key keys m) more (add_key_fixed keys m h)

add_keys-nil : add_keys [] [] ≡ []
unfolding add_keys
add_keys-nil = refl

module _ (dumps : Json → String) (loads : String → Json) where
  -- `json.loads` gives back what `json.dumps` wrote.
  abbrev pub ComesBack : Json → Type 0
  ComesBack j = loads (dumps j) ≡ j

  abbrev IsDump : String → Type 0
  IsDump k = dumps (loads k) ≡ k

  map-dumps : (js : List Json) → All ComesBack js → All IsDump (map dumps js)
  map-dumps [] h = tt
  map-dumps (j ∷ js) (h, hs) = (ap dumps h, map-dumps js hs)

  All-last :
      (keys : List String) (k : String) → All IsDump keys → IsDump k → All IsDump (keys ++ (k ∷ []))
  All-last [] k h hk = (hk, tt)
  All-last (m ∷ keys) k (h, hs) hk = (h, All-last keys k hs hk)

  add_keys-All :
      (keys more : List String)
      → All IsDump keys
      → All IsDump more
      → All IsDump (add_keys keys more)
  unfolding add_keys
  add_keys-All keys [] h hs = h
  add_keys-All keys (m ∷ more) h (hm, hs) = elim (Bool-cases (contains keys m)) [
    | inl old ↦ rw old (add_keys-All keys more h hs)
    | inr new ↦ rw new (add_keys-All (keys ++ (m ∷ [])) more (All-last keys m h hm) hs)
  ]

  dumps-loads : (keys : List String) → All IsDump keys → map dumps (map loads keys) ≡ keys
  dumps-loads [] h = refl
  dumps-loads (k ∷ keys) (h, hs) = rw (h, dumps-loads keys hs) refl

  -- Devices that were merged into a section and are listed again, alike and in any number of them,
  -- leave the section as it is, its order too. `json.loads` gives back what `json.dumps` wrote of them.
  pub merge-merge :
      (old new : List Json)
      → All ComesBack old
      → All ComesBack new
      → merge dumps loads (merge dumps loads old new) new ≡ merge dumps loads old new
  unfolding merge
  merge-merge old new old_back new_back =
      let first = add_keys [] (map dumps old) in
      let keys = add_keys first (map dumps new) in
      let dumped : map dumps (map loads keys) ≡ keys = dumps-loads keys (
        add_keys-All first (map dumps new)
          (add_keys-All [] (map dumps old) tt (map-dumps old old_back)) (map-dumps new new_back)) in
      let fixed : add_keys [] keys ≡ keys =
        add_keys_fixed first (map dumps new) (add_keys_fixed [] (map dumps old) add_keys-nil) in
      ap (λ l. map loads (add_keys (add_keys [] l) (map dumps new))) dumped
      ∙ ap (λ l. map loads (add_keys l (map dumps new))) fixed
      ∙ ap (map loads)
          (add_keys_absorbed keys (map dumps new) (contains-add_keys_right first (map dumps new)))
