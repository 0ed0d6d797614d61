-- ===== src/Sysinfo/Devices/Converted.antt =====
-- The loop over `conversions`: a device has an entry for each property that there is.
use steamos_log_submitter.Base.{
  String, Bool, true, false, List, [], ◌∷◌, Option, none, some, Result, ok, raise, Exc, All,
  Distinct, contains, ◌==◌, eq_iff, ◌≡◌, refl, ◌∙◌, arith,
}
use steamos_log_submitter.Base.Dict.{Dict, insert, lookup, lookup-insert, lookup-insert_self}
use steamos_log_submitter.Base.Json.{Json}
use steamos_log_submitter.Sysinfo.Devices.{Value, Convert, Row, converted, note, convert_all}

abbrev pub keys : List Row → List String
keys [] = []
keys ((name, key, c) ∷ rows) = key ∷ keys rows

abbrev pub found : Result Json → Option Json
found (ok j) = some j
found (raise e) = none

-- The loop goes on after it.
abbrev pub IsIgnored : (Exc → Bool) → Result Json → Type 0
IsIgnored caught (ok j) = Unit
IsIgnored caught (raise e) = caught e ≡ true

abbrev AllNew : Dict Json → List Row → Type 0
AllNew d [] = Unit
AllNew d ((name, key, c) ∷ rows) = (lookup key d ≡ none) × AllNew d rows

AllNew-insert :
    (key : String) (j : Json) (d : Dict Json) (rows : List Row)
    → contains (keys rows) key ≡ false
    → AllNew d rows
    → AllNew (insert key j d) rows
AllNew-insert key j d [] h new = tt
AllNew-insert key j d ((name, k, c) ∷ rows) h (one, new) = (
  rw lookup-insert (ground (arith, eq_iff key k, eq_iff k key)),
  AllNew-insert key j d rows (ground arith) new,
)

AllNew-nil : (rows : List Row) → AllNew [] rows
unfolding lookup
AllNew-nil [] = tt
AllNew-nil ((name, key, c) ∷ rows) = (refl, AllNew-nil rows)

module _ (convert : Convert → Value → Result Json) (caught : Exc → Bool)
    (property : String → Result Value) where
  -- Each row has its entry, and nothing else has changed.
  abbrev pub Entered : List Row → Dict Json → Dict Json → Type 0
  Entered rows d d' =
      All (λ row. lookup row.1 d' ≡ found (converted convert property row)) rows
      × ((k : String) → contains (keys rows) k ≡ false → lookup k d' ≡ lookup k d)

  noted :
      (name key : String) (c : Convert) (r : Result Json) (d : Dict Json) (rows : List Row)
      → contains (keys rows) key ≡ false
      → lookup key d ≡ none
      → AllNew d rows
      → IsIgnored caught r
      → (d' : Dict Json) × (note convert caught (name, key, c) r d ≡ ok d')
        × (lookup key d' ≡ found r)
        × ((k : String) → (key == k) ≡ false → lookup k d' ≡ lookup k d)
        × AllNew d' rows
  noted name key c (ok j) d rows fresh one new h = (
    insert key j d,
    refl,
    lookup-insert_self key j d,
    (λ k differ. rw (lookup-insert, differ) refl),
    AllNew-insert key j d rows fresh new,
  )
  noted name key c (raise e) d rows fresh one new h = (d, rw h refl, one, (λ k differ. refl), new)

  convert_all-Entered :
      (rows : List Row) (d : Dict Json)
      → Distinct (keys rows)
      → AllNew d rows
      → All (λ row. IsIgnored caught (converted convert property row)) rows
      → (d' : Dict Json) × (convert_all convert caught property rows d ≡ ok d') × Entered rows d d'
  unfolding convert_all
  convert_all-Entered [] d distinct new ignored = (d, refl, (tt, λ k h. refl))
  convert_all-Entered ((name, key, c) ∷ rows) d (fresh, distinct) (one, new) (first, ignored) =
      let (d1, is, entry, same, new1) =
        noted name key c (converted convert property (name, key, c)) d rows fresh one new first in
      let (d', rest, (entries, others)) = convert_all-Entered rows d1 distinct new1 ignored in
      (
        d',
        rw is rest,
        (
          (others key fresh ∙ entry, entries),
          λ k h. others k (ground arith) ∙ same k (ground arith),
        ),
      )

  -- For conversions with different keys, where every property can be read and converted or raises an
  -- exception that the loop ignores: the loop raises nothing, and the dict that it builds has for
  -- each row an entry with the converted value if there is one, none if there is not, and no other
  -- entry.
  pub convert_all_lem :
      (rows : List Row)
      → Distinct (keys rows)
      → All (λ row. IsIgnored caught (converted convert property row)) rows
      → (d : Dict Json) × (convert_all convert caught property rows [] ≡ ok d) × Entered rows [] d
  convert_all_lem rows distinct ignored =
      convert_all-Entered rows [] distinct (AllNew-nil rows) ignored
