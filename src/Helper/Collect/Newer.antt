-- ===== src/Helper/Collect/Newer.antt =====
-- The collection against its independent description, and a second collection.
use mathlib.Core.List.{append-nil, append_assoc}
use steamos_log_submitter.Base.{
  ℕ, false, [], ◌∷◌, ◌++◌, Option, none, some, ◌≡◌, refl, ◌∙◌, arith, if◌then◌else◌, Bool-cases,
  inl, inr,
}
use steamos_log_submitter.Helper.Collect.{
  Stamp, Listing, Section, exceeds, raise_to, last_of, Scan, scan, updated, stamped, collect,
  later_than, latest,
}

newer-scan :
    (last : Option ℕ) (l : Listing) (sc : Scan)
    → (scan last l sc).newer ≡ sc.newer ++ later_than last l
unfolding scan
newer-scan last [] sc = rw append-nil
newer-scan last ((log, none) ∷ l) sc = newer-scan last l sc
newer-scan last ((log, some m) ∷ l) sc = newer-scan last l _ ∙ elim (Bool-cases (exceeds m last)) [
  | inl later ↦ rw later (rw append_assoc)
  | inr earlier ↦ rw earlier
]

newest-scan :
    (last : Option ℕ) (l : Listing) (sc : Scan) → (scan last l sc).newest ≡ latest sc.newest l
unfolding scan
newest-scan last [] sc = refl
newest-scan last ((log, none) ∷ l) sc = newest-scan last l sc
newest-scan last ((log, some m) ∷ l) sc = newest-scan last l _

-- The logs that a collection returns are exactly those, in the order of the listing, whose time of
-- modification is later than the one it stored before, or all with a time if it stored none.
pub collect-later_than :
    (l : Listing) (s : Section) → (collect l s).0 ≡ later_than (last_of s.newest) l
unfolding collect
collect-later_than l s = newer-scan (last_of s.newest) l _

-- No time of the list is later than `t`.
abbrev Upto : Option ℕ → Listing → Type 0
Upto t [] = Unit
Upto t ((log, none) ∷ l) = Upto t l
Upto t ((log, some m) ∷ l) = (exceeds m t ≡ false) × Upto t l

exceeds-raise_to : (m k : ℕ) (t : Option ℕ) → exceeds m t ≡ false → exceeds m (raise_to k t) ≡ false
exceeds-raise_to m k none h = cc
exceeds-raise_to m k (some t) h = ground arith

exceeds-latest :
    (l : Listing) (m : ℕ) (t : Option ℕ) → exceeds m t ≡ false → exceeds m (latest t l) ≡ false
exceeds-latest [] m t h = h
exceeds-latest ((log, none) ∷ l) m t h = exceeds-latest l m t h
exceeds-latest ((log, some k) ∷ l) m t h =
    exceeds-latest l m (raise_to k t) (exceeds-raise_to m k t h)

exceeds_self : (m : ℕ) (t : Option ℕ) → exceeds m (raise_to m t) ≡ false
exceeds_self m none = ground arith
exceeds_self m (some t) = ground arith

Upto-latest : (l : Listing) (t : Option ℕ) → Upto (latest t l) l
Upto-latest [] t = tt
Upto-latest ((log, none) ∷ l) t = Upto-latest l t
Upto-latest ((log, some m) ∷ l) t =
    (exceeds-latest l m (raise_to m t) (exceeds_self m t), Upto-latest l (raise_to m t))

later_than-nil : (t : Option ℕ) (l : Listing) → Upto t l → later_than t l ≡ []
later_than-nil t [] h = refl
later_than-nil t ((log, none) ∷ l) h = later_than-nil t l h
later_than-nil t ((log, some m) ∷ l) (h, u) = rw h (later_than-nil t l u)

exceeds_trans :
    (m k : ℕ) (t : Option ℕ)
    → exceeds m (some k) ≡ false
    → exceeds k t ≡ false
    → exceeds m t ≡ false
exceeds_trans m k none h g = cc
exceeds_trans m k (some t) h g = ground arith

Upto-weaken :
    (k : ℕ) (t : Option ℕ) (l : Listing) → exceeds k t ≡ false → Upto (some k) l → Upto t l
Upto-weaken k t [] h u = tt
Upto-weaken k t ((log, none) ∷ l) h u = Upto-weaken k t l h u
Upto-weaken k t ((log, some m) ∷ l) h (e, u) = (exceeds_trans m k t e h, Upto-weaken k t l h u)

Upto-none : (t : Option ℕ) (l : Listing) → Upto none l → Upto t l
Upto-none t [] u = tt
Upto-none t ((log, none) ∷ l) u = Upto-none t l u
Upto-none t ((log, some m) ∷ l) (e, u) = cc

-- What is stored after a collection.
abbrev stored : Option ℕ → Option Stamp → Option Stamp
stored top old = if updated top (last_of old) then stamped top else old

stored-bound :
    (top : Option ℕ) (old : Option Stamp) (l : Listing)
    → Upto top l
    → Upto (last_of (stored top old)) l × (updated top (last_of (stored top old)) ≡ false)
stored-bound none old l u = (Upto-none _ l u, refl)
stored-bound (some k) old l u = elim (Bool-cases (exceeds k (last_of old))) [
  | inl newer ↦ rw newer (u, ground arith)
  | inr older ↦ rw older (Upto-weaken k _ l older u, older)
]

newest-collect :
    (l : Listing) (s : Section) → (collect l s).1.newest ≡ stored (latest none l) s.newest
unfolding collect
newest-collect l s = rw newest-scan refl

-- A collection that finds nothing later than the stored time does nothing.
collect_idle :
    (l : Listing) (s : Section)
    → Upto (last_of s.newest) l
    → updated (latest none l) (last_of s.newest) ≡ false
    → collect l s ≡ ([], s)
unfolding collect
collect_idle l s u h = rw (newest-scan, newer-scan, h, later_than-nil _ l u) refl

-- A second collection of the same files returns no log, emits nothing, writes no configuration and
-- leaves the stored time as it is.
pub collect_twice : (l : Listing) (s : Section) → collect l (collect l s).1 ≡ ([], (collect l s).1)
collect_twice l s =
    let (bounded, old) = stored-bound (latest none l) s.newest l (Upto-latest l none) in
    collect_idle l (collect l s).1 (rw newest-collect bounded) (rw newest-collect old)
