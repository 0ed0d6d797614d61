-- ===== src/Client/Sets.antt =====
-- The sets of names in client.py and helpers/__init__.py, `validate_helpers`: what is requested is
-- split into what there is and what there is not, each in order.
use steamos_log_submitter.Base.{
  Bool, true, false, not, ◌&&◌, ◌||◌, List, [], ◌∷◌, Text, text_eq, eq_of_text_eq, nat_eq, ltb,
  if◌then◌else◌, ◌≡◌, refl, arith,
}
use steamos_log_submitter.Helper.Names.{member}

-- `s < t` on texts, by code points
unfoldable pub text_ltb : Text → Text → Bool
text_ltb s [] = false
text_ltb [] (b ∷ t) = true
text_ltb (a ∷ s) (b ∷ t) = ltb a b || (nat_eq a b && text_ltb s t)

-- One more element of a set that is kept in order.
unfoldable pub insert_sorted : Text → List Text → List Text
insert_sorted x [] = x ∷ []
insert_sorted x (y ∷ ys) =
    if text_eq x y then y ∷ ys else if text_ltb x y then x ∷ y ∷ ys else y ∷ insert_sorted x ys

-- `sorted(set(xs))`
unfoldable pub sorted_set : List Text → List Text
sorted_set [] = []
sorted_set (x ∷ xs) = insert_sorted x (sorted_set xs)

-- `sorted(xs)`
unfoldable pub place : Text → List Text → List Text
place x [] = x ∷ []
place x (y ∷ ys) = if text_ltb y x then y ∷ place x ys else x ∷ y ∷ ys

unfoldable pub sorted : List Text → List Text
sorted [] = []
sorted (x ∷ xs) = place x (sorted xs)

-- `requested & all` and `requested - all`
unfoldable pub common : List Text → List Text → List Text
common all [] = []
common all (x ∷ requested) =
    let rest = common all requested in if member x all then x ∷ rest else rest

unfoldable pub missing : List Text → List Text → List Text
missing all [] = []
missing all (x ∷ requested) =
    let rest = missing all requested in if member x all then rest else x ∷ rest

unfoldable pub validated : List Text → List Text → List Text × List Text
validated all requested = (sorted_set (common all requested), sorted_set (missing all requested))

-- Each smaller than the next.
abbrev pub IsIncreasing : List Text → Type 0
IsIncreasing [] = Unit
IsIncreasing (x ∷ []) = Unit
IsIncreasing (x ∷ y ∷ xs) = (text_ltb x y ≡ true) × IsIncreasing (y ∷ xs)

-- Two different texts are in one order or the other.
text_ltb-total : (s t : Text) → text_eq s t ≡ false → text_ltb s t ≡ false → text_ltb t s ≡ true
unfolding text_ltb
text_ltb-total [] [] h k = cc
text_ltb-total [] (b ∷ t) h k = cc
text_ltb-total (a ∷ s) [] h k = refl
text_ltb-total (a ∷ s) (b ∷ t) h k = ground (arith, text_ltb-total s t)

insert_sorted-IsIncreasing :
    (x : Text) (xs : List Text) → IsIncreasing xs → IsIncreasing (insert_sorted x xs)
unfolding insert_sorted
insert_sorted-IsIncreasing x [] h = tt
insert_sorted-IsIncreasing x (y ∷ []) h = ground (arith, text_ltb-total x y)
insert_sorted-IsIncreasing x (y ∷ z ∷ xs) (first, h) =
    ground (arith, text_ltb-total x y, insert_sorted-IsIncreasing x (z ∷ xs) h)

sorted_set-IsIncreasing : (xs : List Text) → IsIncreasing (sorted_set xs)
unfolding sorted_set
sorted_set-IsIncreasing [] = tt
sorted_set-IsIncreasing (x ∷ xs) =
    insert_sorted-IsIncreasing x (sorted_set xs) (sorted_set-IsIncreasing xs)

member-insert_sorted :
    (k x : Text) (xs : List Text) → member k (insert_sorted x xs) ≡ (text_eq k x || member k xs)
unfolding insert_sorted
member-insert_sorted k x [] = refl
member-insert_sorted k x (y ∷ ys) = ground (arith, member-insert_sorted k x ys, eq_of_text_eq x y)

member-sorted_set : (k : Text) (xs : List Text) → member k (sorted_set xs) ≡ member k xs
unfolding sorted_set
member-sorted_set k [] = refl
member-sorted_set k (x ∷ xs) =
    ground (arith, member-insert_sorted k x (sorted_set xs), member-sorted_set k xs)

member-common :
    (k : Text) (all requested : List Text)
    → member k (common all requested) ≡ (member k requested && member k all)
unfolding common
member-common k all [] = refl
member-common k all (x ∷ requested) =
    ground (arith, member-common k all requested, eq_of_text_eq k x)

member-missing :
    (k : Text) (all requested : List Text)
    → member k (missing all requested) ≡ (member k requested && not (member k all))
unfolding missing
member-missing k all [] = refl
member-missing k all (x ∷ requested) =
    ground (arith, member-missing k all requested, eq_of_text_eq k x)

-- Of the names that are requested, those that there are come first and those that there are not come
-- second; a name is in the one list exactly if it is requested and there is such a helper, in the
-- other exactly if it is requested and there is none, and both lists are in strictly increasing
-- order, so that no name is there twice.
pub member-validated :
    (k : Text) (all requested : List Text)
    → let (valid, invalid) = validated all requested in
      (member k valid ≡ (member k requested && member k all))
      × (member k invalid ≡ (member k requested && not (member k all)))
      × IsIncreasing valid
      × IsIncreasing invalid
unfolding validated
member-validated k all requested = (
  rw member-sorted_set (member-common k all requested),
  rw member-sorted_set (member-missing k all requested),
  sorted_set-IsIncreasing (common all requested),
  sorted_set-IsIncreasing (missing all requested),
)
