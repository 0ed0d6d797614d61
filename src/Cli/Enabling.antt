-- ===== src/Cli/Enabling.antt =====
-- `enable-helper` and `disable-helper`, from the command line to the objects of the daemon.
use mathlib.Core.Bool.{false≢true}
use steamos_log_submitter.Base.{
  String, Bool, true, false, not, ◌&&◌, List, [], ◌∷◌, map, some, Text, text_eq, text_eq_refl,
  text_eq_sym, eq_of_text_eq, Result, All, ◌≡◌, refl, sym, ap, ◌∙◌, arith, Bool-cases, inl, inr,
}
use steamos_log_submitter.Base.Json.{Json}
use steamos_log_submitter.Exceptions.{returned, command}
use steamos_log_submitter.Helper.Names.{member}
use steamos_log_submitter.Client.{
  helper_path, Bus, client_list, validate_helpers, with_paths, helper_objects, state_of, set_each,
  set_helpers_enabled, enable_helpers,
}
use steamos_log_submitter.Client.Sets.{
  text_ltb, insert_sorted, sorted_set, common, missing, validated, IsIncreasing, member-validated,
}
use steamos_log_submitter.Client.Paths.{Named, IsNamed, name_of, helper_objects-helper_path}
use steamos_log_submitter.Cli.{complain, set_helper_enabled}

text_ltb_irrefl : (s : Text) → text_ltb s s ≡ false
unfolding text_ltb
text_ltb_irrefl [] = refl
text_ltb_irrefl (a ∷ s) = ground (arith, text_ltb_irrefl s)

text_ltb-differ : (s t : Text) → text_ltb s t ≡ true → text_eq s t ≡ false
text_ltb-differ s t h = elim (Bool-cases (text_eq s t)) [
  | inl same ↦
      let e : s ≡ t = eq_of_text_eq s t same in
      let self : text_ltb s s ≡ true = rw (ap (text_ltb s) e) h in
      absurd (false≢true (sym (text_ltb_irrefl s) ∙ self))
  | inr differ ↦ differ
]

-- A set that is in order stays as it is.
sorted_set-IsIncreasing_id : (xs : List Text) → IsIncreasing xs → sorted_set xs ≡ xs
unfolding sorted_set insert_sorted
sorted_set-IsIncreasing_id [] h = refl
sorted_set-IsIncreasing_id (x ∷ []) h = refl
sorted_set-IsIncreasing_id (x ∷ y ∷ xs) (less, h) =
    ap (insert_sorted x) (sorted_set-IsIncreasing_id (y ∷ xs) h)
    ∙ rw (text_ltb-differ x y less, less) refl

-- Every element is one of `all`.
abbrev Within : List Text → List Text → Type 0
Within all xs = All (λ x. member x all ≡ true) xs

common-Within : (all xs : List Text) → Within all xs → common all xs ≡ xs
unfolding common
common-Within all [] h = refl
common-Within all (x ∷ xs) (one, h) = rw one (ap (λ r. x ∷ r) (common-Within all xs h))

missing-Within : (all xs : List Text) → Within all xs → missing all xs ≡ []
unfolding missing
missing-Within all [] h = refl
missing-Within all (x ∷ xs) (one, h) = rw one (missing-Within all xs h)

-- Membership carries over to a predicate on all elements.
Within-members :
    (all xs ys : List Text)
    → ((k : Text) → member k ys ≡ true → member k all ≡ true)
    → ((k : Text) → member k xs ≡ true → member k ys ≡ true)
    → Within all xs
Within-members all [] ys h g = tt
Within-members all (x ∷ xs) ys h g = (
  h x (g x (ground (arith, text_eq_refl x))),
  Within-members all xs ys h (λ k there. g k (ground arith)),
)

sorted_set-nil : sorted_set [] ≡ []
unfolding sorted_set
sorted_set-nil = refl

-- What was found to be valid is valid.
validated-validated :
    (all requested : List Text)
    → validated all (validated all requested).0 ≡ ((validated all requested).0, [])
unfolding validated
validated-validated all requested =
    let valid = (validated all requested).0 in
    let (at_all, none_at, increasing, others) = member-validated [] all requested in
    let within =
      Within-members all valid valid
        (λ k is. let (at, none_at, up, others) = member-validated k all requested in ground arith)
        (λ k is. is) in
    rw (common-Within all valid within, missing-Within all valid within)
      (rw (sorted_set-IsIncreasing_id valid increasing, sorted_set-nil) refl)

-- All helpers get the same state.
abbrev same_state : Bool → List Text → List (Text × Bool)
same_state state helpers = map (λ helper. (helper, state)) helpers

names_of-same_state :
    (state : Bool) (helpers : List Text) → map (λ h. h.0) (same_state state helpers) ≡ helpers
names_of-same_state state [] = refl
names_of-same_state state (helper ∷ helpers) =
    ap (λ r. helper ∷ r) (names_of-same_state state helpers)

state_of-same_state :
    (state : Bool) (helper : Text) (helpers : List Text)
    → member helper helpers ≡ true
    → state_of helper (same_state state helpers) ≡ some state
unfolding state_of
state_of-same_state state helper [] h = cc
state_of-same_state state helper (name ∷ helpers) h =
    ground (arith, text_eq_sym helper name, state_of-same_state state helper helpers)

set_each-same_state :
    (loads : String → Result Json) (bus : Bus) (state : Bool) (all helpers : List Text)
    → ((path : Text) (b : Bool) → bus.set_enabled path b ≡ returned tt)
    → Within all helpers
    → set_each loads bus (same_state state all) (with_paths loads bus helpers)
      ≡ (returned tt, map (λ h. (helper_path h, state)) helpers)
unfolding set_each
set_each-same_state loads bus state all [] accepts h = refl
set_each-same_state loads bus state all (helper ∷ helpers) accepts (one, h) =
    rw (state_of-same_state state helper all one, set_each)
      (rw (accepts (helper_path helper) state, set_each)
        (rw (set_each-same_state loads bus state all helpers accepts h) refl))

members_self : (xs : List Text) → Within xs xs
members_self xs = Within-members xs xs xs (λ k h. h) (λ k h. h)

module _ (loads : String → Result Json) (bus : Bus) (show : Text → String) (state : Bool)
    (all valid : List Text) (listed : client_list loads bus ≡ returned all)
    (is_valid : validated all valid ≡ (valid, [])) where
  helper_objects-valid :
      helper_objects loads bus show (some (map (λ h. h.0) (same_state state valid)))
      ≡ returned (with_paths loads bus valid)
  unfolding helper_objects validate_helpers
  helper_objects-valid = rw (names_of-same_state state valid, listed) (rw is_valid refl)

  enable_helpers-valid :
      ((path : Text) (b : Bool) → bus.set_enabled path b ≡ returned tt)
      → enable_helpers loads bus show state valid
        ≡ (returned tt, map (λ h. (helper_path h, state)) valid)
  unfolding enable_helpers set_helpers_enabled command
  enable_helpers-valid accepts =
      rw (helper_objects-valid, set_helpers_enabled)
        (rw (set_each-same_state loads bus state valid valid accepts (members_self valid)) refl)

-- Let the helpers have names that are words with `_` between them, each a lower letter and then lower
-- letters and digits with a letter among them, let the daemon export one object for each of the
-- helpers that there are, and let these objects accept what is set. Then `enable-helper` and
-- `disable-helper` complain of exactly the requested names that are no helpers, raise nothing, and
-- set `Enabled` at the objects of exactly the requested helpers; both in strictly increasing order
-- of the names, so once for each.
pub set_helper_enabled_lem :
    (loads : String → Result Json) (bus : Bus) (show : Text → String) (ns : List Named)
    (requested : List Text) (state : Bool)
    → All IsNamed ns
    → bus.child_paths ≡ returned (map helper_path (map name_of ns))
    → ((path : Text) (b : Bool) → bus.set_enabled path b ≡ returned tt)
    → (valid invalid : List Text) × ((k : Text)
        → member k valid ≡ (member k requested && member k (map name_of ns)))
      × ((k : Text) → member k invalid ≡ (member k requested && not (member k (map name_of ns))))
      × IsIncreasing valid
      × IsIncreasing invalid
      × (set_helper_enabled loads bus show (map name_of ns) requested state
          ≡ (complain invalid, (returned tt, map (λ h. (helper_path h, state)) valid)))
unfolding set_helper_enabled
set_helper_enabled_lem loads bus show ns requested state named children accepts =
    let names = (helper_objects-helper_path loads bus show ns named children).0 in
    let all = map name_of ns in
    let (at_nil, none_at_nil, valid_up, invalid_up) = member-validated [] all requested in
    (
      (validated all requested).0,
      (validated all requested).1,
      (λ k. (member-validated k all requested).0),
      (λ k. (member-validated k all requested).1),
      valid_up,
      invalid_up,
      ap (λ r. (complain (validated all requested).1, r))
          (enable_helpers-valid loads bus show state all (validated all requested).0 names
            (validated-validated all requested) accepts),
    )
