-- ===== src/Minidump/Replaced.antt =====
-- What `str.replace` leaves no trace of.
use steamos_log_submitter.Base.{
  ℕ, zero, suc, Bool, true, false, ◌||◌, [], ◌∷◌, ◌++◌, Text, holds, begins_with, has_part, ◌≡◌,
  refl, sym, ap, ◌∙◌, ◌≢◌, arith, Bool-cases, inl, inr,
}
use mathlib.Core.Path.{subst}
use steamos_log_submitter.Minidump.{rest_length, replace_from}

-- The two texts have no character in common.
abbrev pub Apart : Text → Text → Type 0
Apart s [] = Unit
Apart s (b ∷ t) = (holds b s ≡ false) × Apart s t

replace_from_match :
    (old new : Text) (c : ℕ) (s : Text)
    → begins_with (c ∷ s) old ≡ true
    → replace_from zero old new (c ∷ s) ≡ new ++ replace_from (rest_length old) old new s
unfolding replace_from
replace_from_match old new c s h = rw (h, replace_from) refl

replace_from_other :
    (old new : Text) (c : ℕ) (s : Text)
    → begins_with (c ∷ s) old ≡ false
    → replace_from zero old new (c ∷ s) ≡ c ∷ replace_from zero old new s
unfolding replace_from
replace_from_other old new c s h = rw (h, replace_from) refl

-- A text that begins with a character of another that it shares none with.
begins_with-Apart :
    (a b : ℕ) (s t new : Text) → Apart (a ∷ new) (b ∷ t) → begins_with (a ∷ s) (b ∷ t) ≡ false
unfolding begins_with
begins_with-Apart a b s t new (h, _) = ground arith

true-≢-false : true ≢ false
true-≢-false h = cc

begins_with-replace_from :
    (old : Text) (a : ℕ) (new s t : Text)
    → Apart (a ∷ new) t
    → begins_with (replace_from zero old (a ∷ new) s) t ≡ true
    → begins_with s t ≡ true
unfolding begins_with replace_from
begins_with-replace_from old a new s [] h k = refl
begins_with-replace_from old a new [] (b ∷ t) h k = cc
begins_with-replace_from old a new (c ∷ s) (b ∷ t) (hb, ht) k =
    elim (Bool-cases (begins_with (c ∷ s) old)) [
      | inl match ↦
          let there : begins_with ((a ∷ new) ++ replace_from (rest_length old) old (a ∷ new) s)
                (b ∷ t)
              ≡ true =
            subst (λ r. begins_with r (b ∷ t) ≡ true) (replace_from_match old (a ∷ new) c s match)
              k in
          ground (arith, there, hb)
      | inr other ↦
          let there : begins_with (c ∷ replace_from zero old (a ∷ new) s) (b ∷ t) ≡ true =
            subst (λ r. begins_with r (b ∷ t) ≡ true) (replace_from_other old (a ∷ new) c s other)
              k in
          ground (arith, there, begins_with-replace_from old a new s t ht)
    ]

has_part_skip :
    (p r : Text) (o : ℕ) (os : Text)
    → holds o p ≡ false
    → has_part (p ++ r) (o ∷ os) ≡ has_part r (o ∷ os)
unfolding has_part begins_with
has_part_skip [] r o os h = refl
has_part_skip (x ∷ p) r o os h = ground (arith, has_part_skip p r o os)

has_part_cons : (c : ℕ) (s t : Text) → has_part (c ∷ s) t ≡ (begins_with (c ∷ s) t || has_part s t)
unfolding has_part
has_part_cons c s t = refl

or_false : (x y : Bool) → x ≡ false → y ≡ false → (x || y) ≡ false
or_false false false h k = refl
or_false true y h k = cc
or_false false true h k = cc

-- Where no match starts, what the result begins with the text has begun with.
head_kept :
    (old : Text) (a : ℕ) (new : Text) (c : ℕ) (s : Text) (b : ℕ) (t : Text)
    → Apart (a ∷ new) (b ∷ t)
    → begins_with (c ∷ s) old ≡ false
    → begins_with (c ∷ s) (b ∷ t) ≡ false
    → begins_with (c ∷ replace_from zero old (a ∷ new) s) (b ∷ t) ≡ false
head_kept old a new c s b t h other k =
    elim (Bool-cases (begins_with (c ∷ replace_from zero old (a ∷ new) s) (b ∷ t))) [
      | inr absent ↦ absent
      | inl there ↦ absurd (
          true-≢-false (
            sym (
              begins_with-replace_from old a new (c ∷ s) (b ∷ t) h (
                subst (λ r. begins_with r (b ∷ t) ≡ true)
                  (sym (replace_from_other old (a ∷ new) c s other)) there))
            ∙ k))
    ]

-- A text that shares no character with `new` is in the result only if it was there before.
pub has_part-replace_from :
    (n : ℕ) (old : Text) (a : ℕ) (new s : Text) (b : ℕ) (t : Text)
    → Apart (a ∷ new) (b ∷ t)
    → has_part s (b ∷ t) ≡ false
    → has_part (replace_from n old (a ∷ new) s) (b ∷ t) ≡ false
unfolding replace_from has_part
has_part-replace_from n old a new [] b t h k = k
has_part-replace_from (suc n) old a new (c ∷ s) b t h k =
    has_part-replace_from n old a new s b t h (ground (arith, k, has_part_cons c s (b ∷ t)))
has_part-replace_from zero old a new (c ∷ s) b t h k = elim (Bool-cases (begins_with (c ∷ s) old)) [
  | inl match ↦
      ap (λ r. has_part r (b ∷ t)) (replace_from_match old (a ∷ new) c s match)
      ∙ has_part_skip (a ∷ new) (replace_from (rest_length old) old (a ∷ new) s) b t h.0
      ∙ has_part-replace_from (rest_length old) old a new s b t h
          (ground (arith, k, has_part_cons c s (b ∷ t)))
  | inr other ↦
      ap (λ r. has_part r (b ∷ t)) (replace_from_other old (a ∷ new) c s other)
      ∙ or_false (begins_with (c ∷ replace_from zero old (a ∷ new) s) (b ∷ t))
          (has_part (replace_from zero old (a ∷ new) s) (b ∷ t))
          (head_kept old a new c s b t h other (ground (arith, k, has_part_cons c s (b ∷ t))))
          (has_part-replace_from zero old a new s b t h
            (ground (arith, k, has_part_cons c s (b ∷ t))))
]

-- A text that shares no character with what replaces it is not in the result.
pub has_part-replaced :
    (n o : ℕ) (os : Text) (a : ℕ) (new s : Text)
    → Apart (a ∷ new) (o ∷ os)
    → has_part (replace_from n (o ∷ os) (a ∷ new) s) (o ∷ os) ≡ false
unfolding replace_from has_part begins_with
has_part-replaced n o os a new [] h = refl
has_part-replaced (suc n) o os a new (c ∷ s) h = has_part-replaced n o os a new s h
has_part-replaced zero o os a new (c ∷ s) h = elim (Bool-cases (begins_with (c ∷ s) (o ∷ os))) [
  | inl match ↦
      ap (λ r. has_part r (o ∷ os)) (replace_from_match (o ∷ os) (a ∷ new) c s match)
      ∙ has_part_skip (a ∷ new) (replace_from (rest_length (o ∷ os)) (o ∷ os) (a ∷ new) s) o os h.0
      ∙ has_part-replaced (rest_length (o ∷ os)) o os a new s h
  | inr other ↦
      ap (λ r. has_part r (o ∷ os)) (replace_from_other (o ∷ os) (a ∷ new) c s other)
      ∙ or_false (begins_with (c ∷ replace_from zero (o ∷ os) (a ∷ new) s) (o ∷ os))
          (has_part (replace_from zero (o ∷ os) (a ∷ new) s) (o ∷ os))
          (head_kept (o ∷ os) a new c s o os h other other) (has_part-replaced zero o os a new s h)
]
