-- ===== src/Base/Texts.antt =====
-- Texts as lists of code points, for the code that walks over them.
use Prim.Native.Nat.{ℕ}
use Prim.Native.Char.{code}
use Prim.Native.String.{String}
use mathlib.Core.Path.{◌≡◌, refl, ap, ◌∙◌}
use mathlib.Core.Bool.{Bool, true, false, ◌&&◌, ◌||◌}
use mathlib.Core.Option.{Option, none, some}
use mathlib.Core.List.{List, [], ◌∷◌, ◌++◌}
use native.Mathlib.Omega.{arith}
use mathlib.Core.Logic.{inl, inr}
use steamos_log_submitter.Base.Tests.{nat_eq, if◌then◌else◌, Bool-cases}

abbrev pub Text : Type 0
Text = List ℕ

-- The code points of a string literal.
abbrev pub codes : String → Text
codes String.[] = []
codes (String.◌∷◌ c s) = code c ∷ codes s

-- `s == t`
abbrev pub text_eq : Text → Text → Bool
text_eq [] [] = true
text_eq (a ∷ s) (b ∷ t) = nat_eq a b && text_eq s t
text_eq _ _ = false

pub text_eq_refl : (s : Text) → text_eq s s ≡ true
text_eq_refl [] = refl
text_eq_refl (a ∷ s) = ground (arith, text_eq_refl s)

pub eq_of_text_eq : (s t : Text) → text_eq s t ≡ true → s ≡ t
eq_of_text_eq [] [] h = refl
eq_of_text_eq [] (b ∷ t) h = cc
eq_of_text_eq (a ∷ s) [] h = cc
eq_of_text_eq (a ∷ s) (b ∷ t) h = ground (arith, eq_of_text_eq s t)

pub text_eq_sym : (s t : Text) → text_eq s t ≡ text_eq t s
text_eq_sym [] [] = refl
text_eq_sym [] (b ∷ t) = refl
text_eq_sym (a ∷ s) [] = refl
text_eq_sym (a ∷ s) (b ∷ t) = ground (arith, text_eq_sym s t)

-- `c in s`
abbrev pub holds : ℕ → Text → Bool
holds c [] = false
holds c (a ∷ s) = nat_eq a c || holds c s

-- `s[s.rfind(c):]`, or none if `c` is not in `s`
unfoldable pub from_last : ℕ → Text → Option Text
from_last c [] = none
from_last c (a ∷ s) = elim (from_last c s) [
  | some r ↦ some r
  | none ↦ if nat_eq a c then some (a ∷ s) else none
]

-- A text without `c` before and after its last `c`.
pub from_last-none : (c : ℕ) (s : Text) → holds c s ≡ false → from_last c s ≡ none
unfolding from_last
from_last-none c [] h = refl
from_last-none c (a ∷ s) h = ground (arith, from_last-none c s)

pub from_last-append :
    (c : ℕ) (s t : Text) → holds c t ≡ false → from_last c (s ++ (c ∷ t)) ≡ some (c ∷ t)
unfolding from_last
from_last-append c [] t h = ground (arith, from_last-none c t)
from_last-append c (a ∷ s) t h = rw (from_last-append c s t h) refl

-- `s[:s.rfind(c)]`, or none if `c` is not in `s`
unfoldable pub before_last : ℕ → Text → Option Text
before_last c [] = none
before_last c (a ∷ s) = elim (before_last c s) [
  | some r ↦ some (a ∷ r)
  | none ↦ if nat_eq a c then some [] else none
]

pub before_last-none : (c : ℕ) (s : Text) → holds c s ≡ false → before_last c s ≡ none
unfolding before_last
before_last-none c [] h = refl
before_last-none c (a ∷ s) h = ground (arith, before_last-none c s)

pub before_last-append :
    (c : ℕ) (s t : Text) → holds c t ≡ false → before_last c (s ++ (c ∷ t)) ≡ some s
unfolding before_last
before_last-append c [] t h = ground (arith, before_last-none c t)
before_last-append c (a ∷ s) t h = rw (before_last-append c s t h) refl

pub holds-append : (c : ℕ) (s t : Text) → holds c (s ++ t) ≡ (holds c s || holds c t)
holds-append c [] t = refl
holds-append c (a ∷ s) t = ground (arith, holds-append c s t)

-- `s.endswith(t)`
unfoldable pub ends_with : Text → Text → Bool
ends_with [] t = text_eq [] t
ends_with (a ∷ s) t = text_eq (a ∷ s) t || ends_with s t

-- `s.startswith(t)`
unfoldable pub begins_with : Text → Text → Bool
begins_with s [] = true
begins_with [] (b ∷ t) = false
begins_with (a ∷ s) (b ∷ t) = nat_eq a b && begins_with s t

-- `t in s`
unfoldable pub has_part : Text → Text → Bool
unfolding begins_with
has_part [] t = begins_with [] t
has_part (a ∷ s) t = begins_with (a ∷ s) t || has_part s t

-- A text without `c` neither begins with nor holds a text with it.
pub begins_with-holds :
    (c : ℕ) (s t : Text) → holds c s ≡ false → holds c t ≡ true → begins_with s t ≡ false
unfolding begins_with
begins_with-holds c s [] h k = cc
begins_with-holds c [] (b ∷ t) h k = refl
begins_with-holds c (a ∷ s) (b ∷ t) h k = ground (arith, begins_with-holds c s t)

pub has_part-holds :
    (c : ℕ) (s t : Text) → holds c s ≡ false → holds c t ≡ true → has_part s t ≡ false
unfolding has_part
has_part-holds c [] t h k = begins_with-holds c [] t h k
has_part-holds c (a ∷ s) t h k =
    ground (arith, begins_with-holds c (a ∷ s) t h k, has_part-holds c s t)

pub begins_with-append : (n rest : Text) → begins_with (n ++ rest) n ≡ true
unfolding begins_with
begins_with-append [] rest = refl
begins_with-append (c ∷ n) rest = ground (arith, begins_with-append n rest)

-- What is behind the beginning, and before the end.
pub begins_with-rest : (s t : Text) → begins_with s t ≡ true → (rest : Text) × (s ≡ t ++ rest)
unfolding begins_with
begins_with-rest s [] h = (s, refl)
begins_with-rest [] (b ∷ t) h = cc
begins_with-rest (a ∷ s) (b ∷ t) h =
    let (rest, is) = begins_with-rest s t (ground arith) in
    let same : a ≡ b = ground arith in (rest, ap (λ c. c ∷ s) same ∙ ap (λ r. b ∷ r) is)

pub ends_with-append : (s t : Text) → ends_with (s ++ t) t ≡ true
unfolding ends_with
ends_with-append [] [] = refl
ends_with-append [] (b ∷ t) = ground (arith, text_eq_refl (b ∷ t))
ends_with-append (a ∷ s) t = ground (arith, ends_with-append s t)

pub ends_with-rest : (s t : Text) → ends_with s t ≡ true → (rest : Text) × (s ≡ rest ++ t)
unfolding ends_with
ends_with-rest [] t h = ([], eq_of_text_eq [] t h)
ends_with-rest (a ∷ s) t h = elim (Bool-cases (text_eq (a ∷ s) t)) [
  | inl same ↦ ([], eq_of_text_eq (a ∷ s) t same)
  | inr differ ↦
      let (rest, is) = ends_with-rest s t (ground arith) in (a ∷ rest, ap (λ r. a ∷ r) is)
]
