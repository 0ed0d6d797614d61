-- ===== src/Util/Case/RoundTrip.antt =====
-- The name of a helper comes back from its D-Bus path.
use steamos_log_submitter.Base.{
  ℕ, Bool, true, false, ◌||◌, List, [], ◌∷◌, ◌++◌, map, Text, ◌≡◌, refl, sym, ap, ◌∙◌, arith, All,
  Bool-cases, inl, inr,
}
use mathlib.Core.List.{append_assoc, append-nil, map-append}
use steamos_log_submitter.Util.Case.{
  is_lower, is_numeric, upper, lower, camel_from, camel_case, last_alpha, lower_some, separated,
  snake_step, snake_loop, rev_onto, snake_case,
}

-- A lower letter, and after it lower letters and digits with at least one letter among them.
abbrev pub Word : Type 0
Word = ℕ × Text

abbrev IsPlain : ℕ → Type 0
IsPlain c = (is_numeric c || is_lower c) ≡ true

abbrev pub has_lower : Text → Bool
has_lower [] = false
has_lower (c ∷ s) = is_lower c || has_lower s

abbrev pub IsWord : Word → Type 0
IsWord (c, s) =
    (is_lower c ≡ true) × All (λ a. (is_numeric a || is_lower a) ≡ true) s × (has_lower s ≡ true)

-- The words of a name with `_` between them.
abbrev pub tail_words : List Word → Text
tail_words [] = []
tail_words ((c, s) ∷ words) = (b'_' ∷ c ∷ s) ++ tail_words words

abbrev pub name : Word → List Word → Text
name (c, s) words = (c ∷ s) ++ tail_words words

abbrev capitals : List Word → Text
capitals [] = []
capitals ((c, s) ∷ words) = (upper c ∷ s) ++ capitals words

camel_from-plain :
    (s rest : Text) → All IsPlain s → camel_from false (s ++ rest) ≡ s ++ camel_from false rest
unfolding camel_from
camel_from-plain [] rest h = refl
camel_from-plain (c ∷ s) rest (h, hs) = ground (arith, camel_from-plain s rest hs)

camel_from-capital :
    (c : ℕ) (s rest : Text)
    → is_lower c ≡ true
    → All IsPlain s
    → camel_from true ((c ∷ s) ++ rest) ≡ (upper c ∷ s) ++ camel_from false rest
unfolding camel_from
camel_from-capital c s rest first plain = ground (arith, camel_from-plain s rest plain)

camel_from_underscore : (s : Text) → camel_from false (b'_' ∷ s) ≡ camel_from true s
unfolding camel_from
camel_from_underscore s = refl

camel_from-nil : camel_from false [] ≡ []
unfolding camel_from
camel_from-nil = refl

camel_from-words :
    (words : List Word) → All IsWord words → camel_from false (tail_words words) ≡ capitals words
camel_from-words [] h = camel_from-nil
camel_from-words ((c, s) ∷ words) ((first, plain, _), rest) =
    camel_from_underscore ((c ∷ s) ++ tail_words words)
    ∙ camel_from-capital c s (tail_words words) first plain
    ∙ ap (λ t. (upper c ∷ s) ++ t) (camel_from-words words rest)

camel_case-name :
    (w : Word) (words : List Word)
    → IsWord w
    → All IsWord words
    → camel_case (name w words) ≡ capitals (w ∷ words)
unfolding camel_case
camel_case-name (c, s) words (first, plain, _) rest =
    camel_from-capital c s (tail_words words) first plain
    ∙ ap (λ t. (upper c ∷ s) ++ t) (camel_from-words words rest)

-- The last letter so far is a lower one.
abbrev EndsLower : Text → Type 0
EndsLower r = lower_some (last_alpha r) ≡ true

EndsLower-plain : (c : ℕ) (r : Text) → IsPlain c → EndsLower r → EndsLower (c ∷ r)
unfolding last_alpha
EndsLower-plain c r h e = ground arith

EndsLower-rev_onto : (s r : Text) → All IsPlain s → EndsLower r → EndsLower (rev_onto s r)
EndsLower-rev_onto [] r h e = e
EndsLower-rev_onto (c ∷ s) r (h, hs) e = EndsLower-rev_onto s (c ∷ r) hs (EndsLower-plain c r h e)

has_lower-EndsLower : (s r : Text) → All IsPlain s → has_lower s ≡ true → EndsLower (rev_onto s r)
unfolding last_alpha
has_lower-EndsLower [] r h l = cc
has_lower-EndsLower (c ∷ s) r (h, hs) l = elim (Bool-cases (is_lower c)) [
  | inl yes_lower ↦ EndsLower-rev_onto s (c ∷ r) hs (ground arith)
  | inr no_lower ↦ has_lower-EndsLower s (c ∷ r) hs (ground arith)
]

step_plain : (c : ℕ) (rest r : Text) → IsPlain c → snake_step r c rest ≡ c ∷ r
step_plain c rest r h = rw h refl

step_other :
    (c : ℕ) (rest r : Text)
    → (is_numeric c || is_lower c) ≡ false
    → snake_step r c rest ≡ c ∷ separated r rest
step_other c rest r h = rw h refl

EndsLower-nil : lower_some (last_alpha []) ≡ false
unfolding last_alpha
EndsLower-nil = refl

snake_loop-plain :
    (s rest r : Text) → All IsPlain s → snake_loop r (s ++ rest) ≡ snake_loop (rev_onto s r) rest
unfolding snake_loop
snake_loop-plain [] rest r h = refl
snake_loop-plain (c ∷ s) rest r (h, hs) =
    ap (λ q. snake_loop q (s ++ rest)) (step_plain c (s ++ rest) r h)
    ∙ snake_loop-plain s rest (c ∷ r) hs

snake_loop_cons : (r s : Text) (c : ℕ) → snake_loop r (c ∷ s) ≡ snake_loop (snake_step r c s) s
unfolding snake_loop
snake_loop_cons r s c = refl

snake_loop-nil : (r : Text) → snake_loop r [] ≡ r
unfolding snake_loop
snake_loop-nil r = refl

capital-IsPlain : (c : ℕ) → is_lower c ≡ true → (is_numeric (upper c) || is_lower (upper c)) ≡ false
capital-IsPlain c h = ground arith

separated_lower :
    (a : ℕ) (r rest : Text) → EndsLower (a ∷ r) → separated (a ∷ r) rest ≡ b'_' ∷ a ∷ r
unfolding separated
separated_lower a r rest e = rw e refl

-- A capital after a lower letter gets an underscore, whatever follows.
snake_step_capital :
    (c : ℕ) (r rest : Text)
    → is_lower c ≡ true
    → EndsLower r
    → snake_step r (upper c) rest ≡ upper c ∷ b'_' ∷ r
snake_step_capital c [] rest h e = grind (arith, e, EndsLower-nil)
snake_step_capital c (a ∷ r) rest h e =
    step_other (upper c) rest (a ∷ r) (capital-IsPlain c h)
    ∙ ap (λ t. upper c ∷ t) (separated_lower a r rest e)

snake_step_first :
    (c : ℕ) (rest : Text) → is_lower c ≡ true → snake_step [] (upper c) rest ≡ upper c ∷ []
unfolding separated
snake_step_first c rest h = ground arith

abbrev shown : Text → Text
shown r = map lower (rev_onto r [])

rev_onto-rev_onto : (s r acc : Text) → rev_onto (rev_onto s r) acc ≡ rev_onto r (s ++ acc)
rev_onto-rev_onto [] r acc = refl
rev_onto-rev_onto (c ∷ s) r acc = rev_onto-rev_onto s (c ∷ r) acc

rev_onto-append : (r acc : Text) → rev_onto r acc ≡ rev_onto r [] ++ acc
rev_onto-append [] acc = refl
rev_onto-append (c ∷ r) acc =
    rev_onto-append r (c ∷ acc)
    ∙ sym (append_assoc (rev_onto r []) (c ∷ []) acc)
    ∙ ap (λ t. t ++ acc) (sym (rev_onto-append r (c ∷ [])))

map-lower : (s : Text) → All IsPlain s → map lower s ≡ s
map-lower [] h = refl
map-lower (c ∷ s) (h, hs) = rw (map-lower s hs) (ap (λ a. a ∷ s) (ground arith))

lower-upper : (c : ℕ) → is_lower c ≡ true → lower (upper c) ≡ c
lower-upper c h = ground arith

shown_cons : (c : ℕ) (r : Text) → shown (c ∷ r) ≡ shown r ++ (lower c ∷ [])
shown_cons c r =
    ap (map lower) (rev_onto-append r (c ∷ [])) ∙ map-append lower (rev_onto r []) (c ∷ [])

-- What a word adds to the text that is shown.
shown-word :
    (c : ℕ) (s r : Text)
    → is_lower c ≡ true
    → All IsPlain s
    → shown (rev_onto s (upper c ∷ r)) ≡ shown r ++ (c ∷ s)
shown-word c s r first plain =
    ap (map lower) (rev_onto-rev_onto s (upper c ∷ r) [] ∙ rev_onto-append r (upper c ∷ (s ++ [])))
    ∙ map-append lower (rev_onto r []) (upper c ∷ (s ++ []))
    ∙ ap (λ t. shown r ++ t) (rw (lower-upper c first, append-nil s, map-lower s plain) refl)

snake_loop-capitals :
    (words : List Word) (r : Text)
    → All IsWord words
    → EndsLower r
    → shown (snake_loop r (capitals words)) ≡ shown r ++ tail_words words
snake_loop-capitals [] r h e = ap shown (snake_loop-nil r) ∙ sym (append-nil (shown r))
snake_loop-capitals ((c, s) ∷ words) r ((first, plain, some_lower), rest) e =
    ap shown (
      snake_loop_cons r (s ++ capitals words) (upper c)
      ∙ ap (λ q. snake_loop q (s ++ capitals words))
          (snake_step_capital c r (s ++ capitals words) first e)
      ∙ snake_loop-plain s (capitals words) (upper c ∷ b'_' ∷ r) plain)
    ∙ snake_loop-capitals words (rev_onto s (upper c ∷ b'_' ∷ r)) rest
        (has_lower-EndsLower s (upper c ∷ b'_' ∷ r) plain some_lower)
    ∙ ap (λ t. t ++ tail_words words) (shown-word c s (b'_' ∷ r) first plain)
    ∙ ap (λ t. (t ++ (c ∷ s)) ++ tail_words words) (shown_cons (b'_') r)
    ∙ ap (λ t. t ++ tail_words words) (append_assoc (shown r) (b'_' ∷ []) (c ∷ s))
    ∙ append_assoc (shown r) (b'_' ∷ c ∷ s) (tail_words words)

-- A name of words with `_` between them, each a lower letter and then lower letters and digits with
-- a letter among them, comes back from `snake_case` of its `camel_case`.
pub snake_case-camel_case :
    (w : Word) (words : List Word)
    → IsWord w
    → All IsWord words
    → snake_case (camel_case (name w words)) ≡ name w words
unfolding snake_case
snake_case-camel_case (c, s) words (first, plain, some_lower) rest =
    ap (λ t. shown (snake_loop [] t)) (camel_case-name (c, s) words (first, plain, some_lower) rest)
    ∙ ap shown (
        snake_loop_cons [] (s ++ capitals words) (upper c)
        ∙ ap (λ q. snake_loop q (s ++ capitals words))
            (snake_step_first c (s ++ capitals words) first)
        ∙ snake_loop-plain s (capitals words) (upper c ∷ []) plain)
    ∙ snake_loop-capitals words (rev_onto s (upper c ∷ [])) rest
        (has_lower-EndsLower s (upper c ∷ []) plain some_lower)
    ∙ ap (λ t. t ++ tail_words words) (shown-word c s [] first plain)
