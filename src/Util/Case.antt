-- ===== src/Util/Case.antt =====
-- util.py, `camel_case` and `snake_case`, for ASCII texts: how the name of a helper becomes part of a
-- D-Bus path, and is read off it again.
pub mod RoundTrip
use steamos_log_submitter.Base.{
  ℕ, ◌+◌, ◌-◌, Bool, true, false, ◌&&◌, ◌||◌, List, [], ◌∷◌, map, Option, none, some, leb, nat_eq,
  Text, if◌then◌else◌,
}

abbrev pub is_lower : ℕ → Bool
is_lower c = leb b'a' c && leb c b'z'

abbrev pub is_upper : ℕ → Bool
is_upper c = leb b'A' c && leb c b'Z'

abbrev pub is_alpha : ℕ → Bool
is_alpha c = is_lower c || is_upper c

abbrev pub is_numeric : ℕ → Bool
is_numeric c = leb b'0' c && leb c b'9'

abbrev pub upper : ℕ → ℕ
upper c = if is_lower c then c - 32 else c

abbrev pub lower : ℕ → ℕ
lower c = if is_upper c then c + 32 else c

-- The flag says that `(^|_)` has just matched: an underscore goes, and a letter after it is changed.
unfoldable pub camel_from : Bool → Text → Text
camel_from start [] = []
camel_from start (c ∷ s) = elim (nat_eq c b'_') [
  | true ↦ camel_from true s
  | false ↦ (if start then upper c else c) ∷ camel_from false s
]

unfoldable pub camel_case : Text → Text
camel_case text = camel_from true text

-- the last letter of `snaked`, which is kept in reverse
unfoldable pub last_alpha : Text → Option ℕ
last_alpha [] = none
last_alpha (c ∷ r) = if is_alpha c then some c else last_alpha r

abbrev pub lower_some : Option ℕ → Bool
lower_some none = false
lower_some (some c) = is_lower c

-- `i + 1 < len(text) and text[i + 1].islower()`
abbrev pub next_lower : Text → Bool
next_lower [] = false
next_lower (c ∷ s) = is_lower c

abbrev pub head_alpha : Text → Bool
head_alpha [] = false
head_alpha (c ∷ r) = is_alpha c

abbrev pub mark : Bool → Text → Text
mark true r = b'_' ∷ r
mark false r = r

-- `i` is 0 exactly where `snaked` is empty.
unfoldable pub separated : Text → Text → Text
separated [] rest = []
separated (c ∷ r) rest =
    let marked = mark (lower_some (last_alpha (c ∷ r))) (c ∷ r) in
    mark (head_alpha marked && next_lower rest) marked

-- The body of the loop.
abbrev pub snake_step : Text → ℕ → Text → Text
snake_step r c rest = if is_numeric c || is_lower c then c ∷ r else c ∷ separated r rest

unfoldable pub snake_loop : Text → Text → Text
snake_loop r [] = r
snake_loop r (c ∷ s) = snake_loop (snake_step r c s) s

abbrev pub rev_onto : Text → Text → Text
rev_onto [] acc = acc
rev_onto (c ∷ s) acc = rev_onto s (c ∷ acc)

unfoldable pub snake_case : Text → Text
snake_case text = map lower (rev_onto (snake_loop [] text) [])
