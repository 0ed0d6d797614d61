-- ===== src/Util/Stat.antt =====
-- `get_pid_stat` of util.py: the regular expression `\d+\s+\((.*)\)\s+[A-Za-z]\s+(\d+)` at the start
-- of /proc/PID/stat, on ASCII text.
pub mod RoundTrip
use steamos_log_submitter.Base.{
  ℕ, ◌+◌, ◌-◌, ◌*◌, Bool, true, false, Exc, file_not_found, file_exists, permission, os_error, ◌&&◌,
  ◌||◌, List, [], ◌∷◌, Option, none, some, Text, nat_eq, leb, if◌then◌else◌, Result, ok, raise,
}

abbrev pub is_digit : ℕ → Bool
is_digit c = leb b'0' c && leb c b'9'

abbrev pub is_letter : ℕ → Bool
is_letter c = (leb b'A' c && leb c b'Z') || (leb b'a' c && leb c b'z')

-- `\s`
abbrev pub is_space : ℕ → Bool
is_space c = nat_eq c b' ' || (leb 9 c && leb c 13) || (leb 28 c && leb c 31)

abbrev pub drop_while : (ℕ → Bool) → Text → Text
drop_while p [] = []
drop_while p (c ∷ s) = let rest = drop_while p s in if p c then rest else c ∷ s

-- `\d+` or `\s+`: at least one, then as many as there are; the rest of the text.
abbrev pub some_of : (ℕ → Bool) → Text → Option Text
some_of p [] = none
some_of p (c ∷ s) = if p c then some (drop_while p s) else none

-- `int` of the digits at the start.
abbrev pub digits_value : ℕ → Text → ℕ
digits_value n [] = n
digits_value n (c ∷ s) =
    let rest = digits_value (n * 10 + (c - b'0')) s in if is_digit c then rest else n

abbrev pub bind {ℓ κ} : {A : Type ℓ} {B : Type κ} → Option A → (A → Option B) → Option B
bind none f = none
bind (some a) f = f a

-- One character of a class, and the rest.
abbrev pub one_char : (ℕ → Bool) → Text → Option Text
one_char p [] = none
one_char p (c ∷ s) = if p c then some s else none

abbrev pub number : Text → Option ℕ
number s = bind (some_of is_digit s) (λ rest. some (digits_value 0 s))

-- `\s+[A-Za-z]\s+(\d+)`
unfoldable pub match_tail : Text → Option ℕ
match_tail s =
    bind (some_of is_space s)
      (λ a. bind (one_char is_letter a) (λ b. bind (some_of is_space b) number))

-- `(.*)\)` and the tail: the last closing parenthesis on the line with such a tail.
unfoldable pub match_comm : Text → Option (Text × ℕ)
match_comm [] = none
match_comm (c ∷ s) =
    let deeper = match_comm s in
    if nat_eq c 10 then none else elim deeper [
      | some (comm, ppid) ↦ some (c ∷ comm, ppid)
      | none ↦ if nat_eq c b')' then bind (match_tail s) (λ ppid. some ([], ppid)) else none
    ]

unfoldable pub match_stat : Text → Option (Text × ℕ)
unfolding match_tail match_comm
match_stat s =
    bind (some_of is_digit s)
      (λ a. bind (some_of is_space a) (λ b. bind (one_char (λ c. nat_eq c b'(') b) match_comm))

-- `except OSError`
abbrev pub is_caught : Exc → Bool
is_caught file_not_found = true
is_caught file_exists = true
is_caught permission = true
is_caught os_error = true
is_caught _ = false

-- `open` and `read` may raise an OSError; then, and without a match, both results are None. Text that
-- cannot be decoded is no OSError.
unfoldable pub get_pid_stat : Result Text → Result (Option (Text × ℕ))
unfolding match_stat
get_pid_stat (raise e) = if is_caught e then ok none else raise e
get_pid_stat (ok stat) = ok (match_stat stat)
