-- ===== src/Util/Stat/RoundTrip.antt =====
-- `get_pid_stat` reads the name and the parent whatever the name of the process is.
use steamos_log_submitter.Base.{
  ℕ, ◌+◌, ◌-◌, ◌*◌, true, false, [], ◌∷◌, ◌++◌, none, some, ◌≡◌, refl, ap, ◌∙◌, arith, Text, holds,
  All, ok,
}
use steamos_log_submitter.Util.Stat.{
  is_digit, is_letter, is_space, drop_while, digits_value, number, match_tail, match_comm,
  match_stat, get_pid_stat,
}

-- No closing parenthesis, no match.
match_comm-none : (s : Text) → holds b')' s ≡ false → match_comm s ≡ none
unfolding match_comm
match_comm-none [] h = refl
match_comm-none (c ∷ s) h = ground (arith, match_comm-none s)

-- The name is read up to the last parenthesis.
match_comm-append :
    (comm tail : Text) (ppid : ℕ)
    → holds 10 comm ≡ false
    → holds b')' tail ≡ false
    → match_tail tail ≡ some ppid
    → match_comm (comm ++ (b')' ∷ tail)) ≡ some (comm, ppid)
unfolding match_comm
match_comm-append [] tail ppid line last found = rw (match_comm-none tail last, found) refl
match_comm-append (c ∷ comm) tail ppid line last found =
    ground (arith, match_comm-append comm tail ppid)

abbrev pub AreDigits : Text → Type 0
AreDigits = All (λ c. is_digit c ≡ true)

drop_while-digits :
    (ds rest : Text) → AreDigits ds → drop_while is_digit (ds ++ rest) ≡ drop_while is_digit rest
drop_while-digits [] rest h = refl
drop_while-digits (d ∷ ds) rest (h, hs) = rw h (drop_while-digits ds rest hs)

digits_value-append :
    (ds rest : Text) (n : ℕ)
    → AreDigits ds
    → digits_value n (ds ++ (b' ' ∷ rest)) ≡ digits_value n ds
digits_value-append [] rest n h = refl
digits_value-append (d ∷ ds) rest n (h, hs) =
    rw h (digits_value-append ds rest (n * 10 + (d - b'0')) hs)

number-append :
    (d : ℕ) (ds rest : Text)
    → AreDigits (d ∷ ds)
    → number (d ∷ (ds ++ (b' ' ∷ rest))) ≡ some (digits_value 0 (d ∷ ds))
number-append d ds rest (h, hs) = rw h (rw (digits_value-append ds rest (0 + (d - b'0')) hs) refl)

letter-space : (c : ℕ) → is_letter c ≡ true → is_space c ≡ false
letter-space c h = ground arith

digit-space : (c : ℕ) → is_digit c ≡ true → is_space c ≡ false
digit-space c h = ground arith

-- What stands behind the name: the state of the process, the parent, and the other fields.
abbrev pub fields : ℕ → Text → Text → Text
fields state ppid rest = b' ' ∷ state ∷ b' ' ∷ (ppid ++ (b' ' ∷ rest))

match_tail-fields :
    (state p : ℕ) (ps rest : Text)
    → is_letter state ≡ true
    → AreDigits (p ∷ ps)
    → match_tail (fields state (p ∷ ps) rest) ≡ some (digits_value 0 (p ∷ ps))
unfolding match_tail
match_tail-fields state p ps rest letter digits =
    rw (letter-space state letter, letter)
      (rw (digit-space p digits.0) (number-append p ps rest digits))

-- `PID (COMM) S PPID ...`
abbrev pub stat_line : Text → Text → ℕ → Text → Text → Text
stat_line pid comm state ppid rest =
    pid ++ (b' ' ∷ b'(' ∷ (comm ++ (b')' ∷ fields state ppid rest)))

match_stat-line :
    (d : ℕ) (ds s : Text)
    → AreDigits (d ∷ ds)
    → match_stat (d ∷ (ds ++ (b' ' ∷ b'(' ∷ s))) ≡ match_comm s
unfolding match_stat
match_stat-line d ds s (h, hs) = rw (h, drop_while-digits ds (b' ' ∷ b'(' ∷ s) hs) refl

-- For a line of the form that the kernel writes, `PID (COMM) S PPID` and other fields, with numbers
-- in decimal digits, no closing parenthesis in the other fields and no line break in the name:
-- `get_pid_stat` returns the name and the parent. The name may hold spaces, parentheses, and even
-- text that looks like the fields behind it.
pub get_pid_stat-stat_line :
    (d : ℕ) (ds comm : Text) (state p : ℕ) (ps rest : Text)
    → AreDigits (d ∷ ds)
    → is_letter state ≡ true
    → AreDigits (p ∷ ps)
    → holds 10 comm ≡ false
    → holds b')' (fields state (p ∷ ps) rest) ≡ false
    → get_pid_stat (ok (stat_line (d ∷ ds) comm state (p ∷ ps) rest))
      ≡ ok (some (comm, digits_value 0 (p ∷ ps)))
unfolding get_pid_stat
get_pid_stat-stat_line d ds comm state p ps rest pid letter ppid line last = ap ok (
    match_stat-line d ds (comm ++ (b')' ∷ fields state (p ∷ ps) rest)) pid
    ∙ match_comm-append comm (fields state (p ∷ ps) rest) (digits_value 0 (p ∷ ps)) line last
        (match_tail-fields state p ps rest letter ppid))
