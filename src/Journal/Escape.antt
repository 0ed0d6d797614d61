-- ===== src/Journal/Escape.antt =====
-- `JournalHelper.escape` and `unescape`: a name is encoded in UTF-8, and what is read back is not
-- decoded.
pub mod RoundTrip
use steamos_log_submitter.Base.{
  ℕ, zero, suc, ◌+◌, ◌-◌, ◌*◌, ◌/◌, ◌%◌, ◌<◌, Bool, true, false, ◌&&◌, ◌||◌, List, [], ◌∷◌, ◌++◌,
  Option, none, some, ◌≡◌, refl, arith, Text, nat_eq, ltb, leb, if◌then◌else◌, All, Bool-cases, inl,
  inr,
}

-- `alphanumeric`
abbrev pub alphanumeric : ℕ → Bool
alphanumeric c =
    (leb b'0' c && leb c b'9') || (leb b'A' c && leb c b'Z') || (leb b'a' c && leb c b'z')

abbrev pub hex_digit : ℕ → ℕ
hex_digit d = if ltb d 10 then b'0' + d else 87 + d

-- `f'_{char:2x}'`: hexadecimal in two places, padded with a space
abbrev pub escape_byte : ℕ → Text
escape_byte c =
    if alphanumeric c
    then c ∷ []
    else if ltb c 16
    then b'_' ∷ b' ' ∷ hex_digit c ∷ []
    else b'_' ∷ hex_digit (c / 16) ∷ hex_digit (c % 16) ∷ []

unfoldable pub escape_bytes : List ℕ → Text
escape_bytes [] = []
escape_bytes (c ∷ bname) = escape_byte c ++ escape_bytes bname

-- `name.encode()`; a surrogate, which would raise, is encoded like any other character.
abbrev pub encode_char : ℕ → List ℕ
encode_char c =
    if ltb c 128
    then c ∷ []
    else if ltb c 2048
    then (192 + c / 64) ∷ (128 + c % 64) ∷ []
    else if ltb c 65536
    then (224 + c / 4096) ∷ (128 + (c / 64) % 64) ∷ (128 + c % 64) ∷ []
    else (240 + c / 262144) ∷ (128 + (c / 4096) % 64) ∷ (128 + (c / 64) % 64) ∷ (128 + c % 64) ∷ []

unfoldable pub encode : Text → List ℕ
encode [] = []
encode (c ∷ name) = encode_char c ++ encode name

unfoldable pub escape : Text → Text
unfolding escape_bytes encode
escape name = escape_bytes (encode name)

-- The value of a digit to the base 16.
abbrev pub hex_value : ℕ → Option ℕ
hex_value c =
    if leb b'0' c && leb c b'9'
    then some (c - b'0')
    else if leb b'a' c && leb c b'f'
    then some (c - 87)
    else if leb b'A' c && leb c b'F'
    then some (c - 55)
    else none

-- The white space that `int` strips.
abbrev pub is_space : ℕ → Bool
is_space c = nat_eq c b' ' || (leb 9 c && leb c 13) || (leb 28 c && leb c 31)

abbrev pub two_digits : Option ℕ → Option ℕ → Option ℕ
two_digits (some a) (some b) = some (a * 16 + b)
two_digits _ _ = none

-- `chr(int(a + b, 16))` for two ASCII characters; none is a `ValueError`. One of the two may be a
-- space or the first a sign, and of the negative numbers only -0 is a character.
abbrev pub parse_pair : ℕ → ℕ → Option ℕ
parse_pair a b =
    if is_space a || nat_eq a b'+'
    then hex_value b
    else if nat_eq a b'-'
    then (if nat_eq b b'0' then some 0 else none)
    else if is_space b
    then hex_value a
    else two_digits (hex_value a) (hex_value b)

abbrev pub appended : Option ℕ → Text → Text
appended none out = out
appended (some c) out = out ++ (c ∷ [])

-- `progress`: none, or the characters after an underscore, of which there is at most one between
-- two rounds of the loop.
pub data State : Type 0 where
  plain : State
  progress : Option ℕ → State

unfoldable pub unescape_loop : State → Text → Text → Text
unescape_loop state [] out = out
unescape_loop plain (c ∷ escaped) out = elim (nat_eq c b'_') [
  | true ↦ unescape_loop (progress none) escaped out
  | false ↦ unescape_loop plain escaped (out ++ (c ∷ []))
]
unescape_loop (progress none) (c ∷ escaped) out = unescape_loop (progress (some c)) escaped out
unescape_loop (progress (some a)) (c ∷ escaped) out =
    unescape_loop plain escaped (appended (parse_pair a c) out)

unfoldable pub unescape : Text → Text
unfolding unescape_loop
unescape escaped = unescape_loop plain escaped []

abbrev pub IsByte : ℕ → Type 0
IsByte c = c < 256

abbrev pub IsChar : ℕ → Type 0
IsChar c = c < 1114112

abbrev pub IsAscii : ℕ → Type 0
IsAscii c = c < 128
