-- ===== src/Journal/Escape/RoundTrip.antt =====
-- `unescape` undoes `escape`.
use mathlib.Core.List.{append-nil, append_assoc}
use steamos_log_submitter.Base.{
  ℕ, ◌+◌, ◌*◌, ◌/◌, ◌%◌, ◌<◌, true, false, List, [], ◌∷◌, ◌++◌, some, ◌≡◌, refl, ap, arith, Text,
  nat_eq, ltb, All, Bool-cases, inl, inr,
}
use steamos_log_submitter.Journal.Escape.{
  alphanumeric, hex_digit, escape_byte, escape_bytes, encode_char, encode, escape, IsChar, IsAscii,
  parse_pair, unescape_loop, plain, unescape, IsByte,
}

parse_pair-padded : (c : ℕ) → c < 16 → parse_pair b' ' (hex_digit c) ≡ some c
parse_pair-padded c h = ground arith

parse_pair-hex_digit :
    (a b : ℕ) → a < 16 → b < 16 → parse_pair (hex_digit a) (hex_digit b) ≡ some (a * 16 + b)
parse_pair-hex_digit a b h k = ground arith

alphanumeric-underscore : (c : ℕ) → alphanumeric c ≡ true → nat_eq c b'_' ≡ false
alphanumeric-underscore c h = ground arith

split_byte : (c : ℕ) → (c / 16) * 16 + c % 16 ≡ c
split_byte c = omega arith

-- The loop reads one escaped byte.
unescape_loop-escape_byte :
    (c : ℕ) (rest out : Text)
    → c < 256
    → unescape_loop plain (escape_byte c ++ rest) out ≡ unescape_loop plain rest (out ++ (c ∷ []))
unfolding unescape_loop
unescape_loop-escape_byte c rest out h = elim (Bool-cases (alphanumeric c)) [
  | inl kept ↦ rw kept (rw (alphanumeric-underscore c kept, unescape_loop))
  | inr coded ↦ rw coded (elim (Bool-cases (ltb c 16)) [
    | inl small ↦ rw small (rw (parse_pair-padded c (ground arith)) refl)
    | inr large ↦
        rw large (
          rw (parse_pair-hex_digit (c / 16) (c % 16) (omega arith) (omega arith), split_byte c)
            refl)
  ])
]

unescape_loop-nil : (out : Text) → unescape_loop plain [] out ≡ out ++ []
unfolding unescape_loop
unescape_loop-nil out = rw append-nil

pub unescape_loop-escape_bytes :
    (name : List ℕ) (out : Text)
    → All IsByte name
    → unescape_loop plain (escape_bytes name) out ≡ out ++ name
unfolding escape_bytes
unescape_loop-escape_bytes [] out h = unescape_loop-nil out
unescape_loop-escape_bytes (c ∷ name) out (byte, h) = rw (
  unescape_loop-escape_byte c (escape_bytes name) out byte,
  unescape_loop-escape_bytes name (out ++ (c ∷ [])) h,
  append_assoc,
)

All-append : (s t : List ℕ) → All IsByte s → All IsByte t → All IsByte (s ++ t)
All-append [] t h k = k
All-append (a ∷ s) t (one, h) k = (one, All-append s t h k)

encode_char-bytes : (c : ℕ) → IsChar c → All IsByte (encode_char c)
encode_char-bytes c h = elim (Bool-cases (ltb c 128)) [
  | inl ascii ↦ rw ascii (ground arith)
  | inr more ↦ rw more (elim (Bool-cases (ltb c 2048)) [
    | inl two ↦ rw two (ground arith)
    | inr longer ↦ rw longer (elim (Bool-cases (ltb c 65536)) [
      | inl three ↦ rw three (ground arith)
      | inr four ↦ rw four (ground arith)
    ])
  ])
]

pub encode-bytes : (name : Text) → All IsChar name → All IsByte (encode name)
unfolding encode
encode-bytes [] h = tt
encode-bytes (c ∷ name) (one, h) =
    All-append (encode_char c) (encode name) (encode_char-bytes c one) (encode-bytes name h)

pub encode_ascii : (name : Text) → All IsAscii name → encode name ≡ name
unfolding encode
encode_ascii [] h = refl
encode_ascii (c ∷ name) (one, h) =
    let small : ltb c 128 ≡ true = ground arith in rw small (ap (λ r. c ∷ r) (encode_ascii name h))

-- `unescape` of the escaped name gives the bytes of the name as characters: the name itself, where it
-- is ASCII.
pub unescape-escape : (name : Text) → All IsChar name → unescape (escape name) ≡ encode name
unfolding unescape escape
unescape-escape name h = unescape_loop-escape_bytes (encode name) [] (encode-bytes name h)
