-- ===== src/Dbus/Match/Printed.antt =====
-- steamos_log_submitter/dbus.py, `MatchRule._parse_string`: what it reads off a rule that is written
-- as the D-Bus specification has it, with each value in quotes.
use mathlib.Core.List.{append_assoc, append-nil}
use steamos_log_submitter.Base.{
  ℕ, zero, suc, ◌≤◌, true, false, [], ◌∷◌, ◌++◌, none, some, nat_eq, if◌then◌else◌, length,
  length-append, Text, text_eq, text_eq_sym, holds, ◌≡◌, refl, sym, ap, ◌∙◌, arith,
}
use steamos_log_submitter.Dbus.Match.{
  scan, emit, tokenize_from, tokenize_string, Parts, assign, part, after_key, after_value,
  parse_round, parse_from, parse_string,
}

-- A value in quotes, after the first one. A quote in it is written `'\''`.
abbrev quoted_end : Text → Text
quoted_end [] = b'\'' ∷ []
quoted_end (c ∷ v) =
    if nat_eq c b'\'' then b'\'' ∷ b'\\' ∷ b'\'' ∷ b'\'' ∷ quoted_end v else c ∷ quoted_end v

abbrev assignment : Text → Text → Text
assignment key value = key ++ (b'=' ∷ b'\'' ∷ quoted_end value)

-- The assignments of a rule, with commas between them.
abbrev pub rule_text : Parts → Text
rule_text [] = []
rule_text ((key, value) ∷ []) = assignment key value ++ []
rule_text ((key, value) ∷ (other, more) ∷ parts) =
    assignment key value ++ (b',' ∷ rule_text ((other, more) ∷ parts))

-- Such a key ends at the equals sign.
abbrev pub IsPlain : Text → Type 0
IsPlain key = (holds b'=' key ≡ false) × (holds b'\'' key ≡ false) × (holds b'\\' key ≡ false)

abbrev pub PlainKeys : Parts → Type 0
PlainKeys [] = Unit
PlainKeys ((key, value) ∷ parts) = IsPlain key × PlainKeys parts

abbrev pub DistinctKeys : Parts → Type 0
DistinctKeys [] = Unit
DistinctKeys ((key, value) ∷ parts) = (part key parts ≡ none) × DistinctKeys parts

tokenize_from-key :
    (key last s : Text)
    → IsPlain key
    → tokenize_from b'=' last false false (key ++ (b'=' ∷ s)) ≡ (key, b'=' ∷ s)
unfolding tokenize_from scan
tokenize_from-key [] last s h = refl
tokenize_from-key (c ∷ key) last s (a, b, d) = ground (arith, tokenize_from-key key (c ∷ []) s)

-- Between the quotes no comma ends the value.
tokenize_from-quoted_end :
    (value last s : Text)
    → tokenize_from b',' last true false (quoted_end value ++ s)
      ≡ emit value (tokenize_from b',' (b'\'' ∷ []) false false s)
unfolding tokenize_from scan
tokenize_from-quoted_end [] last s = ground arith
tokenize_from-quoted_end (c ∷ value) last s = ground (
  arith,
  tokenize_from-quoted_end value (b'\'' ∷ []) s,
  tokenize_from-quoted_end value (c ∷ []) s,
)

after_key-quoted :
    (key value s : Text)
    → after_key (key, b'=' ∷ b'\'' ∷ (quoted_end value ++ s))
      ≡ after_value key (emit value (tokenize_from b',' (b'\'' ∷ []) false false s))
unfolding after_key tokenize_string tokenize_from scan
after_key-quoted key value s =
    ap (after_value key) (ap (emit []) (tokenize_from-quoted_end value (b'\'' ∷ []) s))

parse_round-assignment :
    (key value s : Text)
    → IsPlain key
    → parse_round (assignment key value ++ s)
      ≡ after_value key (emit value (tokenize_from b',' (b'\'' ∷ []) false false s))
unfolding parse_round tokenize_string
parse_round-assignment key value s h = rw append_assoc (
    ap after_key (tokenize_from-key key [] (b'\'' ∷ (quoted_end value ++ s)) h)
    ∙ after_key-quoted key value s)

parse_round-last :
    (key value : Text)
    → IsPlain key
    → parse_round (assignment key value ++ []) ≡ some (key, value, [])
unfolding tokenize_from
parse_round-last key value h = parse_round-assignment key value [] h ∙ rw append-nil refl

parse_round-comma :
    (key value s : Text)
    → IsPlain key
    → parse_round (assignment key value ++ (b',' ∷ s)) ≡ some (key, value, s)
unfolding tokenize_from
parse_round-comma key value s h = parse_round-assignment key value (b',' ∷ s) h ∙ rw append-nil refl

-- An assignment has at least one character, so a round is made.
parse_from-round :
    (fuel : ℕ) (key value s rest : Text) (kv : Parts)
    → parse_round (assignment key value ++ s) ≡ some (key, value, rest)
    → parse_from (suc fuel) (assignment key value ++ s) kv
      ≡ parse_from fuel rest (assign key value kv)
unfolding parse_from
parse_from-round fuel [] value s rest kv h = rw (h, parse_from) refl
parse_from-round fuel (c ∷ key) value s rest kv h = rw (h, parse_from) refl

parse_from-nil : (fuel : ℕ) (kv : Parts) → parse_from fuel [] kv ≡ kv
unfolding parse_from
parse_from-nil zero kv = refl
parse_from-nil (suc fuel) kv = refl

unfoldable assign_all : Parts → Parts → Parts
assign_all [] kv = kv
assign_all ((key, value) ∷ parts) kv = assign_all parts (assign key value kv)

shorter :
    (fuel : ℕ) (key value s : Text)
    → length (assignment key value ++ (b',' ∷ s)) ≤ suc fuel
    → length s ≤ fuel
shorter fuel [] value s h = omega (arith, length-append (quoted_end value) (b',' ∷ s))
shorter fuel (c ∷ key) value s h = omega (arith, length-append (assignment key value) (b',' ∷ s))

no_fuel : (key value s : Text) → length (assignment key value ++ s) ≤ zero → ⊥
no_fuel [] value s h = omega arith
no_fuel (c ∷ key) value s h = omega arith

parse_from-rule_text :
    (fuel : ℕ) (parts kv : Parts)
    → PlainKeys parts
    → length (rule_text parts) ≤ fuel
    → parse_from fuel (rule_text parts) kv ≡ assign_all parts kv
unfolding assign_all
parse_from-rule_text fuel [] kv plain enough = parse_from-nil fuel kv
parse_from-rule_text zero ((key, value) ∷ []) kv plain enough = absurd (no_fuel key value [] enough)
parse_from-rule_text (suc fuel) ((key, value) ∷ []) kv (plain, rest) enough =
    parse_from-round fuel key value [] [] kv (parse_round-last key value plain)
    ∙ parse_from-nil fuel (assign key value kv)
parse_from-rule_text zero ((key, value) ∷ (other, more) ∷ parts) kv plain enough =
    absurd (no_fuel key value (b',' ∷ rule_text ((other, more) ∷ parts)) enough)
parse_from-rule_text (suc fuel) ((key, value) ∷ (other, more) ∷ parts) kv (plain, rest) enough =
    let tail = rule_text ((other, more) ∷ parts) in
    parse_from-round fuel key value (b',' ∷ tail) tail kv (parse_round-comma key value tail plain)
    ∙ parse_from-rule_text fuel ((other, more) ∷ parts) (assign key value kv) rest
        (shorter fuel key value tail enough)

part-append :
    (k key value : Text) (kv parts : Parts)
    → part k (kv ++ ((key, value) ∷ parts)) ≡ none
    → text_eq k key ≡ false
unfolding part
part-append k key value [] parts h = ground (arith, text_eq_sym k key)
part-append k key value ((j, w) ∷ kv) parts h = ground (arith, part-append k key value kv parts)

-- A new key goes to the end.
assign-append :
    (key value : Text) (kv parts : Parts)
    → DistinctKeys (kv ++ ((key, value) ∷ parts))
    → assign key value kv ≡ kv ++ ((key, value) ∷ [])
unfolding assign
assign-append key value [] parts h = refl
assign-append key value ((k, v) ∷ kv) parts (fresh, h) =
    ground (arith, part-append k key value kv parts fresh, assign-append key value kv parts h)

assign_all-append :
    (parts kv : Parts) → DistinctKeys (kv ++ parts) → assign_all parts kv ≡ kv ++ parts
unfolding assign_all
assign_all-append [] kv h = sym (append-nil kv)
assign_all-append ((key, value) ∷ parts) kv h =
    let added = assign-append key value kv parts h in
    let apart = append_assoc kv ((key, value) ∷ []) parts in
    rw added (assign_all-append parts (kv ++ ((key, value) ∷ [])) (rw apart h) ∙ apart)

-- Any keys that are all different and hold none of `=`, `'` and backslash, with any values: the text
-- in which each value stands in quotes, a quote in it as `'\''`, and the assignments have commas
-- between them, is read as these keys and values, in this order.
pub parse_string-rule_text :
    (parts : Parts) → PlainKeys parts → DistinctKeys parts → parse_string (rule_text parts) ≡ parts
unfolding parse_string
parse_string-rule_text parts plain distinct =
    parse_from-rule_text (length (rule_text parts)) parts [] plain (omega arith)
    ∙ assign_all-append parts [] distinct
