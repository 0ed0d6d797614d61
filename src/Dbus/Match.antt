-- ===== src/Dbus/Match.antt =====
-- steamos_log_submitter/dbus.py: `MatchRule`, which reads the text of a match rule and tests messages.
pub mod Rules
pub mod Printed
use steamos_log_submitter.Base.{
  ℕ, zero, suc, Bool, true, false, not, ◌&&◌, ◌||◌, List, [], ◌∷◌, ◌++◌, Option, none, some, nat_eq,
  if◌then◌else◌, length, Text, text_eq,
}

-- What one character does: what goes to the buffer, and the flags `quoted` and `escaping` after it.
pub record Scan : Type 0 where
  pub emitted : Text
  pub quoted : Bool
  pub escaping : Bool

unfoldable pub scan : Bool → Bool → ℕ → Scan
scan quoted escaping c =
    if nat_eq c b'\''
    then (if escaping
        then record { emitted = b'\'' ∷ []; quoted = quoted; escaping = false }
        else record { emitted = []; quoted = not quoted; escaping = false })
    else (if nat_eq c b'\\'
        then (if escaping
            then record { emitted = b'\\' ∷ []; quoted = quoted; escaping = false }
            else (if quoted
                then record { emitted = b'\\' ∷ []; quoted = quoted; escaping = false }
                else record { emitted = []; quoted = quoted; escaping = true }))
        else record {
          emitted = if escaping then b'\\' ∷ c ∷ [] else c ∷ [];
          quoted = quoted;
          escaping = false;
        })

-- After the loop: a backslash that escaped nothing.
abbrev pub pending_escape : Bool → Text
pending_escape true = b'\\' ∷ []
pending_escape false = []

abbrev pub emit : Text → Text × Text → Text × Text
emit front (token, rest) = (front ++ token, rest)

-- `_tokenize_string` from a place in the loop on. `last` is the text from the character before, which
-- is what `raw[i:]` is when the loop ends without a break.
unfoldable pub tokenize_from : ℕ → Text → Bool → Bool → Text → Text × Text
tokenize_from delimiter last quoted escaping [] = (pending_escape escaping, last)
tokenize_from delimiter last quoted escaping (c ∷ s) =
    let s' = scan quoted escaping c in
    let rest = emit s'.emitted (tokenize_from delimiter (c ∷ []) s'.quoted s'.escaping s) in
    if nat_eq c delimiter && not quoted then (pending_escape escaping, c ∷ s) else rest

unfoldable pub tokenize_string : Text → ℕ → Text × Text
tokenize_string raw delimiter = tokenize_from delimiter [] false false raw

-- A dict from texts to texts.
abbrev pub Parts : Type 0
Parts = List (Text × Text)

unfoldable pub assign : Text → Text → Parts → Parts
assign key value [] = (key, value) ∷ []
assign key value ((k, v) ∷ kv) =
    if text_eq k key then (k, value) ∷ kv else (k, v) ∷ assign key value kv

unfoldable pub part : Text → Parts → Option Text
part key [] = none
part key ((k, v) ∷ kv) = if text_eq k key then some v else part key kv

-- One round of the loop in `_parse_string`: a key, a value and the rest, or none where it breaks.
abbrev pub after_value : Text → Text × Text → Option (Text × Text × Text)
after_value key (value, []) = none
after_value key (value, e ∷ rest) = some (key, value, rest)

unfoldable pub after_key : Text × Text → Option (Text × Text × Text)
after_key (key, []) = none
after_key (key, d ∷ raw) = after_value key (tokenize_string raw b',')

unfoldable pub parse_round : Text → Option (Text × Text × Text)
parse_round raw = after_key (tokenize_string raw b'=')

-- `_parse_string`: the loop, on fuel; each round shortens `raw`.
unfoldable pub parse_from : ℕ → Text → Parts → Parts
parse_from zero raw kv = kv
parse_from (suc fuel) [] kv = kv
parse_from (suc fuel) (c ∷ s) kv = elim (parse_round (c ∷ s)) [
  | none ↦ kv
  | some (key, value, rest) ↦ parse_from fuel rest (assign key value kv)
]

unfoldable pub parse_string : Text → Parts
parse_string raw = parse_from (length raw) raw []
