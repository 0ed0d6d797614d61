-- ===== src/Dbus/Match/Rules.antt =====
-- steamos_log_submitter/dbus.py: the fields of a `MatchRule`, and `matches`.
use mathlib.Core.List.{append_assoc}
use steamos_log_submitter.Base.{
  Bool, true, false, not, ◌&&◌, ◌++◌, Option, none, some, Text, codes, text_eq, begins_with,
  begins_with-append, if◌then◌else◌, ◌≡◌, ◌↔◌, ◌⊎◌, inl, inr, refl, List, [], ◌∷◌, arith,
  eq_of_text_eq, text_eq_refl, Bool-cases, sym,
}
use steamos_log_submitter.Dbus.Match.{Parts, part, parse_string}

-- The fields that `matches` reads; the others are stored and read by nothing.
pub record MatchRule : Type 0 where
  pub raw : Text
  pub sender : Option Text
  pub interface : Option Text
  pub member : Option Text
  pub path : Option Text
  pub path_namespace : Option Text
  pub destination : Option Text

abbrev pub of_parts : Text → Parts → MatchRule
of_parts rule parts = record {
  raw = rule;
  sender = part (codes "sender") parts;
  interface = part (codes "interface") parts;
  member = part (codes "member") parts;
  path = part (codes "path") parts;
  path_namespace = part (codes "path_namespace") parts;
  destination = part (codes "destination") parts;
}

unfoldable pub match_rule : Text → MatchRule
match_rule rule = of_parts rule (parse_string rule)

-- The headers of a `dbus_next.Message`.
pub record Message : Type 0 where
  pub sender : Option Text
  pub interface : Option Text
  pub member : Option Text
  pub path : Option Text
  pub destination : Option Text

-- `wanted is not None and wanted != given`
abbrev pub differs : Option Text → Option Text → Bool
differs none given = false
differs (some w) none = true
differs (some w) (some g) = not (text_eq w g)

abbrev pub outside : Option Text → Option Text → Bool
outside none path = false
outside (some n) none = false
outside (some n) (some p) = not (text_eq n p) && not (begins_with p (n ++ (b'/' ∷ [])))

unfoldable pub matches : MatchRule → Message → Bool
matches rule msg =
    if differs rule.destination msg.destination
    then false
    else if differs rule.sender msg.sender
    then false
    else if differs rule.path msg.path
    then false
    else if outside rule.path_namespace msg.path
    then false
    else if differs rule.interface msg.interface
    then false
    else not (differs rule.member msg.member)

-- The handler that `add_match_rule` installs on the bus, as what it does to the state of the program.
unfoldable pub message_handler {ℓ} : {S : Type ℓ} → MatchRule → (Message → S → S) → Message → S → S
message_handler rule fn msg s = if matches rule msg then fn msg s else s

-- `add_match_rule` after `connect`: the message to the bus, and what its reply leads to.
pub data Reply : Type 0 where
  no_reply error_reply method_return : Reply

abbrev pub Handlers {ℓ} : Type ℓ → Type ℓ
Handlers S = List (Message → S → S)

unfoldable pub add_match_rule {ℓ} :
    {S : Type ℓ} → (Text → Reply) → MatchRule → (Message → S → S) → Handlers S → Bool × Handlers S
add_match_rule call rule fn handlers = elim (call rule.raw) [
  | no_reply ↦ (false, handlers)
  | error_reply ↦ (false, handlers)
  | method_return ↦ (true, handlers ++ (message_handler rule fn ∷ []))
]

-- A message has what a rule asks for, if it asks for anything.
abbrev pub Agrees : Option Text → Option Text → Type 0
Agrees wanted given = (w : Text) → wanted ≡ some w → given ≡ some w

-- A path below another one.
abbrev pub Below : Text → Text → Type 0
Below above path = (rest : Text) × (path ≡ above ++ (b'/' ∷ rest))

abbrev pub Within : Option Text → Option Text → Type 0
Within namespace path = (n p : Text) → namespace ≡ some n → path ≡ some p → (n ≡ p) ⊎ Below n p

abbrev pub Wants : MatchRule → Message → Type 0
Wants rule msg =
    Agrees rule.destination msg.destination
    × Agrees rule.sender msg.sender
    × Agrees rule.path msg.path
    × Within rule.path_namespace msg.path
    × Agrees rule.interface msg.interface
    × Agrees rule.member msg.member

Agrees-differs : (w g : Option Text) → differs w g ≡ false → Agrees w g
Agrees-differs none g h v e = cc
Agrees-differs (some w) none h v e = cc
Agrees-differs (some w) (some g) h v e = ground (arith, eq_of_text_eq w g)

differs-Agrees : (w g : Option Text) → Agrees w g → differs w g ≡ false
differs-Agrees none g h = refl
differs-Agrees (some w) none h = let e = h w refl in cc
differs-Agrees (some w) (some g) h =
    let e : some g ≡ some w = h w refl in let same : g ≡ w = cc in rw (same, text_eq_refl) refl

of_begins_with : (n p : Text) → begins_with p (n ++ (b'/' ∷ [])) ≡ true → Below n p
unfolding begins_with
of_begins_with [] [] h = cc
of_begins_with [] (c ∷ p) h = (p, ground arith)
of_begins_with (d ∷ n) [] h = cc
of_begins_with (d ∷ n) (c ∷ p) h =
    let (rest, e) = of_begins_with n p (ground arith) in
    let same : c ≡ d = ground arith in (rest, cc)

Within-outside : (n p : Option Text) → outside n p ≡ false → Within n p
Within-outside none p h a b e f = cc
Within-outside (some n) none h a b e f = cc
Within-outside (some n) (some p) h a b e f = elim (Bool-cases (text_eq n p)) [
  | inl same ↦ let q = eq_of_text_eq n p same in inl (cc)
  | inr apart ↦ let (rest, q) = of_begins_with n p (ground arith) in inr (rest, cc)
]

outside-Within : (n p : Option Text) → Within n p → outside n p ≡ false
outside-Within none p h = refl
outside-Within (some n) none h = refl
outside-Within (some n) (some p) h = elim (h n p refl refl) [
  | inl same ↦ rw (same, text_eq_refl) refl
  | inr (rest, e) ↦
      let below : begins_with p (n ++ (b'/' ∷ [])) ≡ true =
        rw (e, sym (append_assoc n (b'/' ∷ []) rest))
          (begins_with-append (n ++ (b'/' ∷ [])) rest) in
      ground arith
]

Wants-matches : (rule : MatchRule) (msg : Message) → matches rule msg ≡ true → Wants rule msg
unfolding matches
Wants-matches rule msg h = (
  Agrees-differs rule.destination msg.destination (ground arith),
  Agrees-differs rule.sender msg.sender (ground arith),
  Agrees-differs rule.path msg.path (ground arith),
  Within-outside rule.path_namespace msg.path (ground arith),
  Agrees-differs rule.interface msg.interface (ground arith),
  Agrees-differs rule.member msg.member (ground arith),
)

matches-Wants : (rule : MatchRule) (msg : Message) → Wants rule msg → matches rule msg ≡ true
unfolding matches
matches-Wants rule msg (a, b, c, d, e, f) =
    rw
      (
        differs-Agrees rule.destination msg.destination a,
        differs-Agrees rule.sender msg.sender b,
        differs-Agrees rule.path msg.path c,
        outside-Within rule.path_namespace msg.path d,
        differs-Agrees rule.interface msg.interface e,
        differs-Agrees rule.member msg.member f,
      )
      refl

-- A message matches exactly when it has the destination, the sender, the path, the interface and the
-- member that the rule names, each as far as the rule names it, and its path, if it has one, is the
-- path namespace of the rule or begins with it and a slash. The type and the arguments of a rule
-- are not looked at.
pub matches_lem : (rule : MatchRule) (msg : Message) → (matches rule msg ≡ true) ↔ Wants rule msg
matches_lem rule msg = (Wants-matches rule msg, matches-Wants rule msg)
