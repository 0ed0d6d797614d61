-- ===== src/Dbus/Tests.antt =====
-- The theorems about dbus.py on concrete values.
use steamos_log_submitter.Base.{
  ℕ, String, true, false, List, [], ◌∷◌, none, some, codes, Result, ok, begins_with, ◌≡◌, ◌↔◌, ◌⊎◌,
  refl,
}
use steamos_log_submitter.Base.Int.{ℤ, negsuc}
use steamos_log_submitter.Dbus.Match.{
  Parts, parse_string, parse_from, parse_round, after_key, tokenize_string, tokenize_from, scan,
  assign, part,
}
use steamos_log_submitter.Dbus.Match.Printed.{rule_text, parse_string-rule_text}
use steamos_log_submitter.Dbus.Match.Rules.{
  MatchRule, Message, matches, Wants, matches_lem, of_parts,
}
use steamos_log_submitter.Dbus.Variant.{Sent, SentAsDouble, to_variant-int}
use steamos_log_submitter.Dbus.Signature.{
  Annotation, generic, mapping, tuple, sequence, cons, nil, IsComplete, Signed, signature,
  Representable, signature-IsComplete,
}

-- The rule of the earlyoom helper, with one value that has a quote and a comma.
abbrev rule_parts : Parts
rule_parts =
    (codes "type", codes "signal")
    ∷ (codes "interface", codes "com.steampowered.HoloEarlyoom")
    ∷ (codes "member", codes "it's, killed")
    ∷ []

rule_read :
    parse_string (codes "type='signal',interface='com.steampowered.HoloEarlyoom',member=foo")
    ≡ (codes "type", codes "signal")
      ∷ (codes "interface", codes "com.steampowered.HoloEarlyoom")
      ∷ (codes "member", codes "foo")
      ∷ []
unfolding parse_string parse_from parse_round after_key tokenize_string tokenize_from scan assign
rule_read = refl

-- The value of a last assignment with nothing after the equals sign is lost.
empty_value : parse_string (codes "type='signal',member=") ≡ (codes "type", codes "signal") ∷ []
unfolding parse_string parse_from parse_round after_key tokenize_string tokenize_from scan assign
empty_value = refl

parse_string-rule_text_example : parse_string (rule_text rule_parts) ≡ rule_parts
unfolding part
parse_string-rule_text_example =
    parse_string-rule_text rule_parts
      ((refl, refl, refl), ((refl, refl, refl), ((refl, refl, refl), tt)))
      (refl, (refl, (refl, tt)))

abbrev killed : Message
killed = record {
  sender = some (codes ":1.4");
  interface = some (codes "com.steampowered.HoloEarlyoom");
  member = some (codes "ProcessKilled");
  path = some (codes "/com/steampowered/HoloEarlyoom");
  destination = none;
}

abbrev namespace_rule : MatchRule
namespace_rule = of_parts [] ((codes "path_namespace", codes "/com/steampowered") ∷ [])

matches_example : (matches namespace_rule killed ≡ true) ↔ Wants namespace_rule killed
matches_example = matches_lem namespace_rule killed

-- The namespace `/`, which holds every path, matches no other path than itself.
root_namespace : matches (of_parts [] ((codes "path_namespace", codes "/") ∷ [])) killed ≡ false
unfolding matches part begins_with
root_namespace = refl

-- `float` of an int that is not too large, as the int.
abbrev exact : ℤ → Result ℤ
exact z = ok z

to_variant-int_example : Sent exact (negsuc 0x8000_0000) ⊎ SentAsDouble exact (negsuc 0x8000_0000)
to_variant-int_example = to_variant-int exact (negsuc 0x8000_0000)

abbrev status_annotation : Annotation
status_annotation = generic mapping (
    cons Annotation.str (
      cons
        (generic tuple
          (cons Annotation.int (cons (generic sequence (cons Annotation.bool nil)) nil)))
        nil))

status_signature : signature status_annotation ≡ ok (codes "a{s(iab)}")
unfolding signature
status_signature = refl

signature-IsComplete_example : Signed IsComplete (signature status_annotation)
unfolding Representable
signature-IsComplete_example = signature-IsComplete status_annotation (tt, (tt, (tt, tt)))

-- Two callbacks for one property, one for another; one property changes and one becomes invalid.
abbrev subscriptions : List (String × ℕ)
subscriptions = ("ActiveState", 1) ∷ ("SubState", 2) ∷ ("ActiveState", 3) ∷ []
