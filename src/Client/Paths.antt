-- ===== src/Client/Paths.antt =====
-- The names of the helpers, as the client reads them off the objects that the daemon exports.
use mathlib.Core.List.{append_assoc}
use steamos_log_submitter.Base.{
  ℕ, String, Bool, true, false, ◌||◌, List, [], ◌∷◌, ◌++◌, map, none, Text, codes, holds,
  holds-append, nat_eq, All, Result, ◌≡◌, refl, sym, ap, ◌∙◌, arith,
}
use steamos_log_submitter.Base.Json.{Json}
use steamos_log_submitter.Exceptions.{returned, command}
use steamos_log_submitter.Util.Case.{
  is_lower, is_numeric, upper, camel_from, camel_case, snake_case,
}
use steamos_log_submitter.Util.Case.RoundTrip.{
  Word, IsWord, name, tail_words, snake_case-camel_case,
}
use steamos_log_submitter.Helper.Names.{basename, basename-append}
use steamos_log_submitter.Client.{dbus_root, helper_path, Bus, client_list, helper_objects}

upper_no_slash : (c : ℕ) → nat_eq c b'/' ≡ false → nat_eq (upper c) b'/' ≡ false
upper_no_slash c h = ground arith

-- `camel_case` makes no slash.
camel_from_no_slash :
    (s : Text) (start : Bool) → holds b'/' s ≡ false → holds b'/' (camel_from start s) ≡ false
unfolding camel_from
camel_from_no_slash [] start h = refl
camel_from_no_slash (c ∷ s) true h =
    ground (arith, camel_from_no_slash s true, camel_from_no_slash s false, upper_no_slash c)
camel_from_no_slash (c ∷ s) false h =
    ground (arith, camel_from_no_slash s true, camel_from_no_slash s false)

plain_no_slash :
    (s : Text) → All (λ a. (is_numeric a || is_lower a) ≡ true) s → holds b'/' s ≡ false
plain_no_slash [] h = refl
plain_no_slash (c ∷ s) (first, h) = ground (arith, plain_no_slash s h)

tail_words_no_slash : (words : List Word) → All IsWord words → holds b'/' (tail_words words) ≡ false
tail_words_no_slash [] h = refl
tail_words_no_slash ((c, s) ∷ words) ((first, plain, some_lower), rest) =
    rw holds-append (ground (arith, plain_no_slash s plain, tail_words_no_slash words rest))

-- The name of a helper, as its words.
abbrev pub Named : Type 0
Named = Word × List Word

abbrev pub IsNamed : Named → Type 0
IsNamed (w, words) = IsWord w × All IsWord words

abbrev pub name_of : Named → Text
name_of (w, words) = name w words

name_no_slash : (n : Named) → IsNamed n → holds b'/' (name_of n) ≡ false
name_no_slash ((c, s), words) ((first, plain, some_lower), rest) =
    tail_words_no_slash ((c, s) ∷ words) ((first, plain, some_lower), rest)

-- The last part of the path of a helper's object is its name again.
snake_case-helper_path :
    (n : Named) → IsNamed n → snake_case (basename (helper_path (name_of n))) ≡ name_of n
unfolding helper_path camel_case
snake_case-helper_path (w, words) (h, hs) =
    let no_slash = camel_from_no_slash (name w words) true (name_no_slash (w, words) (h, hs)) in
    ap snake_case (
      ap basename
        (sym (append_assoc dbus_root (codes "/helpers") (b'/' ∷ camel_case (name w words))))
      ∙ basename-append (dbus_root ++ codes "/helpers") (camel_case (name w words)) no_slash)
    ∙ snake_case-camel_case w words h hs

read_names :
    (ns : List Named)
    → All IsNamed ns
    → map (λ child. snake_case (basename child)) (map helper_path (map name_of ns)) ≡ map name_of ns
read_names [] h = refl
read_names (n ∷ ns) (one, h) = rw (snake_case-helper_path n one, read_names ns h) refl

-- Let the names of the helpers be words with `_` between them, each a lower letter and then lower
-- letters and digits with a letter among them. Where the children of the object of the helpers are
-- the objects that the daemon exports for these names, one for each, `list` gives the names, in
-- the same order, and `_helper_objects` with no names gives each of them with the path under which
-- the daemon has exported it.
pub helper_objects-helper_path :
    (loads : String → Result Json) (bus : Bus) (show : Text → String) (ns : List Named)
    → All IsNamed ns
    → bus.child_paths ≡ returned (map helper_path (map name_of ns))
    → (client_list loads bus ≡ returned (map name_of ns))
      × (helper_objects loads bus show none
          ≡ returned (map (λ helper. (helper, helper_path helper)) (map name_of ns)))
unfolding client_list helper_objects command
helper_objects-helper_path loads bus show ns named children =
    let names = read_names ns named in (rw children (rw names refl), rw children (rw names refl))
