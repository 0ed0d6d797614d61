-- ===== src/Journal/FileNames.antt =====
-- The names of the pending files: `collect_inner` writes them and `submit` reads them.
use mathlib.Core.List.{append_assoc}
use steamos_log_submitter.Base.{
  ℕ, ◌<◌, Bool, true, false, ◌||◌, List, [], ◌∷◌, ◌++◌, Option, none, some, ◌≡◌, refl, ap, ◌∙◌,
  arith, Text, codes, holds, nat_eq, before_last, before_last-append, holds-append, if◌then◌else◌,
  All,
}
use steamos_log_submitter.Helper.Names.{basename, begins, stem, stem-append, basename-append}
use steamos_log_submitter.Journal.Escape.{
  encode, escape, escape_byte, escape_bytes, unescape, IsByte, IsChar, IsAscii,
}
use steamos_log_submitter.Journal.Escape.RoundTrip.{
  unescape_loop-escape_bytes, encode-bytes, encode_ascii,
}

abbrev pub unit_prefix : Bool → Text
unit_prefix user = if user then codes "user." else []

-- `unit_name` in `collect_inner`
unfoldable pub unit_name : Bool → Text → Text
unfolding escape
unit_name user unit = unit_prefix user ++ escape unit

-- f'{sls.pending}/journal/{unit_name} {invocation}.json', with the directory as a whole
unfoldable pub log_path : Text → Text → Text → Text
log_path dir name invocation = dir ++ (b'/' ∷ (name ++ (b' ' ∷ (invocation ++ codes ".json"))))

abbrev pub first_part : Text → Option Text → Text
first_part name none = name
first_part name (some part) = part

-- What `submit` makes of the name of the file: `splitext`, `rsplit(' ', 1)[0]` and `unescape`.
unfoldable pub unit_of : Text → Text
unit_of fname =
    let name = stem (basename fname) in unescape (first_part name (before_last b' ' name))

-- A slash or a dot.
abbrev pub is_separator : ℕ → Bool
is_separator c = nat_eq c b'/' || nat_eq c b'.'

holds-escape_byte : (s c : ℕ) → is_separator s ≡ true → c < 256 → holds s (escape_byte c) ≡ false
holds-escape_byte s c sep h = ground arith

holds-escape_bytes :
    (s : ℕ) (name : List ℕ)
    → is_separator s ≡ true
    → All IsByte name
    → holds s (escape_bytes name) ≡ false
unfolding escape_bytes
holds-escape_bytes s [] sep h = refl
holds-escape_bytes s (c ∷ name) sep (byte, h) =
    rw (holds-append, holds-escape_byte s c sep byte, holds-escape_bytes s name sep h)

pub holds-escape :
    (s : ℕ) (name : Text) → is_separator s ≡ true → All IsChar name → holds s (escape name) ≡ false
unfolding escape
holds-escape s name sep h = holds-escape_bytes s (encode name) sep (encode-bytes name h)

stem-log :
    (name invocation : Text)
    → begins b'.' name ≡ false
    → stem (name ++ (b' ' ∷ (invocation ++ codes ".json"))) ≡ name ++ (b' ' ∷ invocation)
stem-log [] invocation h = stem-append b' ' invocation (codes "json") refl refl
stem-log (a ∷ name) invocation h =
    rw (← append_assoc name (b' ' ∷ invocation) (codes ".json"))
      (stem-append a (name ++ (b' ' ∷ invocation)) (codes "json") h refl)

begins-holds : (c : ℕ) (s : Text) → holds c s ≡ false → begins c s ≡ false
begins-holds c [] h = refl
begins-holds c (a ∷ s) h = ground arith

unescape-unit_name :
    (user : Bool) (unit : Text)
    → All IsChar unit
    → unescape (unit_name user unit) ≡ unit_prefix user ++ encode unit
unfolding unit_name unescape escape
unescape-unit_name true unit h =
    unescape_loop-escape_bytes (encode unit) (codes "user.") (encode-bytes unit h)
unescape-unit_name false unit h = unescape_loop-escape_bytes (encode unit) [] (encode-bytes unit h)

begins-unit_name :
    (user : Bool) (unit : Text) → All IsChar unit → begins b'.' (unit_name user unit) ≡ false
unfolding unit_name
begins-unit_name true unit h = refl
begins-unit_name false unit h = begins-holds b'.' (escape unit) (holds-escape b'.' unit refl h)

slash-unit_name :
    (user : Bool) (unit : Text) → All IsChar unit → holds b'/' (unit_name user unit) ≡ false
unfolding unit_name
slash-unit_name true unit h = holds-escape b'/' unit refl h
slash-unit_name false unit h = holds-escape b'/' unit refl h

slash-log :
    (name invocation : Text)
    → holds b'/' name ≡ false
    → holds b'/' invocation ≡ false
    → holds b'/' (name ++ (b' ' ∷ (invocation ++ codes ".json"))) ≡ false
slash-log name invocation h k = simp (holds-append, h, k)

-- For every unit name and every invocation id with neither a slash nor a space: what `submit` recovers
-- from the name of the pending file that the collection writes is the UTF-8 encoding of the unit's
-- name, each byte as a character, for a user unit behind `user.`; if the name is ASCII, that is the
-- name itself. No slash, dot or space of the unit's name can confuse it.
pub unit_of-log_path :
    (user : Bool) (dir invocation unit : Text)
    → All IsChar unit
    → holds b'/' invocation ≡ false
    → holds b' ' invocation ≡ false
    → (unit_of (log_path dir (unit_name user unit) invocation) ≡ unit_prefix user ++ encode unit)
      × (All IsAscii unit
          → unit_of (log_path dir (unit_name user unit) invocation) ≡ unit_prefix user ++ unit)
unfolding unit_of log_path
unit_of-log_path user dir invocation unit h no_slash no_space =
    let name = unit_name user unit in
    let read : unit_of (log_path dir name invocation) ≡ unit_prefix user ++ encode unit =
      rw
        (basename-append dir (name ++ (b' ' ∷ (invocation ++ codes ".json")))
          (slash-log name invocation (slash-unit_name user unit h) no_slash))
        (rw (stem-log name invocation (begins-unit_name user unit h)) (
          rw (before_last-append b' ' name invocation no_space)
            (unescape-unit_name user unit h))) in
    (read, λ ascii. read ∙ ap (λ u. unit_prefix user ++ u) (encode_ascii unit ascii))
