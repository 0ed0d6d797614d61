-- ===== src/Helper/Names.antt =====
-- Which files of a directory are logs: `Helper.filter_log` and `Helper.list_type`.
use steamos_log_submitter.Base.{
  ℕ, Bool, true, false, ◌&&◌, ◌||◌, List, [], ◌∷◌, ◌++◌, none, some, ◌≡◌, refl, Text, text_eq,
  from_last, from_last-none, from_last-append, before_last, before_last-append, nat_eq, holds,
  if◌then◌else◌, Result, ok, raise,
}

-- os.path.basename
unfoldable pub basename : Text → Text
basename path = elim (from_last b'/' path) [
  | none ↦ path
  | some [] ↦ path
  | some (slash ∷ name) ↦ name
]

abbrev pub drop_dots : Text → Text
drop_dots [] = []
drop_dots (c ∷ s) = let rest = drop_dots s in if nat_eq c b'.' then rest else c ∷ s

-- The second part of os.path.splitext, for a name with no slash: leading dots begin no extension.
unfoldable pub extension : Text → Text
extension name = elim (from_last b'.' (drop_dots name)) [ none ↦ [] | some ext ↦ ext ]

-- The first part of os.path.splitext, for a name with no slash.
unfoldable pub stem : Text → Text
stem name = elim (from_last b'.' (drop_dots name)) [
  | none ↦ name
  | some ext ↦ elim (before_last b'.' name) [ none ↦ name | some root ↦ root ]
]

abbrev pub member : Text → List Text → Bool
member s [] = false
member s (t ∷ ts) = text_eq s t || member s ts

abbrev pub begins : ℕ → Text → Bool
begins c [] = false
begins c (a ∷ s) = nat_eq a c

-- No `valid_extensions` at all means that every extension is valid.
abbrev pub valid : List Text → Text → Bool
valid [] ext = true
valid (t ∷ ts) ext = member ext (t ∷ ts)

unfoldable pub filter_log : List Text → Text → Bool
filter_log valid_extensions fname =
    if begins b'.' fname then false else valid valid_extensions (extension (basename fname))

-- `os.listdir`, which may raise, gives each name with whether `os.access` lets it be read.
unfoldable pub list_type : List Text → Result (List (Text × Bool)) → List Text
list_type valid_extensions (raise e) = []
list_type valid_extensions (ok []) = []
list_type valid_extensions (ok ((log, readable) ∷ entries)) =
    let rest = list_type valid_extensions (ok entries) in
    if filter_log valid_extensions log && readable then log ∷ rest else rest

basename-plain : (name : Text) → holds b'/' name ≡ false → basename name ≡ name
unfolding basename
basename-plain name h = rw (from_last-none b'/' name h, basename)

drop_dots-plain : (c : ℕ) (s : Text) → nat_eq c b'.' ≡ false → drop_dots (c ∷ s) ≡ c ∷ s
drop_dots-plain c s h = rw h refl

extension-append :
    (c : ℕ) (root ext : Text)
    → nat_eq c b'.' ≡ false
    → holds b'.' ext ≡ false
    → extension (c ∷ (root ++ (b'.' ∷ ext))) ≡ b'.' ∷ ext
unfolding extension
extension-append c root ext plain no_dot = rw (
  drop_dots-plain c (root ++ (b'.' ∷ ext)) plain,
  from_last-append b'.' (c ∷ root) ext no_dot,
  extension,
)

-- A name `root.ext`, with no slash, no dot in `ext`, and a root that begins with no dot, passes
-- exactly if the helper accepts every extension or `.ext` is one of those it accepts.
pub filter_log-append :
    (valid_extensions : List Text) (c : ℕ) (root ext : Text)
    → nat_eq c b'.' ≡ false
    → holds b'.' ext ≡ false
    → holds b'/' (c ∷ (root ++ (b'.' ∷ ext))) ≡ false
    → filter_log valid_extensions (c ∷ (root ++ (b'.' ∷ ext))) ≡ valid valid_extensions (b'.' ∷ ext)
unfolding filter_log
filter_log-append valid_extensions c root ext plain no_dot no_slash = rw plain (
    rw (basename-plain (c ∷ (root ++ (b'.' ∷ ext))) no_slash)
      (rw (extension-append c root ext plain no_dot) refl))

pub stem-append :
    (c : ℕ) (root ext : Text)
    → nat_eq c b'.' ≡ false
    → holds b'.' ext ≡ false
    → stem (c ∷ (root ++ (b'.' ∷ ext))) ≡ c ∷ root
unfolding stem
stem-append c root ext plain no_dot = rw (
  drop_dots-plain c (root ++ (b'.' ∷ ext)) plain,
  from_last-append b'.' (c ∷ root) ext no_dot,
  before_last-append b'.' (c ∷ root) ext no_dot,
  stem,
)

pub basename-append :
    (dir name : Text) → holds b'/' name ≡ false → basename (dir ++ (b'/' ∷ name)) ≡ name
unfolding basename
basename-append dir name h = rw (from_last-append b'/' dir name h, basename)
