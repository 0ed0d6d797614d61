-- ===== src/Minidump.antt =====
-- helpers/minidump.py, `MinidumpHelper.sanitize_environ`, with `str.replace`.
pub mod Replaced
pub mod Sanitized
mod Tests
use steamos_log_submitter.Base.{
  ℕ, zero, suc, String, Bool, true, false, List, [], ◌∷◌, ◌++◌, Option, none, some, Text, codes,
  begins_with, if◌then◌else◌,
}
use steamos_log_submitter.Base.Dict.{Dict, lookup, remove}

-- `s.replace(old, new)` for an `old` that is not empty; so many characters of a match are left to skip.
abbrev pub rest_length : Text → ℕ
rest_length [] = zero
rest_length (c ∷ []) = zero
rest_length (c ∷ d ∷ s) = suc (rest_length (d ∷ s))

unfoldable pub replace_from : ℕ → Text → Text → Text → Text
replace_from n old new [] = []
replace_from (suc n) old new (c ∷ s) = replace_from n old new s
replace_from zero old new (c ∷ s) = elim (begins_with (c ∷ s) old) [
  | true ↦ new ++ replace_from (rest_length old) old new s
  | false ↦ c ∷ replace_from zero old new s
]

unfoldable pub replace : Text → Text → Text → Text
replace old new s = replace_from zero old new s

-- The environment, with its values as code points.
abbrev pub Environ : Type 0
Environ = Dict Text

abbrev pub replace_all : Text → Text → Environ → Environ
replace_all old new [] = []
replace_all old new ((key, value) ∷ env) = (key, replace old new value) ∷ replace_all old new env

-- `if home:` and what follows; the same for the user.
unfoldable pub hide : String → Text → Option Text → Environ → Environ
hide key new none env = env
hide key new (some []) env = env
hide key new (some (c ∷ old)) env = replace_all (c ∷ old) new (remove key env)

unfoldable pub sanitize_environ : Environ → Environ
unfolding hide
sanitize_environ environ =
    let env = remove "SteamAppUser" environ in
    let home = lookup "HOME" env in
    let user = lookup "USER" env in
    hide "USER" (codes "${USER}") user (hide "HOME" (codes "${HOME}") home env)
