-- ===== src/Minidump/Sanitized.antt =====
-- What the environment of a crashed program no longer tells.
use steamos_log_submitter.Base.{
  ℕ, zero, String, false, [], ◌∷◌, none, some, Text, codes, has_part, ◌≡◌, refl, ◌∙◌, arith,
}
use steamos_log_submitter.Base.Dict.{lookup, remove, lookup-remove}
use steamos_log_submitter.Minidump.{replace, Environ, replace_all, hide, sanitize_environ}
use steamos_log_submitter.Minidump.Replaced.{Apart, has_part-replace_from, has_part-replaced}

-- No value has the text in it.
abbrev pub Lacks : Text → Environ → Type 0
Lacks t [] = Unit
Lacks t ((key, value) ∷ env) = (has_part value t ≡ false) × Lacks t env

replace_all-replaced :
    (o : ℕ) (os : Text) (a : ℕ) (new : Text) (env : Environ)
    → Apart (a ∷ new) (o ∷ os)
    → Lacks (o ∷ os) (replace_all (o ∷ os) (a ∷ new) env)
unfolding replace
replace_all-replaced o os a new [] h = tt
replace_all-replaced o os a new ((key, value) ∷ env) h =
    (has_part-replaced zero o os a new value h, replace_all-replaced o os a new env h)

replace_all-Lacks :
    (old : Text) (a : ℕ) (new : Text) (b : ℕ) (t : Text) (env : Environ)
    → Apart (a ∷ new) (b ∷ t)
    → Lacks (b ∷ t) env
    → Lacks (b ∷ t) (replace_all old (a ∷ new) env)
unfolding replace
replace_all-Lacks old a new b t [] h k = tt
replace_all-Lacks old a new b t ((key, value) ∷ env) h (v, k) =
    (has_part-replace_from zero old a new value b t h v, replace_all-Lacks old a new b t env h k)

remove-Lacks : (key : String) (t : Text) (env : Environ) → Lacks t env → Lacks t (remove key env)
unfolding remove
remove-Lacks key t [] h = tt
remove-Lacks key t ((k, v) ∷ env) (hv, h) = ground (arith, hv, remove-Lacks key t env h)

lookup-replace_all :
    (key : String) (old new : Text) (env : Environ)
    → lookup key env ≡ none
    → lookup key (replace_all old new env) ≡ none
unfolding lookup
lookup-replace_all key old new [] h = refl
lookup-replace_all key old new ((k, v) ∷ env) h = ground (arith, lookup-replace_all key old new env)

lookup_removed :
    (k j : String) (env : Environ) → lookup j env ≡ none → lookup j (remove k env) ≡ none
lookup_removed k j env h = lookup-remove k j env ∙ ground (arith, h)

-- The names that must go, and the two texts.
abbrev pub IsSanitized : Text → Text → Environ → Type 0
IsSanitized home user env =
    (lookup "SteamAppUser" env ≡ none)
    × (lookup "HOME" env ≡ none)
    × (lookup "USER" env ≡ none)
    × Lacks home env
    × Lacks user env

module _ (h : ℕ) (home : Text) (u : ℕ) (user : Text) (environ : Environ) where
  hidden :
      lookup "HOME" environ ≡ some (h ∷ home)
      → lookup "USER" environ ≡ some (u ∷ user)
      → sanitize_environ environ
        ≡ replace_all (u ∷ user) (codes "${USER}") (
            remove "USER" (
              replace_all
                (h ∷ home)
                (codes "${HOME}")
                (remove "HOME" (remove "SteamAppUser" environ))))
  unfolding sanitize_environ hide
  hidden has_home has_user =
      rw
        (
          lookup-remove "SteamAppUser" "HOME" environ ∙ has_home,
          lookup-remove "SteamAppUser" "USER" environ ∙ has_user,
        )
        refl

  -- The environment names a home and a user, neither empty nor with a character of `${HOME}` or
  -- `${USER}`: afterwards the three variables are gone, and neither the home nor the user's name is
  -- part of any value.
  pub sanitize_environ-IsSanitized :
      lookup "HOME" environ ≡ some (h ∷ home)
      → lookup "USER" environ ≡ some (u ∷ user)
      → Apart (codes "${HOME}") (h ∷ home)
      → Apart (codes "${USER}") (h ∷ home)
      → Apart (codes "${USER}") (u ∷ user)
      → IsSanitized (h ∷ home) (u ∷ user) (sanitize_environ environ)
  sanitize_environ-IsSanitized has_home has_user apart_home apart_both apart_user =
      let env : Environ = remove "HOME" (remove "SteamAppUser" environ) in
      let first : Environ = replace_all (h ∷ home) (codes "${HOME}") env in
      rw (hidden has_home has_user) (
        lookup-replace_all "SteamAppUser" (u ∷ user) (codes "${USER}") (remove "USER" first) (
            lookup_removed "USER" "SteamAppUser" first (
              lookup-replace_all "SteamAppUser" (h ∷ home) (codes "${HOME}") env (
                lookup_removed "HOME" "SteamAppUser" (remove "SteamAppUser" environ)
                  (lookup-remove "SteamAppUser" "SteamAppUser" environ)))),
        lookup-replace_all "HOME" (u ∷ user) (codes "${USER}") (remove "USER" first) (
            lookup_removed "USER" "HOME" first (
              lookup-replace_all "HOME" (h ∷ home) (codes "${HOME}") env
                (lookup-remove "HOME" "HOME" (remove "SteamAppUser" environ)))),
        lookup-replace_all "USER" (u ∷ user) (codes "${USER}") (remove "USER" first)
            (lookup-remove "USER" "USER" first),
        replace_all-Lacks (u ∷ user) b'$' (codes "{USER}") h home (remove "USER" first) apart_both (
            remove-Lacks "USER" (h ∷ home) first
              (replace_all-replaced h home b'$' (codes "{HOME}") env apart_home)),
        replace_all-replaced u user b'$' (codes "{USER}") (remove "USER" first) apart_user,
      )
