-- ===== src/Minidump/Tests.antt =====
-- An environment before and after.
use steamos_log_submitter.Base.{[], ◌∷◌, codes, ◌≡◌, refl, begins_with}
use steamos_log_submitter.Base.Dict.{lookup, remove}
use steamos_log_submitter.Minidump.{Environ, replace, replace_from, hide, sanitize_environ}
use steamos_log_submitter.Minidump.Sanitized.{IsSanitized, sanitize_environ-IsSanitized}

abbrev environ : Environ
environ =
    ("SteamAppUser", codes "gordon")
    ∷ ("HOME", codes "/home/deck")
    ∷ ("PATH", codes "/home/deck/bin:/run/deck")
    ∷ ("USER", codes "deck")
    ∷ []

sanitize_environ_run : sanitize_environ environ ≡ ("PATH", codes "${HOME}/bin:/run/${USER}") ∷ []
unfolding sanitize_environ hide lookup remove replace replace_from begins_with
sanitize_environ_run = refl

sanitize_environ-IsSanitized_example :
    IsSanitized (codes "/home/deck") (codes "deck") (sanitize_environ environ)
unfolding lookup
sanitize_environ-IsSanitized_example =
    sanitize_environ-IsSanitized b'/' (codes "home/deck") b'd' (codes "eck") environ refl refl
      (refl, (refl, (refl, (refl, (refl, (refl, (refl, (refl, (refl, (refl, tt))))))))))
      (refl, (refl, (refl, (refl, (refl, (refl, (refl, (refl, (refl, (refl, tt))))))))))
      (refl, (refl, (refl, (refl, tt))))
