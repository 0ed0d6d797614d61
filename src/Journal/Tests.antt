-- ===== src/Journal/Tests.antt =====
-- The theorems at concrete names; `test_escape` and `test_unescape` of the source.
use steamos_log_submitter.Base.{[], ◌∷◌, All, ◌≡◌, refl, arith, false, codes}
use steamos_log_submitter.Journal.Escape.{encode, escape, unescape, IsAscii}
use steamos_log_submitter.Journal.Escape.RoundTrip.{unescape-escape}
use steamos_log_submitter.Journal.FileNames.{unit_name, log_path, unit_of, unit_of-log_path}

-- The letter ä: `submit` takes its two bytes for two letters.
unescape_bytes : unescape (escape (228 ∷ [])) ≡ 195 ∷ 164 ∷ []
unfolding unescape escape
unescape_bytes = refl

escape_run : escape (codes "abc/def_") ≡ codes "abc_2fdef_5f"
unfolding escape
escape_run = refl

unescape_run : unescape (codes "abc_2xdef_5f") ≡ codes "abcdef_"
unfolding unescape
unescape_run = refl

unescape_shifted : unescape (codes "abc_xdef_5f") ≡ codes "abcef_"
unfolding unescape
unescape_shifted = refl

unescape-escape_example :
    unescape (escape (codes "a b/c_d.service")) ≡ encode (codes "a b/c_d.service")
unescape-escape_example = unescape-escape (codes "a b/c_d.service") (omega arith)

unit_of-log_path_example :
    let name =
      unit_of
        (log_path (codes "/p/journal") (unit_name false (codes "rauc.service")) (codes "0f1e")) in
    (name ≡ encode (codes "rauc.service"))
    × (All IsAscii (codes "rauc.service") → name ≡ codes "rauc.service")
unit_of-log_path_example =
    unit_of-log_path false (codes "/p/journal") (codes "0f1e") (codes "rauc.service") (omega arith)
      refl refl
