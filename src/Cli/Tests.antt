-- ===== src/Cli/Tests.antt =====
-- The command line on concrete helpers.
use steamos_log_submitter.Base.{
  not, ◌&&◌, String, true, List, [], ◌∷◌, map, Text, codes, Result, raise, value_error, ◌≡◌, refl,
}
use steamos_log_submitter.Base.Json.{Json}
use steamos_log_submitter.Exceptions.{returned}
use steamos_log_submitter.Client.{Bus, helper_path}
use steamos_log_submitter.Client.Sets.{IsIncreasing}
use steamos_log_submitter.Helper.Names.{member}
use steamos_log_submitter.Client.Paths.{Named, name_of}
use steamos_log_submitter.Cli.{complain, set_helper_enabled}
use steamos_log_submitter.Cli.Enabling.{set_helper_enabled_lem}

abbrev loads : String → Result Json
loads s = raise value_error

abbrev show : Text → String
show t = "a name"

-- gpu and log_test
abbrev names : List Named
names = ((b'g', codes "pu"), []) ∷ ((b'l', codes "og"), (b't', codes "est") ∷ []) ∷ []

abbrev bus : Bus
bus = record {
  connect = returned tt;
  child_paths = returned (map helper_path (map name_of names));
  list_logs = λ path type. returned [];
  collect_logs = λ path. returned [];
  set_enabled = λ path state. returned tt;
}

abbrev requested : List Text
requested = codes "log_test" ∷ codes "x" ∷ codes "gpu" ∷ codes "gpu" ∷ []

set_helper_enabled_lem_example :
    (valid invalid : List Text) × ((k : Text)
      → member k valid ≡ (member k requested && member k (map name_of names)))
    × ((k : Text) → member k invalid ≡ (member k requested && not (member k (map name_of names))))
    × IsIncreasing valid
    × IsIncreasing invalid
    × (set_helper_enabled loads bus show (map name_of names) requested true
        ≡ (complain invalid, (returned tt, map (λ h. (helper_path h, true)) valid)))
set_helper_enabled_lem_example =
    set_helper_enabled_lem loads bus show names requested true
      (
        ((refl, (refl, (refl, tt)), refl), tt),
        (((refl, (refl, (refl, tt)), refl), ((refl, (refl, (refl, (refl, tt))), refl), tt)), tt),
      )
      refl (λ path b. refl)
