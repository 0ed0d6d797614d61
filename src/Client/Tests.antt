-- ===== src/Client/Tests.antt =====
-- The client on concrete helpers.
use steamos_log_submitter.Base.{
  String, true, false, List, [], ◌∷◌, map, none, Text, codes, Result, raise, value_error, ◌≡◌, refl,
}
use steamos_log_submitter.Base.Json.{Json}
use steamos_log_submitter.Exceptions.{returned}
use steamos_log_submitter.Helper.Names.{member}
use steamos_log_submitter.Client.{Bus, helper_path, client_list, helper_objects}
use steamos_log_submitter.Client.Sets.{validated, IsIncreasing, member-validated}
use steamos_log_submitter.Client.Paths.{Named, name_of, helper_objects-helper_path}

abbrev loads : String → Result Json
loads s = raise value_error

abbrev show : Text → String
show t = "a name"

-- gpu and log_test
abbrev names : List Named
names = ((b'g', codes "pu"), []) ∷ ((b'l', codes "og"), (b't', codes "est") ∷ []) ∷ []

abbrev bus : Bus
bus = record {
  connect = returned tt;
  child_paths = returned (map helper_path (map name_of names));
  list_logs = λ path type. returned [];
  collect_logs = λ path. returned [];
  set_enabled = λ path state. returned tt;
}

helper_objects-helper_path_run :
    (client_list loads bus ≡ returned (codes "gpu" ∷ codes "log_test" ∷ []))
    × (helper_objects loads bus show none
        ≡ returned
            (map (λ helper. (helper, helper_path helper)) (codes "gpu" ∷ codes "log_test" ∷ [])))
helper_objects-helper_path_run =
    helper_objects-helper_path loads bus show names
      (
        ((refl, (refl, (refl, tt)), refl), tt),
        (((refl, (refl, (refl, tt)), refl), ((refl, (refl, (refl, (refl, tt))), refl), tt)), tt),
      )
      refl

abbrev requested : List Text
requested = codes "kdump" ∷ codes "gpu" ∷ codes "x" ∷ codes "gpu" ∷ []

member-validated_run :
    let (valid, invalid) = validated (codes "gpu" ∷ codes "kdump" ∷ []) requested in
    (member (codes "gpu") valid ≡ true)
    × (member (codes "gpu") invalid ≡ false)
    × IsIncreasing valid
    × IsIncreasing invalid
member-validated_run = member-validated (codes "gpu") (codes "gpu" ∷ codes "kdump" ∷ []) requested
