-- ===== src/Hooks/Devcoredump.antt =====
-- hooks/devcoredump.py: which device coredumps are archived, under what name and with what metadata.
use steamos_log_submitter.Base.{
  ℕ, String, Bool, true, false, List, [], ◌∷◌, ◌++◌, map, Option, none, some, Result, ok, raise,
  ◌>>=◌, Text, codes, text_eq, begins_with, nat_eq, if◌then◌else◌,
}
use steamos_log_submitter.Base.Dict.{Dict, lookup, insert}
use steamos_log_submitter.Base.Json.{Json, num, string, arr, null, texts_of}
use steamos_log_submitter.Journal.Units.{Log}
use steamos_log_submitter.Util.Read.{Query, command, keeps, read_lines}
use steamos_log_submitter.Util.Read

-- What the hook finds: the links of the device and its driver, none if they cannot be read, the lists of
-- drivers (an OSError leaves them as they are), the time, the kernel's release and the branch.
pub record Found : Type 0 where
  pub failing_dev : Option Text
  pub driver : Option Text
  pub block_list : Result (List Text)
  pub clear_list : Result (List Text)
  pub time : ℕ
  pub kernel : String
  pub branch : Option String

abbrev pub shown_names : List Text → List Text
shown_names [] = []
shown_names (name ∷ names) =
    let rest = shown_names names in if begins_with name (codes ".") then rest else name ∷ rest

abbrev pub extended : List Text → Result (List Text) → List Text
extended names (ok more) = names ++ shown_names more
extended names (raise e) = names

abbrev pub member : Text → List Text → Bool
member s [] = false
member s (t ∷ ts) = if text_eq t s then true else member s ts

abbrev pub listed : Option Text → List Text → Bool
listed none names = false
listed (some driver) names = member driver names

unfoldable pub is_blocked : Found → Bool
is_blocked f = listed f.driver (extended (codes "amdgpu" ∷ []) f.block_list)

unfoldable pub is_cleared : Found → Bool
is_cleared f = listed f.driver (extended [] f.clear_list)

-- `s.removeprefix(p)`
abbrev pub after : Text → Text → Option Text
after s [] = some s
after [] (b ∷ t) = none
after (a ∷ s) (b ∷ t) = if nat_eq a b then after s t else none

abbrev pub removeprefix : Text → Text → Text
removeprefix s p = elim (after s p) [ none ↦ s | some rest ↦ rest ]

unfoldable pub devname : Text → Text
devname failing_dev =
    map (λ c. if nat_eq c b'/' then b'_' else c)
      (removeprefix (removeprefix failing_dev (codes "/sys")) (codes "/"))

pub record Archive : Type 0 where
  pub name : Text
  pub metadata : Dict Json
  pub cleared : Bool

-- `str` of the time, the string of code points, and what journalctl prints.
module _ (str : ℕ → Text) (of_codes : Text → String)
    (journalctl : List String → Result (List Log)) where
  abbrev pub suffix : ℕ → Text
  suffix time = b'-' ∷ (str time ++ codes ".zip")

  unfoldable pub filename : Found → Text
  unfolding devname
  filename f = elim f.failing_dev [
    | none ↦ codes "unknown" ++ suffix f.time
    | some dev ↦ elim f.driver [
      | none ↦ devname dev ++ suffix f.time
      | some driver ↦ driver ++ (b'-' ∷ (devname dev ++ suffix f.time))
    ]
  ]

  abbrev pub messages : List Log → List String
  messages [] = []
  messages (line ∷ journal) =
      let rest = messages journal in
      elim (lookup "MESSAGE" line) [ none ↦ rest | some message ↦ message ∷ rest ]

  abbrev pub kernel_query : Query
  kernel_query = record {
    unit = "kernel";
    cursor = none;
    current_boot = true;
    start_ago_ms = some "15000";
    uid = none;
    allow_system = true;
    allow_user = false;
  }

  abbrev pub put_text : String → Option Text → Dict Json → Dict Json
  put_text key none metadata = metadata
  put_text key (some s) metadata = insert key (string (of_codes s)) metadata

  abbrev pub branch_value : Option String → Json
  branch_value none = null
  branch_value (some s) = string s

  unfoldable pub metadata_of : Found → Dict Json
  metadata_of f = put_text "driver" f.driver (
      put_text "failing_device" f.failing_dev (
        ("timestamp", num f.time)
        ∷ ("kernel", string f.kernel)
        ∷ ("branch", branch_value f.branch)
        ∷ []))

  abbrev pub put_journal : Option (List Log) → Dict Json → Dict Json
  put_journal none metadata = metadata
  put_journal (some journal) metadata =
      insert "journal" (arr (texts_of (messages journal))) metadata

  -- The journal is read only for a known driver.
  unfoldable pub with_journal : Option Text → Dict Json → Result (Dict Json)
  unfolding Read.read_journal
  with_journal none metadata = ok metadata
  with_journal (some driver) metadata =
      Read.read_journal journalctl kernel_query >>= (λ r. ok (put_journal r.0 metadata))

  -- What is archived; none for a driver that is blocked, for which no collection is triggered.
  unfoldable pub archive_of : Found → Result (Option Archive)
  unfolding is_blocked is_cleared filename metadata_of with_journal
  archive_of f = elim (is_blocked f) [
    | true ↦ ok none
    | false ↦ with_journal f.driver (metadata_of f) >>= (λ metadata.
        ok (some (record { name = filename f; metadata = metadata; cleared = is_cleared f })))
  ]
