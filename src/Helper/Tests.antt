-- ===== src/Helper/Tests.antt =====
-- The theorems on the helper base class at concrete data.
use steamos_log_submitter.Base.{
  ℕ, [], ◌∷◌, none, some, true, false, ◌≡◌, refl, codes, Text, Result, ok, raise, file_not_found,
  has_part, begins_with,
}
use steamos_log_submitter.Base.Dict.{lookup}
use steamos_log_submitter.Config.{Config, get_item, value}
use steamos_log_submitter.Spool.{Area, pending, failed, uploaded}
use steamos_log_submitter.Helper.Switches.{
  Switches, collect_switch, submit_switch, switch, switched, switched-switch,
}
use steamos_log_submitter.Helper.Extract.{extract, search, extract_path, Finds, extract-Finds}
use steamos_log_submitter.Helper.Staging.{Pending, StagingFile, content_of, without, stage, close}
use steamos_log_submitter.Helper.Staging.Published.{appends, close-stage}
use steamos_log_submitter.Helper.Collect.{
  Section, Listing, millis, new_logs, write_config, last_collected, collect, later_than,
}
use steamos_log_submitter.Helper.Collect.Newer.{collect-later_than, collect_twice}
use steamos_log_submitter.Helper.Names.{begins, filter_log, valid, filter_log-append}

abbrev listing : Listing
listing =
    ("a.json", some 1000) ∷ ("b.json", none) ∷ ("c.json", some 3500) ∷ ("d.json", some 2000) ∷ []

abbrev section : Section
section = record { newest = some (millis 1500); has_iface = true; effects = [] }

collect_run : collect listing section ≡ (
  "c.json" ∷ "d.json" ∷ [],
  record {
    newest = some (millis 3500);
    has_iface = true;
    effects = new_logs ("c.json" ∷ "d.json" ∷ []) ∷ write_config ∷ last_collected 3 ∷ [];
  },
)
unfolding collect
collect_run = refl

collect-later_than_run : (collect listing section).0 ≡ later_than (some 1500) listing
collect-later_than_run = collect-later_than listing section

collect_twice_run : collect listing (collect listing section).1 ≡ ([], (collect listing section).1)
collect_twice_run = collect_twice listing section

filter_log_run :
    filter_log (codes ".json" ∷ []) (codes "a.b.json") ≡ valid (codes ".json" ∷ []) (codes ".json")
filter_log_run =
    filter_log-append (codes ".json" ∷ []) b'a' (codes ".b") (codes "json") refl refl refl

abbrev config : Config
config = record {
  config = [];
  local_config = [];
  local_config_path = true;
  local_file = none;
  user_file = none;
  user_writable = true;
}

abbrev switches : Switches
switches = record { section = "helpers.gpu"; has_iface = true; config = config; signals = [] }

switched_run : switched submit_switch (switch collect_switch false switches).1 ≡ true
unfolding switched get_item value lookup
switched_run = switched-switch collect_switch submit_switch false switches

-- a.zip is in `failed` and in `uploaded`.
abbrev opens : Area → Text → Result ℕ
opens pending name = raise file_not_found
opens failed name = ok 7
opens uploaded name = ok 8

extract-Finds_example :
    (begins b'.' (codes "a.zip") ≡ false)
    × (has_part (codes "a.zip") (codes "..") ≡ false)
    × Finds opens (codes "a.zip") [] 7 (pending ∷ failed ∷ uploaded ∷ [])
unfolding extract search extract_path has_part begins_with
extract-Finds_example = extract-Finds opens (codes "a.zip") [] 7 refl

abbrev files : Pending
files = (codes "old.json", 1 ∷ []) ∷ []

abbrev staged : StagingFile
staged = record { final_name = codes "new.json"; temp_name = codes ".staging-x1" }

close-stage_example :
    (filter_log (codes ".json" ∷ []) (codes ".staging-x1") ≡ false)
    × (close true
          (ok tt)
          staged
          (appends staged ((2 ∷ []) ∷ (3 ∷ 4 ∷ []) ∷ []) ((codes ".staging-x1", []) ∷ files))
        ≡ (ok tt, (codes "new.json", 2 ∷ 3 ∷ 4 ∷ []) ∷ files))
unfolding content_of without stage
close-stage_example =
    close-stage (codes ".json" ∷ []) true (codes "new.json") (codes "x1")
      ((2 ∷ []) ∷ (3 ∷ 4 ∷ []) ∷ []) files refl
