-- ===== src/Hooks/Tests.antt =====
-- The theorems about the hooks at concrete input.
use steamos_log_submitter.Base.{
  true, false, [], ◌∷◌, none, some, ◌≡◌, refl, codes, begins_with, has_part, ok, raise,
  file_not_found,
}
use steamos_log_submitter.Base.Dict.{insert}
use steamos_log_submitter.Base.Json.{num, string, arr, nil, null}
use steamos_log_submitter.Util.Read.{command, read_lines}
use steamos_log_submitter.Util.Read
use steamos_log_submitter.Hooks.Devcoredump.{
  Found, is_blocked, is_cleared, devname, filename, metadata_of, with_journal, archive_of,
}
use steamos_log_submitter.Hooks.Gpu.{Dump, choose_dump, choose_dump_foreign}
use steamos_log_submitter.Hooks.Coredump.{run, should_collect, run_triggers}

abbrev network_dump : Dump
network_dump = record {
  path = "/sys/class/devcoredump/devcd1";
  failing_dev = some "/sys/devices/pci0000:00/0000:00:1c.0";
  readable = true;
}

choose_dump_foreign_run :
    choose_dump (some "/devices/pci0000:00/0000:03:00.0") (network_dump ∷ [])
    ≡ (none, some "/sys/class/devcoredump/devcd1")
choose_dump_foreign_run =
    choose_dump_foreign "/devices/pci0000:00/0000:03:00.0" network_dump []
      (("/sys/devices/pci0000:00/0000:00:1c.0", refl, refl), tt)

mangled_run :
    ((run (codes "!app!bin!game")).staged ≡ false)
    × ((run (codes "!app!bin!game")).triggered ≡ true)
unfolding should_collect begins_with has_part
mangled_run = run_triggers (codes "!app!bin!game") refl refl

abbrev wifi : Found
wifi = record {
  failing_dev = some (codes "/sys/devices/pci0/net");
  driver = some (codes "ath11k");
  block_list = raise file_not_found;
  clear_list = ok (codes ".keep" ∷ codes "ath11k" ∷ []);
  time = 7;
  kernel = "6.1";
  branch = none;
}

archive_run :
    archive_of (λ n. codes "7") (λ s. "x") (λ args. ok []) wifi
    ≡ ok (
        some (record {
          name = codes "ath11k-devices_pci0_net-7.zip";
          metadata =
              ("timestamp", num 7)
              ∷ ("kernel", string "6.1")
              ∷ ("branch", null)
              ∷ ("failing_device", string "x")
              ∷ ("driver", string "x")
              ∷ ("journal", arr nil)
              ∷ [];
          cleared = true;
        }))
unfolding archive_of is_blocked is_cleared filename devname metadata_of with_journal
    Read.read_journal command read_lines begins_with insert
archive_run = refl

blocked_run :
    archive_of
      (λ n. codes "7")
      (λ s. "x")
      (λ args. ok [])
      (record wifi { driver = some (codes "amdgpu") })
    ≡ ok none
unfolding archive_of is_blocked begins_with
blocked_run = refl
