-- ===== src/Sysinfo/Tests.antt =====
-- The theorems about system information at concrete devices.
use steamos_log_submitter.Base.{
  ℕ, zero, suc, String, true, false, List, [], ◌∷◌, ◌++◌, none, some, ◌≡◌, refl, arith,
}
use steamos_log_submitter.Base.Dict.{Dict, lookup}
use steamos_log_submitter.Base.Json.{Json, string}
use steamos_log_submitter.Sysinfo.{DeviceType, devices, merge, Kept, collect}
use steamos_log_submitter.Sysinfo.Aligned.{devices_skewed}
use steamos_log_submitter.Sysinfo.Merged.{merge-merge}
use steamos_log_submitter.Sysinfo.Private.{collect-without_disabled}
use steamos_log_submitter.Base.{codes, ok}
use steamos_log_submitter.Sysinfo.Mounts.{Mount, filesystems}
use steamos_log_submitter.Sysinfo.Mounts.Listed.{AllSized, filesystems-AllSized}
use steamos_log_submitter.Sysinfo.Edid.{Info, parse_edid, parse_edid_letters}

abbrev off : DeviceType
off = record { enabled = false; version = 1; listed = none }

abbrev on : DeviceType
on = record { enabled = true; version = 1; listed = some (string "8 GB") }

-- The batteries are disabled, and get what the file systems list.
devices_skewed_example :
    lookup "batteries" (devices (("audio", on) ∷ ("batteries", off) ∷ ("filesystems", on) ∷ []))
    ≡ some (string "8 GB")
unfolding lookup
devices_skewed_example =
    devices_skewed "batteries" "filesystems" off on (string "8 GB") [] refl refl refl
      (("audio", on) ∷ []) (refl, tt) refl

abbrev dumps : Json → String
dumps (string s) = s
dumps j = ""

merge-merge_example :
    merge dumps string (merge dumps string (string "a" ∷ []) (string "b" ∷ [])) (string "b" ∷ [])
    ≡ merge dumps string (string "a" ∷ []) (string "b" ∷ [])
merge-merge_example =
    merge-merge dumps string (string "a" ∷ []) (string "b" ∷ []) (refl, tt) (refl, tt)

abbrev kept : Kept
kept = record { cache = some (("usb", string "a" ∷ []) ∷ []); timestamp = some 5; logs = [] }

collect-without_disabled_example :
    (known : Dict (List Json)) × ((collect dumps string (("usb", off) ∷ []) 700000 604800 kept).logs
      ≡ [] ++ ((700000, known) ∷ []))
    × (lookup "usb" known ≡ none)
unfolding lookup
collect-without_disabled_example =
    collect-without_disabled dumps string (("usb", off) ∷ []) 700000 604800 kept "usb" off refl refl
      refl

abbrev zeros : ℕ → List ℕ
zeros zero = []
zeros (suc n) = 0 ∷ zeros n

-- Valve's code, VLV.
abbrev edid : List ℕ
edid = 0 ∷ 255 ∷ 255 ∷ 255 ∷ 255 ∷ 255 ∷ 255 ∷ 0 ∷ 89 ∷ 150 ∷ zeros 118

parse_edid_letters_run :
    (info : Info) × (parse_edid edid ≡ some info) × (info.pnp ≡ b'V' ∷ b'L' ∷ b'V' ∷ [])
parse_edid_letters_run =
    parse_edid_letters edid 22 12 22 (omega arith) refl (omega arith) (omega arith) (omega arith)
      (omega arith) refl

-- A file system whose size findmnt does not know, an AppImage and a file system with a size.
abbrev mount_list : List (Mount (Unit {0}))
mount_list =
    record { fstype = codes "btrfs"; source = codes "/dev/nvme0n1p8"; size = none; others = tt }
    ∷ record { fstype = codes "fuse.App.AppImage"; source = codes "App"; size = none; others = tt }
    ∷ record { fstype = codes "ext4"; source = codes "/dev/sda1"; size = some 7; others = tt }
    ∷ []

filesystems-AllSized_example :
    (news : List (Mount (Unit {0}))) × (filesystems (λ node. ok 5) (some mount_list)
      ≡ ok (some news))
    × AllSized (λ node. ok 5) mount_list news
filesystems-AllSized_example = filesystems-AllSized (λ node. ok 5) mount_list (λ device. tt)
