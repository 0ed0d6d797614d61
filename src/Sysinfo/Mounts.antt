-- ===== src/Sysinfo/Mounts.antt =====
-- steamos_log_submitter/helpers/sysinfo.py: `FilesystemsType.list`.
pub mod Listed
use steamos_log_submitter.Base.{
  ℕ, String, Bool, true, false, ◌||◌, List, [], ◌∷◌, map, Option, none, some, Text, codes, text_eq,
  nat_eq, ends_with, begins_with, Result, ok, raise, Exc, value_error, other, ◌==◌, if◌then◌else◌,
}
use steamos_log_submitter.Util.Case.{lower}

-- An entry of what findmnt prints. `others` are the fields that are only passed on.
pub record Mount (Others : Type 0) : Type 0 where
  pub fstype : Text
  pub source : Text
  pub size : Option ℕ
  pub others : Others

-- `'/'.join(source.split('/')[2:])`: what comes after the second slash.
abbrev pub after_slash : Text → Text
after_slash [] = []
after_slash (c ∷ s) = if nat_eq c b'/' then s else after_slash s

abbrev pub node : Text → Text
node source = after_slash (after_slash source)

-- The exceptions that are only logged.
abbrev pub is_logged : Exc → Bool
is_logged value_error = true
is_logged (other name) = name == "AttributeError" || (name == "TypeError" || name == "DBusError")
is_logged _ = false

-- `block_size` is the property `Size` of the block device of that name, as an int.
module _ {Others : Type 0} (block_size : Text → Result ℕ) where
  abbrev pub resized : Mount Others → Result ℕ → Result (Mount Others)
  resized fs (ok n) = ok (record fs { size = some n })
  resized fs (raise e) = if is_logged e then ok fs else raise e

  abbrev pub of_device : Bool → Mount Others → Result (Mount Others)
  of_device true fs = resized fs (block_size (node fs.source))
  of_device false fs = ok fs

  abbrev pub size_or : Option ℕ → Mount Others → Result (Mount Others)
  size_or (some n) fs = ok fs
  size_or none fs = of_device (begins_with fs.source (codes "/dev/")) fs

  -- one round, for a mount that is not skipped
  abbrev pub with_size : Mount Others → Result (Mount Others)
  with_size fs = size_or fs.size fs

  unfoldable pub is_skipped : Mount Others → Bool
  is_skipped fs =
      ends_with (map lower fs.fstype) (codes ".appimage") || text_eq fs.fstype (codes "fuse.portal")

  -- The loop; an exception that is not logged ends it.
  abbrev pub add_mount :
      Result (Mount Others) → Result (List (Mount Others)) → Result (List (Mount Others))
  add_mount (raise e) rest = raise e
  add_mount (ok fs) (raise e) = raise e
  add_mount (ok fs) (ok filesystems) = ok (fs ∷ filesystems)

  unfoldable pub mounts : List (Mount Others) → Result (List (Mount Others))
  mounts [] = ok []
  mounts (fs ∷ rest) = elim (is_skipped fs) [
    | true ↦ mounts rest
    | false ↦ add_mount (with_size fs) (mounts rest)
  ]

  -- `None or filesystems`, where findmnt gave filesystems
  unfoldable pub filesystems : Option (List (Mount Others)) → Result (Option (List (Mount Others)))
  filesystems none = ok none
  filesystems (some listed) = elim (mounts listed) [ ok l ↦ ok (some l) | raise e ↦ raise e ]
