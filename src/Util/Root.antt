-- ===== src/Util/Root.antt =====
-- util.py, `drop_root`, on the effective ids of the process.
pub mod Restored
use steamos_log_submitter.Base.{
  ℕ, Bool, true, false, not, ◌&&◌, Result, ok, raise, Exc, permission, nat_eq, if◌then◌else◌,
}

-- The effective user and group.
pub record Ids : Type 0 where
  pub uid : ℕ
  pub gid : ℕ

-- A `drop_root` with its targets as numbers, after `__enter__` has saved the ids.
pub record DropRoot : Type 0 where
  pub target_uid : ℕ
  pub target_gid : ℕ
  pub saved : Ids

-- `may` says whether the system lets a process with these ids set its group or user to that number.
module _ (may : Ids → Bool → ℕ → Bool) where
  -- os.setegid and os.seteuid; a refusal is a PermissionError
  unfoldable pub setegid : ℕ → Ids → Result (Unit {0}) × Ids
  setegid g i = if may i true g then (ok tt, record i { gid = g }) else (raise permission, i)

  unfoldable pub seteuid : ℕ → Ids → Result (Unit {0}) × Ids
  seteuid u i = if may i false u then (ok tt, record i { uid = u }) else (raise permission, i)

  abbrev pub and_then :
      Result (Unit {0}) × Ids → (Ids → Result (Unit {0}) × Ids) → Result (Unit {0}) × Ids
  and_then (raise e, i) next = (raise e, i)
  and_then (ok _, i) next = next i

  unfoldable pub enter : ℕ → ℕ → Ids → Result (Unit {0}) × Ids
  unfolding setegid seteuid
  enter target_uid target_gid i =
      if nat_eq i.uid target_uid && nat_eq i.gid target_gid
      then (ok tt, i)
      else and_then (setegid target_gid i) (seteuid target_uid)

  -- `__exit__` logs a refusal; its value says whether an exception goes on.
  unfoldable pub exit : Ids → Bool → Ids → Bool × Ids
  unfolding setegid seteuid
  exit saved raised i = (not raised, (and_then (seteuid saved.uid i) (setegid saved.gid)).1)
