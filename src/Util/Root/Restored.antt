-- ===== src/Util/Root/Restored.antt =====
-- The ids after a `with drop_root():` block.
use steamos_log_submitter.Base.{ℕ, Bool, true, false, not, ok, nat_eq, if◌then◌else◌, ◌≡◌, arith}
use steamos_log_submitter.Util.Root.{Ids, enter, exit}

-- What Linux grants of this: a process of root may set its group and user to any number, any other
-- only to those it is entitled to.
abbrev pub linux : (Bool → ℕ → Bool) → Ids → Bool → ℕ → Bool
linux entitled i is_group n = if nat_eq i.uid 0 then true else entitled is_group n

-- A process of root enters the block with the target ids and leaves it with its own, whatever
-- happens in the block, since a process may always go back to the user that it really is.
pub exit-enter :
    (entitled : Bool → ℕ → Bool) (target_uid target_gid gid : ℕ) (raised : Bool)
    → entitled false 0 ≡ true
    → (enter (linux entitled) target_uid target_gid (record { uid = 0; gid = gid })
        ≡ (ok tt, record { uid = target_uid; gid = target_gid }))
      × (exit
            (linux entitled)
            (record { uid = 0; gid = gid })
            raised
            (record { uid = target_uid; gid = target_gid })
          ≡ (not raised, record { uid = 0; gid = gid }))
unfolding enter exit
exit-enter entitled target_uid target_gid gid raised h = (ground arith, rw h (ground arith))
