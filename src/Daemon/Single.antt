-- ===== src/Daemon/Single.antt =====
-- At most one `_trigger` is past its guard.
use steamos_log_submitter.Base.{
  ℕ, ◌≤◌, Bool, true, false, List, ◌∷◌, Option, none, some, ◌≡◌, refl, arith,
}
use steamos_log_submitter.Daemon.{
  Stage, running, joining, Tasks, stage_of, drop_task, Daemon, with_stage, finish_trigger,
  spawn_periodic, join_task, resume_trigger, Event, play,
}
use steamos_log_submitter.Daemon.Preserved.{
  weight, busy, if_both, busy-drop_task, weight-stage_of, cancel-Holds, play-Holds,
}

abbrev pub allowed : Bool → ℕ
allowed true = 1
allowed false = 0

abbrev pub AtMost : Tasks → Bool → Type 0
AtMost tasks active = busy tasks ≤ allowed active

-- No more than one, and none unless `_trigger_active` is set.
abbrev pub IsSingle : Daemon → Type 0
IsSingle d = AtMost d.tasks d.trigger_active

drops :
    (i : ℕ) (tasks : Tasks) (active : Bool)
    → AtMost tasks active
    → AtMost (drop_task i tasks) active
drops i tasks active h = omega (arith, busy-drop_task i tasks)

adds :
    (i : ℕ) (s : Stage) (tasks : Tasks) (active : Bool)
    → weight s ≡ 0
    → AtMost tasks active
    → AtMost ((i, s) ∷ tasks) active
unfolding busy
adds i s tasks active idle h = omega arith

runs : (i : ℕ) (tasks : Tasks) → AtMost tasks false → AtMost ((i, running) ∷ drop_task i tasks) true
unfolding busy
runs i tasks h = omega (arith, busy-drop_task i tasks)

-- The task `i` is the one that counts, if any does.
abbrev pub IsSole : ℕ → Daemon → Type 0
IsSole i d = busy (drop_task i d.tasks) ≤ 0

stage_of-sole :
    (i : ℕ) (s : Stage) (tasks : Tasks) (active : Bool)
    → stage_of i tasks ≡ some s
    → weight s ≡ 1
    → AtMost tasks active
    → (busy (drop_task i tasks) ≤ 0) × (active ≡ true)
stage_of-sole i s tasks active at one h = ground (arith, weight-stage_of i s tasks at)

finishes :
    (i t : ℕ) (tasks : Tasks) (active : Bool)
    → stage_of i tasks ≡ some (joining t)
    → AtMost tasks active
    → AtMost (drop_task i tasks) false
finishes i t tasks active at h = (stage_of-sole i (joining t) tasks active at refl h).0

joins-IsSingle :
    (i t : ℕ) (d : Daemon)
    → IsSole i d
    → d.trigger_active ≡ true
    → IsSingle (with_stage i (joining t) d)
unfolding busy
joins-IsSingle i t d h active = rw active (omega arith)

join_task-IsSingle :
    (i : ℕ) (old : Option ℕ) (d : Daemon)
    → IsSole i d
    → d.trigger_active ≡ true
    → IsSingle (join_task i old d)
unfolding finish_trigger
join_task-IsSingle i none d h active = h
join_task-IsSingle i (some t) d h active =
    cancel-Holds AtMost drops adds runs finishes t (with_stage i (joining t) d)
      (joins-IsSingle i t d h active)

spawn_periodic-IsSole : (i : ℕ) (d : Daemon) → IsSole i d → IsSole i (spawn_periodic d)
unfolding drop_task busy
spawn_periodic-IsSole i d h = ground arith

resume_trigger-IsSingle :
    (i : ℕ) (writable : Bool) (d : Daemon)
    → IsSingle d
    → stage_of i d.tasks ≡ some running
    → IsSingle (resume_trigger i writable d)
unfolding resume_trigger
resume_trigger-IsSingle i false d h at = drops i d.tasks d.trigger_active h
resume_trigger-IsSingle i true d h at =
    let (sole, active) = stage_of-sole i running d.tasks d.trigger_active at refl h in
    if_both d.serving (λ e. IsSingle (join_task i d.periodic_task e))
      (join_task-IsSingle i d.periodic_task (spawn_periodic d) (spawn_periodic-IsSole i d sole)
        active)
      (join_task-IsSingle i d.periodic_task d sole active)

-- Whatever methods are called, in whatever order the tasks go on, and whether or not the
-- configuration can be written: if at most one task is between the guard of `_trigger` and its end,
-- and none while `_trigger_active` is not set, this stays so.
pub play-IsSingle : (events : List Event) (d : Daemon) → IsSingle d → IsSingle (play events d)
play-IsSingle events d h =
    play-Holds AtMost drops adds runs finishes resume_trigger-IsSingle events d h
