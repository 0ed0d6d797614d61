-- ===== src/Daemon/Stuck.antt =====
-- A trigger that is cancelled leaves `_trigger_active` set.
use mathlib.Core.Path.{subst}
use steamos_log_submitter.Base.{
  sym, ap, ◌∙◌, if◌then◌else◌, ℕ, suc, ◌≤◌, Bool, true, false, not, ◌&&◌, List, Option, none, some,
  ◌≡◌, refl, arith,
}
use steamos_log_submitter.Daemon.{
  Stage, running, joining, Tasks, stage_of, Daemon, ended, ended_by, cancelled, ends_call,
  rescheduled, called, deliver, count, cancel_at, cancel_task, task_failed, is_failure,
  ensure_periodic, same, after_async, set_enabled, end_of, blocked, cancel, seen_by,
  cancel_periodic, periodic_failed, update_schedule, write_enabled, enable, Event, enables, step,
  play,
}
use steamos_log_submitter.Daemon.Preserved.{
  weight, busy, busy-drop_task, weight-stage_of, play-Holds,
}
use steamos_log_submitter.Daemon.Single.{IsSingle}

-- `_trigger_active` is set and no task will reset it.
abbrev pub Stuck : Tasks → Bool → Type 0
Stuck tasks active = (active ≡ true) × (busy tasks ≤ 0)

abbrev pub IsStuck : Daemon → Type 0
IsStuck d = Stuck d.tasks d.trigger_active

-- A task that counts is not there.
not_busy :
    (i : ℕ) (s : Stage) (tasks : Tasks)
    → stage_of i tasks ≡ some s
    → weight s ≡ 1
    → busy tasks ≤ 0
    → ⊥
not_busy i s tasks at one h = ground (arith, weight-stage_of i s tasks at)

play-IsStuck : (events : List Event) (d : Daemon) → IsStuck d → IsStuck (play events d)
unfolding busy
play-IsStuck events d h =
    play-Holds Stuck
      (λ i tasks active (set, none_busy). (set, omega (arith, busy-drop_task i tasks)))
      (λ i s tasks active idle (set, none_busy). (set, omega arith))
      (λ i tasks (set, none_busy). absurd (ground arith))
      (λ i t tasks active at (set, none_busy).
        absurd (not_busy i (joining t) tasks at refl none_busy))
      (λ i writable d (set, none_busy) at. absurd (not_busy i running d.tasks at refl none_busy))
      events d h

seen_by-running :
    (fuel t : ℕ) (d : Daemon) → stage_of t d.tasks ≡ some running → seen_by (suc fuel) t d ≡ some t
unfolding seen_by
seen_by-running fuel t d at = rw (at, seen_by) refl

cancel-running :
    (t : ℕ) (d : Daemon) → stage_of t d.tasks ≡ some running → cancel t d ≡ ended_by cancelled t d
unfolding cancel
cancel-running t d at =
    ap (λ o. deliver o d) (seen_by-running (count d.tasks) t d at) ∙ ap (λ s. cancel_at t s d) at

abbrev forgotten : Daemon → Daemon
forgotten d = record d { periodic_task = none }

update_schedule-cancelled :
    (t : ℕ) (d : Daemon)
    → blocked d ≡ true
    → d.periodic_task ≡ some t
    → end_of t d.unreturned ≡ none
    → stage_of t d.tasks ≡ some running
    → update_schedule d ≡ record (ended_by cancelled t d) { periodic_task = none }
unfolding update_schedule cancel_periodic periodic_failed
update_schedule-cancelled t d off periodic alive at =
    let no_failure : periodic_failed d ≡ false =
      ap (λ o. task_failed o d.unreturned) periodic ∙ ap is_failure alive in
    ap (λ b. if b then cancel_periodic d else ensure_periodic d.periodic_task d) off
    ∙ ap (λ o. cancel_task o d) periodic
    ∙ ap (λ b. if b then d else record (cancel t d) { periodic_task = none }) no_failure
    ∙ ap forgotten (cancel-running t d at)

update_schedule-IsStuck :
    (t : ℕ) (d : Daemon)
    → IsSingle d
    → blocked d ≡ true
    → d.periodic_task ≡ some t
    → end_of t d.unreturned ≡ none
    → stage_of t d.tasks ≡ some running
    → IsStuck (update_schedule d)
update_schedule-IsStuck t d h off periodic alive at =
    subst IsStuck (sym (update_schedule-cancelled t d off periodic alive at))
      (ground (arith, weight-stage_of t running d.tasks at))

ends_call-IsStuck :
    (raises : Bool) (i : ℕ) (d : Daemon) → IsStuck d → IsStuck (ends_call raises i d)
ends_call-IsStuck true i d (set, none_busy) = (set, omega (arith, busy-drop_task i d.tasks))
ends_call-IsStuck false i d (set, none_busy) = (set, omega (arith, busy-drop_task i d.tasks))

rescheduled-IsStuck :
    (i t : ℕ) (d : Daemon)
    → IsSingle d
    → blocked d ≡ true
    → d.periodic_task ≡ some t
    → end_of t d.unreturned ≡ none
    → stage_of t d.tasks ≡ some running
    → IsStuck (rescheduled i d)
rescheduled-IsStuck i t d h off periodic alive at =
    ends_call-IsStuck (blocked d && periodic_failed d) i (update_schedule d)
      (update_schedule-IsStuck t d h off periodic alive at)

disabled-IsStuck :
    (t : ℕ) (d : Daemon)
    → IsSingle d
    → d.enabled ≡ true
    → d.async_trigger ≡ none
    → d.periodic_task ≡ some t
    → end_of t d.unreturned ≡ none
    → stage_of t d.tasks ≡ some running
    → IsStuck (step (enables true false) d)
unfolding step enable write_enabled
disabled-IsStuck t d h on free periodic alive at =
    let off = record (called d) { enabled = false } in
    let wait : Option ℕ → Daemon =
      λ o. after_async o d.fresh (set_enabled false) (called d) (rescheduled d.fresh off) in
    let changes : same d.enabled false ≡ false = ap not on in
    subst IsStuck
      (sym (
        ap (λ b. if b then ended d.fresh (called d) else wait d.async_trigger) changes
        ∙ ap wait free))
      (rescheduled-IsStuck d.fresh t off h (ground arith) periodic alive at)

-- While the periodic task waits for the collection and submission, the daemon is disabled, and the
-- configuration can be written; it is enabled till then, there is no asynchronous trigger, no task
-- of that number has failed, and at most one task is past the guard of `_trigger`. From then on,
-- whatever is called and whatever goes on, `_trigger_active` stays set and no task ever collects and
-- submits again, also after the daemon is enabled once more.
pub play_sticks :
    (events : List Event) (t : ℕ) (d : Daemon)
    → IsSingle d
    → d.enabled ≡ true
    → d.async_trigger ≡ none
    → d.periodic_task ≡ some t
    → end_of t d.unreturned ≡ none
    → stage_of t d.tasks ≡ some running
    → IsStuck (play events (step (enables true false) d))
play_sticks events t d h on free periodic alive at =
    play-IsStuck events (step (enables true false) d)
      (disabled-IsStuck t d h on free periodic alive at)
