-- ===== src/Daemon/Preserved.antt =====
-- What every step keeps: a property of the tasks and of `_trigger_active` that few changes of them can
-- break.
use mathlib.Core.Path.{subst}
use steamos_log_submitter.Base.{
  ℕ, suc, ◌+◌, ◌≤◌, Bool, true, false, ◌&&◌, ◌||◌, List, [], ◌∷◌, Option, none, some, nat_eq,
  if◌then◌else◌, ◌≡◌, refl, arith, Bool-cases, inl, inr,
}
use steamos_log_submitter.Daemon.{
  Rest, assert_idle, return_only, close, set_enabled, set_inhibited, Stage, sleeping, created,
  running, joining, awaiting, Tasks, stage_of, drop_task, End, failed, cancelled, Daemon, ended,
  ended_by, end_of, is_there, with_stage, blocked, begin_trigger, finish_trigger, seen_by, deliver,
  cancel, count, spawn_periodic, joined_end, joined, resume_trigger, await_task, await_stored,
  first_of, trigger_idle, trigger, periodic_failed, cancel_periodic, update_schedule, ends_call,
  rescheduled, write_enabled, write_inhibited, after_async, enable, inhibit, start, close_down,
  shutdown, go_on_rest, after_end, waited, woken, Event, starts, shuts_down, leaves_suspend,
  calls_trigger, enables, inhibits, goes_on, cancel_at, cancel_task, ensure_periodic, go_on, called,
  step, play, same,
}

abbrev pub weight : Stage → ℕ
weight sleeping = 0
weight created = 0
weight running = 1
weight (joining t) = 1
weight (awaiting t rest) = 0

-- How many tasks are between the guard of `_trigger` and its end.
unfoldable pub busy : Tasks → ℕ
busy [] = 0
busy ((i, s) ∷ tasks) = weight s + busy tasks

-- What holds of both branches holds of the whole.
pub if_both : {x y : Daemon} (b : Bool) (P : Daemon → Type 0) → P x → P y → P (if b then x else y)
if_both true P p q = p
if_both false P p q = q

pub busy-drop_task : (i : ℕ) (tasks : Tasks) → busy (drop_task i tasks) ≤ busy tasks
unfolding busy drop_task
busy-drop_task i [] = omega arith
busy-drop_task i ((j, s) ∷ tasks) = ground (arith, busy-drop_task i tasks)

pub weight-stage_of :
    (i : ℕ) (s : Stage) (tasks : Tasks)
    → stage_of i tasks ≡ some s
    → weight s + busy (drop_task i tasks) ≤ busy tasks
unfolding busy drop_task stage_of
weight-stage_of i s [] h = ground arith
weight-stage_of i s ((j, t) ∷ tasks) h =
    ground (arith, busy-drop_task i tasks, weight-stage_of i s tasks)

-- A task may end, a task that does not count may begin, one that collects may begin where none is
-- marked, and one that waits for the old periodic task may take the mark away.
module _ (Q : Tasks → Bool → Type 0)
    (drops : (i : ℕ) (tasks : Tasks) (active : Bool)
      → Q tasks active
      → Q (drop_task i tasks) active)
    (adds : (i : ℕ) (s : Stage) (tasks : Tasks) (active : Bool)
      → weight s ≡ 0
      → Q tasks active
      → Q ((i, s) ∷ tasks) active)
    (runs : (i : ℕ) (tasks : Tasks) → Q tasks false → Q ((i, running) ∷ drop_task i tasks) true)
    (finishes : (i t : ℕ) (tasks : Tasks) (active : Bool)
      → stage_of i tasks ≡ some (joining t)
      → Q tasks active
      → Q (drop_task i tasks) false) where
  -- What is known of the tasks and of `_trigger_active`.
  abbrev pub Holds : Daemon → Type 0
  Holds d = Q d.tasks d.trigger_active

  ended-Holds : (i : ℕ) (d : Daemon) → Holds d → Holds (ended i d)
  ended-Holds i d h = drops i d.tasks d.trigger_active h

  ended_by-Holds : (how : End) (i : ℕ) (d : Daemon) → Holds d → Holds (ended_by how i d)
  ended_by-Holds how i d h = drops i d.tasks d.trigger_active h

  pub spawn_periodic-Holds : (d : Daemon) → Holds d → Holds (spawn_periodic d)
  spawn_periodic-Holds d h = adds d.fresh sleeping d.tasks d.trigger_active refl h

  begin_trigger-Holds : (i : ℕ) (d : Daemon) → Holds d → Holds (begin_trigger i d)
  unfolding begin_trigger
  begin_trigger-Holds i d h = elim (Bool-cases (blocked d || d.trigger_active)) [
    | inl stops ↦ rw stops (drops i d.tasks d.trigger_active h)
    | inr begins ↦
        let idle : d.trigger_active ≡ false = ground arith in
        rw begins (runs i d.tasks (subst (Q d.tasks) idle h))
  ]

  cancel_at-Holds :
      (t : ℕ) (s : Option Stage) (d : Daemon)
      → Holds d
      → stage_of t d.tasks ≡ s
      → Holds (cancel_at t s d)
  unfolding finish_trigger
  cancel_at-Holds t none d h at = h
  cancel_at-Holds t (some sleeping) d h at = ended_by-Holds cancelled t d h
  cancel_at-Holds t (some created) d h at = ended_by-Holds cancelled t d h
  cancel_at-Holds t (some running) d h at = ended_by-Holds cancelled t d h
  cancel_at-Holds t (some (joining s)) d h at = finishes t s d.tasks d.trigger_active at h
  cancel_at-Holds t (some (awaiting s rest)) d h at = ended_by-Holds cancelled t d h

  deliver-Holds : (o : Option ℕ) (d : Daemon) → Holds d → Holds (deliver o d)
  deliver-Holds none d h = h
  deliver-Holds (some i) d h = cancel_at-Holds i (stage_of i d.tasks) d h refl

  pub cancel-Holds : (t : ℕ) (d : Daemon) → Holds d → Holds (cancel t d)
  unfolding cancel
  cancel-Holds t d h = deliver-Holds (seen_by (suc (count d.tasks)) t d) d h

  -- And a task may go on after the collection.
  module _
      (resumes : (i : ℕ) (writable : Bool) (d : Daemon)
        → Holds d
        → stage_of i d.tasks ≡ some running
        → Holds (resume_trigger i writable d)) where
    -- A task that is not past the guard does something else instead.
    awaiting-Holds :
        (i t : ℕ) (rest : Rest) (d : Daemon) → Holds d → Holds (with_stage i (awaiting t rest) d)
    awaiting-Holds i t rest d h =
        adds i (awaiting t rest) (drop_task i d.tasks) d.trigger_active refl
          (drops i d.tasks d.trigger_active h)

    await_task-Holds :
        (i t : ℕ) (rest : Rest) (d : Daemon) → Holds d → Holds (await_task i t rest d)
    unfolding await_task
    await_task-Holds i t rest d h =
        if_both (nat_eq t i) Holds (ended_by-Holds failed i d h) (awaiting-Holds i t rest d h)

    await_stored-Holds : (i : ℕ) (t : Option ℕ) (d : Daemon) → Holds d → Holds (await_stored i t d)
    await_stored-Holds i none d h = ended-Holds i d h
    await_stored-Holds i (some t) d h = await_task-Holds i t assert_idle d h

    trigger_idle-Holds :
        (wait : Bool) (i : ℕ) (t : Option ℕ) (d : Daemon)
        → Holds d
        → Holds (trigger_idle wait i t d)
    trigger_idle-Holds true i (some t) d h = await_task-Holds i t return_only d h
    trigger_idle-Holds false i (some t) d h = ended-Holds i d h
    trigger_idle-Holds true i none d h = begin_trigger-Holds i d h
    trigger_idle-Holds false i none d h =
        adds d.fresh created (drop_task i d.tasks) d.trigger_active refl
          (drops i d.tasks d.trigger_active h)

    trigger-Holds : (wait : Bool) (i : ℕ) (d : Daemon) → Holds d → Holds (trigger wait i d)
    unfolding trigger
    trigger-Holds wait i d h =
        let over = ended-Holds i d h in
        if_both (blocked d) Holds over (
          if_both d.trigger_active Holds
            (if_both wait Holds
              (await_stored-Holds i (first_of d.async_trigger d.periodic_task) d h) over)
            (trigger_idle-Holds wait i d.async_trigger d h))

    cancel_task-Holds : (t : Option ℕ) (d : Daemon) → Holds d → Holds (cancel_task t d)
    cancel_task-Holds none d h = h
    cancel_task-Holds (some t) d h = if_both (periodic_failed d) Holds h (cancel-Holds t d h)

    cancel_periodic-Holds : (d : Daemon) → Holds d → Holds (cancel_periodic d)
    unfolding cancel_periodic
    cancel_periodic-Holds d h = cancel_task-Holds d.periodic_task d h

    ensure_periodic-Holds : (t : Option ℕ) (d : Daemon) → Holds d → Holds (ensure_periodic t d)
    ensure_periodic-Holds none d h = spawn_periodic-Holds d h
    ensure_periodic-Holds (some t) d h = h

    update_schedule-Holds : (d : Daemon) → Holds d → Holds (update_schedule d)
    unfolding update_schedule
    update_schedule-Holds d h =
        if_both (blocked d) Holds (cancel_periodic-Holds d h)
          (ensure_periodic-Holds d.periodic_task d h)

    ends_call-Holds : (raises : Bool) (i : ℕ) (d : Daemon) → Holds d → Holds (ends_call raises i d)
    ends_call-Holds true i d h = ended_by-Holds failed i d h
    ends_call-Holds false i d h = ended-Holds i d h

    rescheduled-Holds : (i : ℕ) (d : Daemon) → Holds d → Holds (rescheduled i d)
    rescheduled-Holds i d h =
        ends_call-Holds (blocked d && periodic_failed d) i (update_schedule d)
          (update_schedule-Holds d h)

    write_enabled-Holds :
        (writable state : Bool) (i : ℕ) (d : Daemon)
        → Holds d
        → Holds (write_enabled writable state i d)
    unfolding write_enabled
    write_enabled-Holds writable state i d h =
        let set = record d { enabled = state } in
        if_both writable Holds (rescheduled-Holds i set h) (ended_by-Holds failed i set h)

    write_inhibited-Holds :
        (writable state : Bool) (i : ℕ) (d : Daemon)
        → Holds d
        → Holds (write_inhibited writable state i d)
    unfolding write_inhibited
    write_inhibited-Holds writable state i d h =
        let set = record d { inhibited = state } in
        if_both writable Holds (rescheduled-Holds i set h) (ended_by-Holds failed i set h)

    close_down-Holds : (i : ℕ) (d : Daemon) → Holds d → Holds (close_down i d)
    close_down-Holds i d h =
        ends_call-Holds (periodic_failed d) i (cancel_periodic d) (cancel_periodic-Holds d h)

    after_async-Holds :
        (t : Option ℕ) (i : ℕ) (rest : Rest) (d now : Daemon)
        → Holds d
        → Holds now
        → Holds (after_async t i rest d now)
    after_async-Holds none i rest d now h k = k
    after_async-Holds (some t) i rest d now h k = await_task-Holds i t rest d h

    enable-Holds :
        (writable state : Bool) (i : ℕ) (d : Daemon) → Holds d → Holds (enable writable state i d)
    unfolding enable
    enable-Holds writable state i d h = if_both (same d.enabled state) Holds (ended-Holds i d h) (
        after_async-Holds (if state then none else d.async_trigger) i (set_enabled state) d
          (write_enabled writable state i d) h (write_enabled-Holds writable state i d h))

    inhibit-Holds :
        (writable state : Bool) (i : ℕ) (d : Daemon) → Holds d → Holds (inhibit writable state i d)
    unfolding inhibit
    inhibit-Holds writable state i d h =
        if_both (same d.inhibited state) Holds (ended-Holds i d h) (
          after_async-Holds (if state then d.async_trigger else none) i (set_inhibited state) d
            (write_inhibited writable state i d) h (write_inhibited-Holds writable state i d h))

    shutdown-Holds : (i : ℕ) (d : Daemon) → Holds d → Holds (shutdown i d)
    unfolding shutdown
    shutdown-Holds i d h =
        let off = record d { serving = false } in
        after_async-Holds d.async_trigger i close off (close_down i off) h
          (close_down-Holds i off h)

    go_on_rest-Holds :
        (writable : Bool) (i : ℕ) (rest : Rest) (d : Daemon)
        → Holds d
        → Holds (go_on_rest writable i rest d)
    go_on_rest-Holds writable i assert_idle d h =
        if_both d.trigger_active Holds (ended_by-Holds failed i d h) (ended-Holds i d h)
    go_on_rest-Holds writable i return_only d h = ended-Holds i d h
    go_on_rest-Holds writable i close d h = close_down-Holds i (record d { async_trigger = none }) h
    go_on_rest-Holds writable i (set_enabled state) d h = write_enabled-Holds writable state i d h
    go_on_rest-Holds writable i (set_inhibited state) d h =
        write_inhibited-Holds writable state i d h

    after_end-Holds :
        (writable : Bool) (i : ℕ) (rest : Rest) (how : Option End) (d : Daemon)
        → Holds d
        → Holds (after_end writable i rest how d)
    after_end-Holds writable i rest none d h = go_on_rest-Holds writable i rest d h
    after_end-Holds writable i rest (some how) d h = ended_by-Holds how i d h

    waited-Holds :
        (writable : Bool) (i t : ℕ) (rest : Rest) (d : Daemon)
        → Holds d
        → Holds (waited writable i t rest d)
    unfolding waited
    waited-Holds writable i t rest d h =
        if_both (is_there t d) Holds h (after_end-Holds writable i rest (end_of t d.unreturned) d h)

    joined_end-Holds :
        (i t : ℕ) (how : Option End) (d : Daemon)
        → stage_of i d.tasks ≡ some (joining t)
        → Holds d
        → Holds (joined_end i how d)
    unfolding finish_trigger
    joined_end-Holds i t none d at h = finishes i t d.tasks d.trigger_active at h
    joined_end-Holds i t (some failed) d at h = ended_by-Holds failed i d h
    joined_end-Holds i t (some cancelled) d at h = finishes i t d.tasks d.trigger_active at h

    joined-Holds :
        (i t : ℕ) (d : Daemon)
        → stage_of i d.tasks ≡ some (joining t)
        → Holds d
        → Holds (joined i t d)
    unfolding joined
    joined-Holds i t d at h =
        if_both (is_there t d) Holds h (joined_end-Holds i t (end_of t d.unreturned) d at h)

    go_on-Holds :
        (writable : Bool) (i : ℕ) (s : Option Stage) (d : Daemon)
        → Holds d
        → stage_of i d.tasks ≡ s
        → Holds (go_on writable i s d)
    unfolding go_on
    go_on-Holds writable i none d h at = h
    go_on-Holds writable i (some sleeping) d h at =
        if_both d.serving Holds (trigger-Holds true i d h) (ended-Holds i d h)
    go_on-Holds writable i (some created) d h at = begin_trigger-Holds i d h
    go_on-Holds writable i (some running) d h at = resumes i writable d h at
    go_on-Holds writable i (some (joining t)) d h at = joined-Holds i t d at h
    go_on-Holds writable i (some (awaiting t rest)) d h at = waited-Holds writable i t rest d h

    step-Holds : (e : Event) (d : Daemon) → Holds d → Holds (step e d)
    unfolding step start woken
    step-Holds starts d h =
        if_both d.serving Holds h
          (if_both (blocked d) Holds h (spawn_periodic-Holds (record d { serving = true }) h))
    step-Holds shuts_down d h = shutdown-Holds d.fresh (called d) h
    step-Holds leaves_suspend d h =
        if_both (periodic_failed d) Holds h
          (update_schedule-Holds (cancel_periodic d) (cancel_periodic-Holds d h))
    step-Holds (calls_trigger wait) d h = trigger-Holds wait d.fresh (called d) h
    step-Holds (enables writable state) d h = enable-Holds writable state d.fresh (called d) h
    step-Holds (inhibits writable state) d h = inhibit-Holds writable state d.fresh (called d) h
    step-Holds (goes_on writable i) d h = go_on-Holds writable i (stage_of i d.tasks) d h refl

    pub play-Holds : (events : List Event) (d : Daemon) → Holds d → Holds (play events d)
    unfolding play
    play-Holds [] d h = h
    play-Holds (e ∷ events) d h = play-Holds events (step e d) (step-Holds e d h)
