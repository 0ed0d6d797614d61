-- ===== src/Daemon.antt =====
-- steamos_log_submitter/daemon.py: the tasks that trigger collection and submission. A piece of a
-- coroutine between two awaits is one step, and the steps of the tasks come in any order; a task
-- that is cancelled sees it at once. The times at which tasks wake up, D-Bus and the update of the
-- list of apps are not modelled.
pub mod Exports
pub mod Preserved
pub mod Schedule
pub mod Single
pub mod Stuck
mod Cancellation
mod Tests
use steamos_log_submitter.Base.{
  ℕ, zero, suc, ◌+◌, Bool, true, false, not, ◌&&◌, ◌||◌, List, [], ◌∷◌, Option, none, some, nat_eq,
  if◌then◌else◌,
}
unfoldable pub use Cancellation.*

-- `asyncio.create_task(self._trigger_periodic())`
abbrev pub spawn_periodic : Daemon → Daemon
spawn_periodic d = record d {
  periodic_task = some d.fresh;
  tasks = (d.fresh, sleeping) ∷ d.tasks;
  fresh = suc d.fresh;
}

-- `await task` in `_trigger`, when the task is over: another exception than a cancellation ends
-- `_trigger` as well.
abbrev pub joined_end : ℕ → Option End → Daemon → Daemon
joined_end i (some failed) d = ended_by failed i d
joined_end i _ d = finish_trigger i d

unfoldable pub joined : ℕ → ℕ → Daemon → Daemon
joined i t d = if is_there t d then d else joined_end i (end_of t d.unreturned) d

abbrev pub join_task : ℕ → Option ℕ → Daemon → Daemon
join_task i none d = finish_trigger i d
join_task i (some t) d = cancel t (with_stage i (joining t) d)

-- `_trigger` after `sls.runner.trigger()` came back, up to its next await. That may raise, and so does
-- `write_config` if the configuration cannot be written; either ends the task.
unfoldable pub resume_trigger : ℕ → Bool → Daemon → Daemon
resume_trigger i false d = ended_by failed i d
resume_trigger i true d = join_task i d.periodic_task (if d.serving then spawn_periodic d else d)

-- A task cannot wait for itself: that is a RuntimeError.
unfoldable pub await_task : ℕ → ℕ → Rest → Daemon → Daemon
await_task i t rest d = if nat_eq t i then ended_by failed i d else with_stage i (awaiting t rest) d

abbrev pub await_stored : ℕ → Option ℕ → Daemon → Daemon
await_stored i none d = ended i d
await_stored i (some t) d = await_task i t assert_idle d

abbrev pub first_of : Option ℕ → Option ℕ → Option ℕ
first_of none t = t
first_of (some s) t = some s

-- a new task for `_trigger`, and the caller returns
abbrev pub spawn_trigger : ℕ → Daemon → Daemon
spawn_trigger i d = record d {
  async_trigger = some d.fresh;
  tasks = (d.fresh, created) ∷ drop_task i d.tasks;
  fresh = suc d.fresh;
}

abbrev pub trigger_idle : Bool → ℕ → Option ℕ → Daemon → Daemon
trigger_idle true i (some t) d = await_task i t return_only d
trigger_idle false i (some t) d = ended i d
trigger_idle true i none d = begin_trigger i d
trigger_idle false i none d = spawn_trigger i d

-- `trigger(wait)`, called in the task `i`.
unfoldable pub trigger : Bool → ℕ → Daemon → Daemon
unfolding await_task
trigger wait i d =
    if blocked d
    then ended i d
    else if d.trigger_active
    then (if wait then await_stored i (first_of d.async_trigger d.periodic_task) d else ended i d)
    else trigger_idle wait i d.async_trigger d

-- A periodic task that failed raises its exception again when it is awaited.
abbrev pub is_failure : Option End → Bool
is_failure (some failed) = true
is_failure _ = false

abbrev pub task_failed : Option ℕ → List (ℕ × End) → Bool
task_failed none unreturned = false
task_failed (some t) how = is_failure (end_of t how)

unfoldable pub periodic_failed : Daemon → Bool
periodic_failed d = task_failed d.periodic_task d.unreturned

abbrev pub cancel_task : Option ℕ → Daemon → Daemon
cancel_task none d = d
cancel_task (some t) d =
    if periodic_failed d then d else record (cancel t d) { periodic_task = none }

unfoldable pub cancel_periodic : Daemon → Daemon
cancel_periodic d = cancel_task d.periodic_task d

abbrev pub ensure_periodic : Option ℕ → Daemon → Daemon
ensure_periodic none d = spawn_periodic d
ensure_periodic (some t) d = d

unfoldable pub update_schedule : Daemon → Daemon
update_schedule d = if blocked d then cancel_periodic d else ensure_periodic d.periodic_task d

abbrev pub same : Bool → Bool → Bool
same a true = a
same a false = not a

abbrev pub ends_call : Bool → ℕ → Daemon → Daemon
ends_call true i d = ended_by failed i d
ends_call false i d = ended i d

-- `await self._update_schedule()` as the last call of the task `i`
abbrev pub rescheduled : ℕ → Daemon → Daemon
rescheduled i d = ends_call (blocked d && periodic_failed d) i (update_schedule d)

-- The rest of `enable` and `inhibit` in the task `i`: the new value is in the configuration also where
-- `write_config` raises, and then the schedule stays as it is.
unfoldable pub write_enabled : Bool → Bool → ℕ → Daemon → Daemon
write_enabled writable state i d =
    if writable
    then rescheduled i (record d { enabled = state })
    else ended_by failed i (record d { enabled = state })

unfoldable pub write_inhibited : Bool → Bool → ℕ → Daemon → Daemon
write_inhibited writable state i d =
    if writable
    then rescheduled i (record d { inhibited = state })
    else ended_by failed i (record d { inhibited = state })

-- Waiting for the asynchronous trigger, or going on at once.
abbrev pub after_async : Option ℕ → ℕ → Rest → Daemon → Daemon → Daemon
after_async none i rest d now = now
after_async (some t) i rest d now = await_task i t rest d

-- `enable` in the task `i`, up to its first await that takes time
unfoldable pub enable : Bool → Bool → ℕ → Daemon → Daemon
unfolding write_enabled await_task
enable writable state i d =
    if same d.enabled state
    then ended i d
    else after_async (if state then none else d.async_trigger) i (set_enabled state) d
        (write_enabled writable state i d)

unfoldable pub inhibit : Bool → Bool → ℕ → Daemon → Daemon
unfolding write_inhibited await_task
inhibit writable state i d =
    if same d.inhibited state
    then ended i d
    else after_async (if state then d.async_trigger else none) i (set_inhibited state) d
        (write_inhibited writable state i d)

-- `start` up to its first await
unfoldable pub start : Daemon → Daemon
start d =
    if d.serving
    then d
    else (if blocked d
        then record d { serving = true }
        else spawn_periodic (record d { serving = true }))

-- `shutdown` in the task `i`; what it takes off the bus is in Exports.
abbrev pub close_down : ℕ → Daemon → Daemon
close_down i d = ends_call (periodic_failed d) i (cancel_periodic d)

unfoldable pub shutdown : ℕ → Daemon → Daemon
unfolding await_task
shutdown i d =
    let off = record d { serving = false } in
    after_async d.async_trigger i close off (close_down i off)

-- A wait is over: an exception of the awaited task, or its cancellation, ends the task that waited.
abbrev pub go_on_rest : Bool → ℕ → Rest → Daemon → Daemon
go_on_rest writable i assert_idle d = if d.trigger_active then ended_by failed i d else ended i d
go_on_rest writable i return_only d = ended i d
go_on_rest writable i close d = close_down i (record d { async_trigger = none })
go_on_rest writable i (set_enabled state) d = write_enabled writable state i d
go_on_rest writable i (set_inhibited state) d = write_inhibited writable state i d

abbrev pub after_end : Bool → ℕ → Rest → Option End → Daemon → Daemon
after_end writable i rest none d = go_on_rest writable i rest d
after_end writable i rest (some how) d = ended_by how i d

unfoldable pub waited : Bool → ℕ → ℕ → Rest → Daemon → Daemon
unfolding write_enabled write_inhibited
waited writable i t rest d =
    if is_there t d then d else after_end writable i rest (end_of t d.unreturned) d

-- `_leave_suspend` after its pause
unfoldable pub woken : Daemon → Daemon
woken d = if periodic_failed d then d else update_schedule (cancel_periodic d)

-- What happens next: a call of a method, in a new task, or a task that goes on. The first argument of
-- the last three says whether the configuration can be written (and `sls.runner.trigger` returns).
pub data Event : Type 0 where
  starts shuts_down leaves_suspend : Event
  calls_trigger : Bool → Event
  enables inhibits : Bool → Bool → Event
  goes_on : Bool → ℕ → Event

unfoldable pub go_on : Bool → ℕ → Option Stage → Daemon → Daemon
go_on writable i none d = d
go_on writable i (some sleeping) d = if d.serving then trigger true i d else ended i d
go_on writable i (some created) d = begin_trigger i d
go_on writable i (some running) d = resume_trigger i writable d
go_on writable i (some (joining t)) d = joined i t d
go_on writable i (some (awaiting t rest)) d = waited writable i t rest d

-- The task of a call that begins.
abbrev pub called : Daemon → Daemon
called d = record d { fresh = suc d.fresh }

unfoldable pub step : Event → Daemon → Daemon
step starts d = start d
step shuts_down d = shutdown d.fresh (called d)
step leaves_suspend d = woken d
step (calls_trigger wait) d = trigger wait d.fresh (called d)
step (enables writable state) d = enable writable state d.fresh (called d)
step (inhibits writable state) d = inhibit writable state d.fresh (called d)
step (goes_on writable i) d = go_on writable i (stage_of i d.tasks) d

unfoldable pub play : List Event → Daemon → Daemon
play [] d = d
play (e ∷ events) d = play events (step e d)
