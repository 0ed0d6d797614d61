-- ===== src/Daemon/Cancellation.antt =====
-- The tasks of daemon.py: where each of them is, the beginning and the end of `_trigger`, and what a
-- cancellation does.
use steamos_log_submitter.Base.{
  ℕ, zero, suc, Bool, true, false, not, ◌||◌, List, [], ◌∷◌, Option, none, some, nat_eq,
  if◌then◌else◌,
}

-- What a task does once the task that it waits for is over: `trigger` behind a trigger under way and
-- behind the asynchronous one, and the rest of `enable`, `inhibit` and `shutdown`.
pub data Rest : Type 0 where
  assert_idle return_only close : Rest
  set_enabled set_inhibited : Bool → Rest

-- Where a task is: `_trigger_periodic` before it calls `trigger`; `_trigger` made into a task and not
-- begun, in `await sls.runner.trigger()`, and in `await task`; any other wait for a task.
pub data Stage : Type 0 where
  sleeping created running : Stage
  joining : ℕ → Stage
  awaiting : ℕ → Rest → Stage

abbrev pub Tasks : Type 0
Tasks = List (ℕ × Stage)

unfoldable pub stage_of : ℕ → Tasks → Option Stage
stage_of i [] = none
stage_of i ((j, s) ∷ tasks) = if nat_eq i j then some s else stage_of i tasks

unfoldable pub drop_task : ℕ → Tasks → Tasks
drop_task i [] = []
drop_task i ((j, s) ∷ tasks) =
    let rest = drop_task i tasks in if nat_eq i j then rest else (j, s) ∷ rest

-- How a task ended that did not return.
pub data End : Type 0 where
  failed cancelled : End

-- A task is known by a number; `fresh` is the next one. `unreturned` has the tasks that did not return.
pub record Daemon : Type 0 where
  pub serving : Bool
  pub enabled : Bool
  pub inhibited : Bool
  pub trigger_active : Bool
  pub async_trigger : Option ℕ
  pub periodic_task : Option ℕ
  pub tasks : Tasks
  pub unreturned : List (ℕ × End)
  pub fresh : ℕ

abbrev pub ended : ℕ → Daemon → Daemon
ended i d = record d { tasks = drop_task i d.tasks }

abbrev pub ended_by : End → ℕ → Daemon → Daemon
ended_by how i d = record d { tasks = drop_task i d.tasks; unreturned = (i, how) ∷ d.unreturned }

-- None for a task that returned.
unfoldable pub end_of : ℕ → List (ℕ × End) → Option End
end_of i [] = none
end_of i ((j, how) ∷ others) = if nat_eq i j then some how else end_of i others

abbrev pub is_there : ℕ → Daemon → Bool
is_there i d = elim (stage_of i d.tasks) [ none ↦ false | some s ↦ true ]

abbrev pub with_stage : ℕ → Stage → Daemon → Daemon
with_stage i s d = record d { tasks = (i, s) ∷ drop_task i d.tasks }

abbrev pub blocked : Daemon → Bool
blocked d = d.inhibited || not d.enabled

-- `_trigger` up to its first await, in the task `i`
unfoldable pub begin_trigger : ℕ → Daemon → Daemon
begin_trigger i d =
    if blocked d || d.trigger_active
    then ended i (record d { async_trigger = none })
    else with_stage i running (record d { trigger_active = true })

-- the last two lines of `_trigger`
unfoldable pub finish_trigger : ℕ → Daemon → Daemon
finish_trigger i d = ended i (record d { trigger_active = false; async_trigger = none })

-- The task that a task waits for. `await task` in `_trigger` may be for the task itself.
abbrev pub awaited : ℕ → Option Stage → Option ℕ
awaited i (some (joining t)) = if nat_eq t i then none else some t
awaited i (some (awaiting t rest)) = some t
awaited i _ = none

-- Which task sees a cancellation: it is passed on to the task that is waited for, if that one is not
-- over. None: tasks that wait for one another in a circle; `Task.cancel` then ends with a
-- RecursionError in the event loop, and they wait on.
unfoldable pub seen_by : ℕ → ℕ → Daemon → Option ℕ
seen_by zero i d = none
seen_by (suc fuel) i d = elim (awaited i (stage_of i d.tasks)) [
  | none ↦ some i
  | some t ↦ elim (is_there t d) [ true ↦ seen_by fuel t d | false ↦ some i ]
]

-- A cancelled task at an await; one that has ended does nothing. Only `await task` in `_trigger`
-- catches it.
abbrev pub cancel_at : ℕ → Option Stage → Daemon → Daemon
cancel_at t none d = d
cancel_at t (some sleeping) d = ended_by cancelled t d
cancel_at t (some created) d = ended_by cancelled t d
cancel_at t (some running) d = ended_by cancelled t d
cancel_at t (some (joining s)) d = finish_trigger t d
cancel_at t (some (awaiting s rest)) d = ended_by cancelled t d

abbrev pub count : Tasks → ℕ
count [] = 0
count (task ∷ tasks) = suc (count tasks)

abbrev pub deliver : Option ℕ → Daemon → Daemon
deliver none d = d
deliver (some i) d = cancel_at i (stage_of i d.tasks) d

-- `task.cancel()`. A chain of waiting tasks has no more members than there are tasks.
unfoldable pub cancel : ℕ → Daemon → Daemon
unfolding seen_by
cancel t d = deliver (seen_by (suc (count d.tasks)) t d) d
