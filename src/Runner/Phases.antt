-- ===== src/Runner/Phases.antt =====
-- steamos_log_submitter/runner.py: the phases over all helpers, `trigger` and `startup`.
pub mod Gathered
mod Tests
use steamos_log_submitter.Base.{
  String, ◌<>◌, Bool, true, false, not, ◌||◌, List, [], ◌∷◌, ◌++◌, map, Option, none, some, Result,
  ok, raise, ◌&&◌, ◌>>=◌, ◌>>◌, ◌==◌, if◌then◌else◌,
}
use steamos_log_submitter.Base.Dict.{Dict}
use steamos_log_submitter.DataStore.{update}
use steamos_log_submitter.Spool.{Spool}
use steamos_log_submitter.Runner.{HelperResult, Submitted, submit_category}

-- A helper as the phases meet it: its switches, what taking its lock, its `collect` and giving the
-- lock back come to, and what `list_pending` gives: none is the empty tuple after an OSError. Any
-- other answer is a generator, which is true as a condition even if it has nothing to give.
pub record Client : Type 0 where
  pub name : String
  pub enabled : Bool
  pub collect_enabled : Bool
  pub submit_enabled : Bool
  pub collect_lock : Result (Unit {0})
  pub collection : Result (List String)
  pub release : Result (Unit {0})
  pub listing : Option (List String)
  pub submit_lock : Result (Unit {0})
  pub submit : String → Spool → Result HelperResult × Spool
  pub spool : Spool

abbrev pub logs_or_none : Result (List String) → List String
logs_or_none (ok logs) = logs
logs_or_none (raise e) = []

unfoldable pub collect_category : Client → List String
collect_category h =
    logs_or_none (h.collect_lock >> (h.collection >>= λ logs. h.release >> ok logs))

-- `create_helper(category)` for each of `list_helpers()`; none for a category without a helper.
abbrev pub Created : Type 0
Created = List (Result (Option Client))

-- The helpers that get a task. An error of `create_helper` ends the phase.
unfoldable pub selected : (Client → Bool) → Created → Result (List Client)
selected wanted [] = ok []
selected wanted (raise e ∷ categories) = raise e
selected wanted (ok none ∷ categories) = selected wanted categories
selected wanted (ok (some h) ∷ categories) =
    let rest = selected wanted categories in
    if wanted h then rest >>= (λ others. ok (h ∷ others)) else rest

-- `base_config.get(key, 'on') == 'on'`
abbrev pub is_on : Option String → Bool
is_on none = true
is_on (some value) = value == "on"

abbrev pub prefixed : Client → String → String
prefixed h log = (h.name <> "/") <> log

-- `collect_fn`
abbrev pub collect_fn : Client → List String
collect_fn h = map (prefixed h) (collect_category h)

abbrev pub extend_all : List Client → List String
extend_all [] = []
extend_all (h ∷ tasks) = collect_fn h ++ extend_all tasks

abbrev pub renamed : Client → Submitted → Submitted
renamed h [] = []
renamed h ((log, result) ∷ submitted) = (prefixed h log, result) ∷ renamed h submitted

abbrev pub logs_of : Option (List String) → List String
logs_of none = []
logs_of (some logs) = logs

-- `submit_fn`
abbrev pub submit_fn : Client → Submitted
submit_fn h =
    renamed h (submit_category h.submit h.submit_lock (logs_of h.listing) h.spool).submitted

abbrev pub update_all : List Client → Submitted → Submitted
update_all [] submitted = submitted
update_all (h ∷ tasks) submitted = update_all tasks (update submitted (submit_fn h))

abbrev pub wants_collect : Client → Bool
wants_collect h = if not h.enabled || not h.collect_enabled then false else true

abbrev pub is_listed : Option (List String) → Bool
is_listed none = false
is_listed (some logs) = true

abbrev pub wants_submit : Client → Bool
wants_submit h = if not h.enabled || not h.submit_enabled then false else is_listed h.listing

-- The order in which the set `done` of `asyncio.wait` gives the tasks.
module _ (done : List Client → List Client) where
  unfoldable pub collect : Option String → Created → Result (List String)
  collect setting categories = elim (is_on setting) [
    | false ↦ ok []
    | true ↦ selected wants_collect categories >>= λ tasks. ok (extend_all (done tasks))
  ]

  unfoldable pub submit : Option String → Bool → Created → Result Submitted
  submit setting online categories = elim (is_on setting && online) [
    | false ↦ ok []
    | true ↦ selected wants_submit categories >>= λ tasks. ok (update_all (done tasks) [])
  ]

  abbrev pub submitted_or_none : Result Submitted → Submitted
  submitted_or_none (ok submitted) = submitted
  submitted_or_none (raise e) = []

  -- `enable` is `base_config['enable']`; the collection may have changed what the submission finds.
  unfoldable pub trigger :
      Result String
      → Option String
      → Created
      → Option String
      → Bool
      → Created
      → Result (List String × Submitted)
  unfolding collect submit
  trigger (raise e) collecting before submitting online after = raise e
  trigger (ok enable) collecting before submitting online after = elim (enable == "on") [
    | false ↦ ok ([], [])
    | true ↦ ok (
      logs_or_none (collect collecting before),
      submitted_or_none (submit submitting online after),
    )
  ]

-- The helpers whose `startup` runs.
unfoldable pub startup : Created → Result (List Client)
unfolding selected
startup categories = selected (λ h. true) categories
