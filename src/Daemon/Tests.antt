-- ===== src/Daemon/Tests.antt =====
-- Runs of the daemon at concrete events.
use steamos_log_submitter.Base.{
  ℕ, String, Option, Bool, List, codes, ◌&&◌, text_eq, text_eq_refl, eq_of_text_eq, Bool-cases, inl,
  inr, true, false, none, some, [], ◌∷◌, ◌≡◌, refl, arith, ◌==◌, if◌then◌else◌, raise, value_error,
}
use steamos_log_submitter.Base.Dict.{lookup-nil}
use steamos_log_submitter.Config.{Parser, Config}
use steamos_log_submitter.Daemon.Schedule.{start_timer, store_trigger, next_trigger}
use steamos_log_submitter.Daemon.Schedule.Restart.{
  restarted, StartsAfter, start_timer-store_trigger,
}
use steamos_log_submitter.Daemon.Exports.{Helpers, Place, Exporter, setup_dbus, shutdown_dbus}
use steamos_log_submitter.Daemon.Exports.Undone.{Lawful, shutdown_dbus-setup_dbus}
use steamos_log_submitter.Helper.Collect.{millis}
use steamos_log_submitter.Client.{helper_path}
use steamos_log_submitter.Util.Case.{camel_case, camel_from}
use steamos_log_submitter.Daemon.{
  Daemon, running, stage_of, end_of, drop_task, starts, calls_trigger, enables, goes_on, sleeping,
  step, play, start, go_on, trigger, begin_trigger, finish_trigger, resume_trigger, cancel, seen_by,
}
use steamos_log_submitter.Daemon.Preserved.{busy}
use steamos_log_submitter.Daemon.Single.{IsSingle, play-IsSingle}
use steamos_log_submitter.Daemon.Stuck.{IsStuck, play_sticks}

abbrev fresh_daemon : Daemon
fresh_daemon = record {
  serving = false;
  enabled = true;
  inhibited = false;
  trigger_active = false;
  async_trigger = none;
  periodic_task = none;
  tasks = [];
  unreturned = [];
  fresh = 0;
}

-- The periodic task of a started daemon wakes up, collects and submits, and ends; its successor
-- sleeps.
periodic_run :
    play (starts ∷ goes_on true 0 ∷ goes_on true 0 ∷ []) fresh_daemon ≡ record fresh_daemon {
      serving = true;
      periodic_task = some 1;
      tasks = (1, sleeping) ∷ [];
      fresh = 2;
    }
unfolding play step start go_on stage_of drop_task trigger begin_trigger resume_trigger cancel
    finish_trigger seen_by
periodic_run = refl

play-IsSingle_example : IsSingle (
    play
      (starts ∷ goes_on true 0 ∷ calls_trigger false ∷ enables false false ∷ goes_on true 0 ∷ [])
      fresh_daemon)
unfolding busy
play-IsSingle_example =
    play-IsSingle
      (starts ∷ goes_on true 0 ∷ calls_trigger false ∷ enables false false ∷ goes_on true 0 ∷ [])
      fresh_daemon (omega arith)

-- The daemon while its periodic task collects and submits.
abbrev triggering : Daemon
triggering = record fresh_daemon {
  serving = true;
  trigger_active = true;
  periodic_task = some 0;
  tasks = (0, running) ∷ [];
  fresh = 1;
}

play_sticks_example : IsStuck (
    play
      (enables true true ∷ calls_trigger true ∷ goes_on true 1 ∷ [])
      (step (enables true false) triggering))
unfolding busy stage_of end_of
play_sticks_example =
    play_sticks (enables true true ∷ calls_trigger true ∷ goes_on true 1 ∷ []) 0 triggering
      (omega arith) refl refl refl refl refl

-- One time, as text and back.
abbrev show : ℕ → String
show n = "1000.0"

abbrev parse : String → Option ℕ
parse s = if s == "1000.0" then some 1000 else none

abbrev user : Parser
user = ("sls", ("enable", "on") ∷ []) ∷ []

abbrev config : Config
config = record {
  config = [];
  local_config = [];
  local_config_path = true;
  local_file = none;
  user_file = some user;
  user_writable = true;
}

start_timer-store_trigger_example :
    StartsAfter 1000 3000
      (start_timer parse ("gpu" ∷ []) none 3000 (restarted none (store_trigger show 1000 config).1))
start_timer-store_trigger_example =
    start_timer-store_trigger show parse ("gpu" ∷ []) none 1000 3000 config user refl refl
      (lookup-nil "sls", tt) refl refl tt

-- A time that is no number is not caught.
unreadable_time : next_trigger parse 3000 (some "soon") ≡ raise value_error
unfolding next_trigger
unreadable_time = refl

-- A bus as the list of what is exported on it.
same_place : Place → Place → Bool
same_place (p, i) (q, j) = text_eq p q && text_eq i j

remove_place : Place → List Place → List Place
remove_place place [] = []
remove_place place (other ∷ bus) =
    if same_place place other then bus else other ∷ remove_place place bus

abbrev exporter : Exporter (List Place)
exporter = record { export = λ place bus. place ∷ bus; unexport = remove_place }

same_place_refl : (place : Place) → same_place place place ≡ true
unfolding same_place
same_place_refl (p, i) = rw (text_eq_refl p, text_eq_refl i) refl

eq_of_same_place : (place other : Place) → same_place place other ≡ true → place ≡ other
unfolding same_place
eq_of_same_place (p, i) (q, j) h =
    let a : p ≡ q = eq_of_text_eq p q (ground arith) in
    let b : i ≡ j = eq_of_text_eq i j (ground arith) in cc

exporter-Lawful : Lawful exporter
unfolding remove_place
exporter-Lawful = record {
  unexport-export = λ place bus. rw (same_place_refl place) refl;
  unexport-export_other = λ place other bus apart. elim (Bool-cases (same_place place other)) [
    | inl same ↦ absurd (apart (eq_of_same_place place other same))
    | inr differ ↦ rw differ refl
  ];
}

abbrev helpers : Helpers
helpers =
    (codes "gone", none)
    ∷ (
      codes "sysinfo",
      some (record {
        name = codes "sysinfo";
        iface = some (codes "Helper");
        extra_ifaces = codes "Extra" ∷ [];
        child_services = (codes "Usb", codes "Sysinfo") ∷ [];
        newest = some (millis 12345);
        logs = λ base. [];
      }),
    )
    ∷ []

shutdown_dbus-setup_dbus_example :
    shutdown_dbus exporter helpers (setup_dbus exporter helpers []) ≡ []
unfolding helper_path camel_case camel_from
shutdown_dbus-setup_dbus_example = shutdown_dbus-setup_dbus exporter exporter-Lawful helpers [] (
  ((λ h. cc), ((λ h. cc), ((λ h. cc), tt))),
  (((λ h. cc), ((λ h. cc), tt)), (((λ h. cc), tt), (tt, tt))),
)
