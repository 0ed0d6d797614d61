-- ===== src/Trace/Tests.antt =====
-- Traces at concrete data.
use steamos_log_submitter.Base.{
  ℕ, String, true, false, [], ◌∷◌, Option, none, some, ok, raise, value_error, Text, codes, ◌≡◌,
  refl, inl, if◌then◌else◌, ◌==◌, begins_with, has_part,
}
use steamos_log_submitter.Base.Dict.{lookup, insert}
use steamos_log_submitter.Base.Json.{Json, string}
use steamos_log_submitter.Journal.Units.{Log}
use steamos_log_submitter.Trace.{
  oom, split_lock, starts, ends, split_lines, split_lock_search, trap_ahead, digits_then, within,
  is_early, capture_loop, trace_journal,
}
use steamos_log_submitter.Trace.Block.{capture_loop_block}
use steamos_log_submitter.Trace.Deaf.{trace_journal_deaf}
use steamos_log_submitter.Trace.Event.{TraceEvent, trace_line, columns_of, split, rstrip_colon}

abbrev int : String → Option ℕ
int s = if s == "7000000" then some 7000000 else if s == "6000000" then some 6000000 else none

abbrev entry : String → String → String → Log
entry time message cursor =
    ("_SOURCE_MONOTONIC_TIMESTAMP", time) ∷ ("MESSAGE", message) ∷ ("__CURSOR", cursor) ∷ []

abbrev early : Log
early = entry "6000000" "app invoked oom-killer" "1"

abbrev opening : Log
opening = entry "7000000" "app invoked oom-killer" "2"

abbrev middle : Log
middle = entry "7000000" "Mem-Info:\nactive" "3"

abbrev closing : Log
closing = entry "7000000" "Out of memory: Killed process 9" "4"

split_lock_run :
    starts split_lock
      "x86/split lock detection: #AC: game.exe/1234 took a split_lock trap at address: 0x1"
    ≡ true
unfolding starts split_lock_search within digits_then trap_ahead begins_with
split_lock_run = refl

capture_loop_block_example :
    capture_loop int oom 6500000
      (early ∷ opening ∷ middle ∷ closing ∷ early ∷ [])
      false
      []
      (some "5")
    ≡ ok (
      codes "app invoked oom-killer"
          ∷ codes "Mem-Info:"
          ∷ codes "active"
          ∷ codes "Out of memory: Killed process 9"
          ∷ [],
      some "4",
    )
unfolding is_early lookup starts ends split_lines has_part begins_with
capture_loop_block_example =
    capture_loop_block int oom 6500000 (early ∷ []) opening (middle ∷ []) closing (early ∷ [])
      (some "5") "4" (inl refl, tt) (refl, ("app invoked oom-killer", refl, refl, refl))
      ((refl, ("Mem-Info:\nactive", refl, refl)), tt)
      (refl, ("Out of memory: Killed process 9", refl, refl)) refl

trace_journal_deaf_example :
    trace_journal int (λ command. ok (opening ∷ middle ∷ closing ∷ [])) oom 6500000 []
    ≡ ok (some [], ("oom.cursor", "4") ∷ [])
unfolding lookup insert
trace_journal_deaf_example =
    trace_journal_deaf int (λ command. ok (opening ∷ middle ∷ closing ∷ [])) oom 6500000 []
      (opening ∷ middle ∷ closing ∷ []) refl
      ((refl, ("2", refl)), ((refl, ("3", refl)), ((refl, ("4", refl)), tt)))

abbrev crash : TraceEvent
crash = record {
  type = oom;
  appid = some 570;
  pid = some 9;
  timestamp = 1000;
  uptime = 0;
  journal = none;
  path = some "/usr/bin/game";
  executable = some "game";
  comm = some "game";
  build_id = none;
  pkgname = none;
  pkgver = none;
}

abbrev str : Json → String
str (string s) = s
str _ = ""

abbrev atoi : Text → Option ℕ
atoi [] = none
atoi (c ∷ s) = some 5

trace_line_run :
    trace_line atoi atoi (codes "            game-9       [003] .....  5.1: mark_victim: pid=9")
    ≡ ok (record {
      comm = codes "game";
      pid = 5;
      cpu = 5;
      timestamp = 5;
      function = codes "mark_victim";
      extra_args = codes "pid=9" ∷ [];
    })
unfolding trace_line columns_of split rstrip_colon begins_with
trace_line_run = refl

trace_line_short : trace_line atoi atoi (codes "game") ≡ raise value_error
unfolding trace_line columns_of split begins_with
trace_line_short = refl
