-- ===== src/Trace.antt =====
-- steamos_log_submitter/helpers/trace.py: what the kernel's journal tells of an event.
pub mod Block
pub mod Deaf
pub mod Event
pub mod Prepare
mod Tests
use steamos_log_submitter.Base.{
  ℕ, zero, suc, ◌+◌, String, ◌<>◌, Bool, true, false, ◌&&◌, ◌||◌, not, List, [], ◌∷◌, ◌++◌, Option,
  none, some, Result, ok, raise, key_error, value_error, Text, codes, has_part, begins_with, nat_eq,
  leb, ltb, if◌then◌else◌,
}
use steamos_log_submitter.Base.Dict.{Dict, lookup, insert}
use steamos_log_submitter.Journal.Units.{Log, get_or}
use steamos_log_submitter.Util.Read.{Query, read_journal}

-- `TraceEvent.Type`
pub data EventType : Type 0 where
  oom split_lock : EventType

abbrev pub value : EventType → String
value oom = "oom"
value split_lock = "split_lock"

-- `.`, which takes no line break
abbrev pub any_char : ℕ → Bool
any_char c = not (nat_eq c b'\n')

abbrev pub is_digit : ℕ → Bool
is_digit c = leb b'0' c && leb c b'9'

-- `.* split_lock trap`
unfoldable pub trap_ahead : Text → Bool
trap_ahead [] = false
trap_ahead (c ∷ s) = begins_with (c ∷ s) (codes " split_lock trap") || (any_char c && trap_ahead s)

abbrev pub some_then_trap : Text → Bool
some_then_trap [] = false
some_then_trap (c ∷ s) = any_char c && trap_ahead s

-- `\d* .+ split_lock trap`
unfoldable pub digits_then : Text → Bool
digits_then [] = false
digits_then (c ∷ s) = if is_digit c then digits_then s else nat_eq c b' ' && some_then_trap s

-- `/\d+ .+ split_lock trap`
abbrev pub slash_then : Text → Bool
slash_then [] = false
slash_then (c ∷ []) = false
slash_then (c ∷ d ∷ s) = nat_eq c b'/' && (is_digit d && digits_then s)

-- `.{0,n}` and then that
unfoldable pub within : ℕ → Text → Bool
within n [] = false
within zero (c ∷ s) = slash_then (c ∷ s)
within (suc n) (c ∷ s) = slash_then (c ∷ s) || (any_char c && within n s)

abbrev pub name_then : Text → Bool
name_then [] = false
name_then (c ∷ s) = any_char c && within 14 s

-- What follows a text that is begun with; none if it is not.
abbrev pub after : Text → Text → Option Text
after s [] = some s
after [] (b ∷ t) = none
after (a ∷ s) (b ∷ t) = if nat_eq a b then after s t else none

abbrev pub split_lock_here : Text → Bool
split_lock_here s = elim (after s (codes "x86/split lock detection: #AC: ")) [
  | none ↦ false
  | some rest ↦ name_then rest
]

unfoldable pub split_lock_search : Text → Bool
split_lock_search [] = false
split_lock_search (c ∷ s) = split_lock_here (c ∷ s) || split_lock_search s

-- `JOURNAL_STARTS` and `JOURNAL_ENDS`; a type without an end takes one message.
unfoldable pub starts : EventType → String → Bool
starts oom message = has_part (codes message) (codes "invoked oom-killer")
starts split_lock message = split_lock_search (codes message)

unfoldable pub ends : EventType → String → Bool
ends oom message = has_part (codes message) (codes "Out of memory: Killed process")
ends split_lock message = true

-- `message.split('\n')`
abbrev pub push : ℕ → List Text → List Text
push c [] = (c ∷ []) ∷ []
push c (line ∷ lines) = (c ∷ line) ∷ lines

unfoldable pub split_lines : Text → List Text
split_lines [] = [] ∷ []
split_lines (c ∷ s) =
    let lines = split_lines s in if nat_eq c b'\n' then [] ∷ lines else push c lines

abbrev pub source_time : Log → String
source_time log = get_or (lookup "_SOURCE_MONOTONIC_TIMESTAMP" log) "0"

-- What a message does to the capture: it is skipped, added, or added as the last one.
pub data Taken : Type 0 where
  skipped added closed : Taken

unfoldable pub take_message : EventType → Bool → String → Taken
take_message type capturing message =
    if capturing || starts type message
    then (if ends type message then closed else added)
    else skipped

-- `int` is that of Python, with none for a ValueError.
module _ (int : String → Option ℕ) where
  -- `int(timestamp) < start_usec - TIMING_BUFFER`
  unfoldable pub is_early : ℕ → Log → Result Bool
  is_early start_usec log = elim (int (source_time log)) [
    | none ↦ raise value_error
    | some t ↦ ok (ltb (t + 100000) start_usec)
  ]

  -- The loop over the lines; `cursor` is the one that `util.read_journal` gave.
  unfoldable pub capture_loop :
      EventType
      → ℕ
      → List Log
      → Bool
      → List Text
      → Option String
      → Result (List Text × Option String)
  capture_loop type start_usec [] capturing capture cursor = ok (capture, cursor)
  capture_loop type start_usec (log ∷ logs) capturing capture cursor =
      elim (is_early start_usec log) [
        | raise e ↦ raise e
        | ok true ↦ capture_loop type start_usec logs capturing capture cursor
        | ok false ↦ elim (lookup "MESSAGE" log) [
          | none ↦ capture_loop type start_usec logs capturing capture cursor
          | some message ↦ elim (take_message type capturing message) [
            | skipped ↦ capture_loop type start_usec logs capturing capture cursor
            | added ↦
                capture_loop type start_usec logs true (capture ++ split_lines (codes message))
                  cursor
            | closed ↦ elim (lookup "__CURSOR" log) [
              | none ↦ raise key_error
              | some c ↦ ok (capture ++ split_lines (codes message), some c)
            ]
          ]
        ]
      ]

  abbrev pub cursor_key : EventType → String
  cursor_key type = value type <> ".cursor"

  abbrev pub kernel_query : Option String → Query
  kernel_query cursor = record {
    unit = "kernel";
    cursor = cursor;
    current_boot = true;
    start_ago_ms = none;
    uid = none;
    allow_system = true;
    allow_user = false;
  }

  abbrev pub keep_cursor : EventType → Option String → Dict String → Dict String
  keep_cursor type none data_store = data_store
  keep_cursor type (some c) data_store = insert (cursor_key type) c data_store

  -- `TraceHelper.read_journal`, on the cursors that `cls.data` holds.
  unfoldable pub trace_journal :
      (List String → Result (List Log))
      → EventType
      → ℕ
      → Dict String
      → Result (Option (List Text) × Dict String)
  unfolding read_journal capture_loop
  trace_journal journalctl type start_usec cursors =
      elim (read_journal journalctl (kernel_query (lookup (cursor_key type) cursors))) [
        | raise e ↦ raise e
        | ok (none, cursor) ↦ ok (none, cursors)
        | ok (some logs, cursor) ↦ elim (capture_loop type start_usec logs false [] cursor) [
          | raise e ↦ raise e
          | ok (capture, last) ↦ ok (some capture, keep_cursor type last cursors)
        ]
      ]
