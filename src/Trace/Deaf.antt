-- ===== src/Trace/Deaf.antt =====
-- Which lines of the kernel `TraceHelper.read_journal` gets to see.
use steamos_log_submitter.Base.{
  ℕ, String, false, List, [], ◌∷◌, Option, none, some, Result, ok, ◌≡◌, refl, All,
}
use steamos_log_submitter.Base.Dict.{Dict, lookup}
use steamos_log_submitter.Journal.Units.{Log}
use steamos_log_submitter.Util.Read.{command, is_field, keeps, read_lines, read_journal}
use steamos_log_submitter.Trace.{
  EventType, capture_loop, cursor_key, kernel_query, keep_cursor, trace_journal,
}

-- An entry of the kernel as journald writes it: its unit, if it has one, is not called kernel.
abbrev pub FromKernel : Log → Type 0
FromKernel log =
    (is_field "kernel" (lookup "_SYSTEMD_UNIT" log) ≡ false)
    × ((c : String) × (lookup "__CURSOR" log ≡ some c))

abbrev pub newer : Option String → Option String → Option String
newer cursor none = cursor
newer cursor (some c) = some c

abbrev pub last_cursor : List Log → Option String → Option String
last_cursor [] cursor = cursor
last_cursor (log ∷ logs) cursor = last_cursor logs (newer cursor (lookup "__CURSOR" log))

module _ (int : String → Option ℕ) where
  keeps_no_kernel :
      (cursor : Option String) (log : Log)
      → is_field "kernel" (lookup "_SYSTEMD_UNIT" log) ≡ false
      → keeps (kernel_query int cursor) log ≡ false
  unfolding keeps
  keeps_no_kernel cursor log h = rw (h, keeps) refl

  read_lines_deaf :
      (cursor : Option String) (lines kept : List Log) (last : Option String)
      → All FromKernel lines
      → read_lines (kernel_query int cursor) lines kept last ≡ ok (kept, last_cursor lines last)
  unfolding read_lines
  read_lines_deaf cursor [] kept last h = refl
  read_lines_deaf cursor (log ∷ lines) kept last ((no_unit, (c, has_cursor)), h) =
      rw (has_cursor, read_lines)
        (rw (keeps_no_kernel cursor log no_unit) (read_lines_deaf cursor lines kept (some c) h))

  module _ (journalctl : List String → Result (List Log)) where
    read_journal_deaf :
        (cursor : Option String) (lines : List Log)
        → journalctl (command (kernel_query int cursor)) ≡ ok lines
        → All FromKernel lines
        → read_journal journalctl (kernel_query int cursor) ≡ ok (some [], last_cursor lines none)
    unfolding read_journal
    read_journal_deaf cursor lines h k =
        rw (h, read_journal) (rw (read_lines_deaf cursor lines [] none k) refl)

    -- If no entry that journalctl prints has the `_SYSTEMD_UNIT` kernel, which no unit is called, no line of the journal is captured for any event, and the cursor moves past all of them.
    pub trace_journal_deaf :
        (type : EventType) (start_usec : ℕ) (cursors : Dict String) (lines : List Log)
        → journalctl (command (kernel_query int (lookup (cursor_key int type) cursors))) ≡ ok lines
        → All FromKernel lines
        → trace_journal int journalctl type start_usec cursors
          ≡ ok (some [], keep_cursor int type (last_cursor lines none) cursors)
    unfolding trace_journal capture_loop
    trace_journal_deaf type start_usec cursors lines h k =
        rw (read_journal_deaf (lookup (cursor_key int type) cursors) lines h k, trace_journal) refl
