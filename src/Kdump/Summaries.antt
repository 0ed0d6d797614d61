-- ===== src/Kdump/Summaries.antt =====
-- helpers/kdump.py, `KdumpHelper.get_summaries`: what is taken of the kernel's log.
pub mod Excerpt
use steamos_log_submitter.Base.{
  ℕ, Bool, true, false, ◌||◌, List, [], ◌∷◌, ◌++◌, map, Option, none, some, Text, codes,
  begins_with, has_part, nat_eq, if◌then◌else◌,
}
use steamos_log_submitter.Kdump.{Trace}
use steamos_log_submitter.Kdump.Traces.{Patterns, parse_traces}

abbrev pub first_lines : List Text
first_lines =
    codes "Kernel panic -"
    ∷ codes "BUG: unable to handle page fault for address"
    ∷ codes "PREEMPT SMP NOPTI"
    ∷ codes "general protection fault"
    ∷ codes "BUG: kernel NULL pointer dereference, address"
    ∷ []

abbrev pub any_part : List Text → Text → Bool
any_part [] line = false
any_part (check ∷ checks) line = has_part line check || any_part checks line

-- The types of traces, `TASK` and `IRQ`.
pub data TraceType : Type 0 where
  task irq : TraceType

abbrev pub type_name : TraceType → Text
type_name task = codes "TASK"
type_name irq = codes "IRQ"

abbrev pub opens : Text → TraceType → Bool
opens line type = has_part line (codes " <" ++ (type_name type ++ codes ">"))

abbrev pub closes : Text → TraceType → Bool
closes line type = has_part line (codes " </" ++ (type_name type ++ codes ">"))

-- The loop over `trace_types`, whose last hit counts.
abbrev pub grabbed : Text → Option TraceType
grabbed line = if opens line irq then some irq else if opens line task then some task else none

-- `crash_summary_list`, `call_trace_list` and `call_trace_grab`
pub record Excerpts : Type 0 where
  pub summary : List Text
  pub call_trace : List Text
  pub grab : Option TraceType

unfoldable pub grab_line : Text → Excerpts → Excerpts
grab_line line e = elim e.grab [
  | some type ↦
      if closes line type
      then record e { grab = none }
      else record e { call_trace = e.call_trace ++ (line ∷ []) }
  | none ↦ record e { grab = grabbed line }
]

abbrev pub is_end : Text → Bool
is_end line = has_part line (codes "Kernel Offset:") || has_part line (codes "Sending NMI")

abbrev pub is_started : List Text → Text → Bool
is_started [] line = any_part first_lines line
is_started (l ∷ ls) line = true

-- The first half of the loop's body; true means that it breaks, with the line taken off the summary.
unfoldable pub take_line : Text → Excerpts → Bool × Excerpts
take_line line e =
    if is_started e.summary line
    then (if is_end line
        then (true, grab_line line e)
        else (false, grab_line line (record e { summary = e.summary ++ (line ∷ []) })))
    else (false, e)

-- `kernel.modules` and `kernel.last_unloaded_modules`, none if the key is missing, and
-- `getting_modules`
pub record Modules : Type 0 where
  pub modules : Option (List Text)
  pub unloaded : Option (List Text)
  pub getting : Bool

-- `line.split('Modules linked in:', 1)[1]`
abbrev pub dropped : Text → Text → Text
dropped s [] = s
dropped [] (b ∷ t) = []
dropped (a ∷ s) (b ∷ t) = dropped s t

unfoldable pub after_part : Text → Text → Text
after_part part [] = []
after_part part (c ∷ s) =
    if begins_with (c ∷ s) part then dropped (c ∷ s) part else after_part part s

-- `line.split(' ')`
abbrev pub push : ℕ → List Text → List Text
push c [] = (c ∷ []) ∷ []
push c (word ∷ words) = (c ∷ word) ∷ words

unfoldable pub split_spaces : Text → List Text
split_spaces [] = [] ∷ []
split_spaces (c ∷ s) =
    let words = split_spaces s in if nat_eq c b' ' then [] ∷ words else push c words

abbrev pub or_empty : Option (List Text) → List Text
or_empty none = []
or_empty (some xs) = xs

abbrev pub note_unloaded : List Text → Modules → Modules
note_unloaded [] m = m
note_unloaded (x ∷ xs) m = record m { unloaded = some (x ∷ xs) }

abbrev pub ends_modules : Text → Bool
ends_modules line =
    begins_with line (codes "---")
    || begins_with line (codes "Unloaded tainted modules:")
    || begins_with line (codes "CR2:")

-- `strip` is `strip_re.sub('', line.strip())`, `unstamped` the same without `line.strip()`, `without_flags` is
-- `module_strip_re.sub('', line).strip()`, `last_unloaded` is `last_unloaded_module_re.findall`.
module _ (re : Patterns) (unstamped without_flags : Text → Text) (last_unloaded : Text → List Text)
    (sorted : List Text → List Text) where
  abbrev pub get_modules : Text → Modules → Modules
  get_modules line m =
      if ends_modules line
      then record m { getting = false }
      else record (note_unloaded (last_unloaded line) m) {
        modules = some (or_empty m.modules ++ split_spaces (without_flags line));
      }

  -- The second half of the loop's body.
  unfoldable pub take_modules : Text → Modules → Modules
  take_modules line m =
      if has_part line (codes "Modules linked in: ")
      then get_modules (re.strip (after_part (codes "Modules linked in:") line))
          (record m { modules = some []; getting = true })
      else (if m.getting then get_modules (re.strip line) m else m)

  -- The loop.
  unfoldable pub summary_loop : List Text → Excerpts → Modules → Excerpts × Modules
  summary_loop [] e m = (e, m)
  summary_loop (line ∷ dmesg) e m =
      let (stop, e') = take_line line e in
      elim stop [ true ↦ (e', m) | false ↦ summary_loop dmesg e' (take_modules line m) ]

  -- `call_trace_list[0:-1]`
  abbrev pub without_last : List Text → List Text
  without_last [] = []
  without_last (x ∷ []) = []
  without_last (x ∷ y ∷ xs) = x ∷ without_last (y ∷ xs)

  abbrev pub concat : List Text → Text
  concat [] = []
  concat (s ∷ ss) = s ++ concat ss

  abbrev pub sorted_modules : Modules → Modules
  sorted_modules m = record m {
    modules = elim m.modules [ none ↦ none | some xs ↦ some (sorted xs) ];
  }

  unfoldable pub get_summaries : List Text → Text × List Trace × Modules
  unfolding summary_loop parse_traces
  get_summaries dmesg =
      let (e, m) =
        summary_loop dmesg (record { summary = []; call_trace = []; grab = none })
          (record { modules = none; unloaded = none; getting = false }) in
      (
        concat (map unstamped e.summary),
        parse_traces re (without_last e.call_trace),
        sorted_modules m,
      )
