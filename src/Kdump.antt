-- ===== src/Kdump.antt =====
-- steamos_log_submitter/helpers/kdump.py: the stack traces of a crash, and how the report leaves out
-- a trace that says nothing new.
pub mod Condensed
pub mod Apart
pub mod Traces
pub mod Summaries
mod Tests
use steamos_log_submitter.Base.{
  String, Bool, true, false, List, [], ◌∷◌, ◌++◌, Option, none, some, ◌==◌, ◌&&◌, not,
  if◌then◌else◌,
}
use steamos_log_submitter.Base.Dict.{Dict, lookup}

-- `frame_info`, without `addr_mode`, which is always `rel`; `module_name` is the key `package`, none if it is missing.
pub record Frame : Type 0 where
  pub function : String
  pub instruction_addr : String
  pub module_name : Option String

-- What `append` adds to `traces`; no registers if the key is missing.
pub record Trace : Type 0 where
  pub frames : List Frame
  pub registers : Option (Dict String)

-- Python's `==` on optional strings, frames, lists of frames, dicts of strings and traces
abbrev pub same_text : Option String → Option String → Bool
same_text none none = true
same_text none (some b) = false
same_text (some a) none = false
same_text (some a) (some b) = a == b

abbrev pub same_frame : Frame → Frame → Bool
same_frame f g =
    f.function == g.function
    && (f.instruction_addr == g.instruction_addr && same_text f.module_name g.module_name)

unfoldable pub same_frames : List Frame → List Frame → Bool
same_frames [] [] = true
same_frames [] (g ∷ gs) = false
same_frames (f ∷ fs) [] = false
same_frames (f ∷ fs) (g ∷ gs) = same_frame f g && same_frames fs gs

abbrev pub covers : Dict String → Dict String → Bool
covers d [] = true
covers d ((k, v) ∷ e) = same_text (lookup k d) (some v) && covers d e

abbrev pub same_registers : Option (Dict String) → Option (Dict String) → Bool
same_registers none none = true
same_registers none (some e) = false
same_registers (some d) none = false
same_registers (some d) (some e) = covers d e && covers e d

unfoldable pub same_trace : Trace → Trace → Bool
same_trace t u = same_frames t.frames u.frames && same_registers t.registers u.registers

-- `frames.get('registers')` as a condition, and `'registers' in last_stack`
abbrev pub any_registers : Option (Dict String) → Bool
any_registers none = false
any_registers (some []) = false
any_registers (some (x ∷ d)) = true

abbrev pub has_registers : Option (Dict String) → Bool
has_registers none = false
has_registers (some d) = true

-- `pruned_stack[-1] = t`; the code does it only after an `append`.
unfoldable pub replace_last : Trace → List Trace → List Trace
replace_last t [] = []
replace_last t (u ∷ []) = t ∷ []
replace_last t (u ∷ v ∷ us) = u ∷ replace_last t (v ∷ us)

-- The body of the loop over `stack`, from `pruned_stack` and `last_stack` to the same.
unfoldable pub visit : Trace → List Trace → Option Trace → List Trace × Option Trace
visit t pruned none = (pruned ++ (t ∷ []), some t)
visit t pruned (some last) =
    if same_trace t last
    then (pruned, some last)
    else (if not (same_frames t.frames last.frames)
        then (pruned ++ (t ∷ []), some t)
        else (if any_registers t.registers && not (has_registers last.registers)
            then (replace_last t pruned, some t)
            else (pruned, some last)))

abbrev pub prune_loop : List Trace → List Trace × Option Trace → List Trace
prune_loop [] (pruned, last) = pruned
prune_loop (t ∷ stack) (pruned, last) = prune_loop stack (visit t pruned last)

-- `pruned_stack` at the end of the loop in `KdumpHelper.submit`
unfoldable pub prune : List Trace → List Trace
unfolding visit
prune stack = prune_loop stack ([], none)
