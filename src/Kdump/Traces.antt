-- ===== src/Kdump/Traces.antt =====
-- helpers/kdump.py, `KdumpHelper.parse_traces`.
pub mod Clean
use steamos_log_submitter.Base.{
  String, ◌<>◌, Bool, true, false, ◌&&◌, List, [], ◌∷◌, ◌++◌, Option, none, some, Text, codes,
  begins_with, starts_with, contains, if◌then◌else◌,
}
use mathlib.Core.List.{reverse}
use steamos_log_submitter.Base.Dict.{Dict, insert}
use steamos_log_submitter.Kdump.{Frame, Trace}

-- The groups of a match of `frame_re`.
pub record FrameMatch : Type 0 where
  pub questioned : Bool
  pub symbol : String
  pub offset : String
  pub module_name : Option String

-- What Python's `re` finds in a line: `strip` is `strip_re.sub('', line.strip())`, the others are the
-- searches for `frame_re`, `rsp_re` and `registers_re`, with the names of registers in lower case.
pub record Patterns : Type 0 where
  pub strip : Text → Text
  pub frame : Text → Option FrameMatch
  pub rsp : Text → Option String
  pub registers : Text → List (String × String)

-- `traces`, `frames` and `registers`; None and an empty value are the same to the code.
pub record Parse : Type 0 where
  pub traces : List Trace
  pub frames : List Frame
  pub registers : Dict String

abbrev pub ignore_frames : List String
ignore_frames = "asm_exc_page_fault" ∷ "dump_stack_lvl" ∷ "panic" ∷ []

abbrev pub set_registers : Dict String → Option (Dict String)
set_registers [] = none
set_registers (x ∷ d) = some (x ∷ d)

-- `if frames: append(frames, registers)`
abbrev pub appended : List Frame → Dict String → List Trace → List Trace
appended [] registers traces = traces
appended (f ∷ fs) registers traces =
    traces ++ (record { frames = reverse (f ∷ fs); registers = set_registers registers } ∷ [])

unfoldable pub at_rip : Text → Parse → Parse
at_rip line p =
    if begins_with line (codes "RIP: ")
    then record { traces = appended p.frames p.registers p.traces; frames = []; registers = [] }
    else p

abbrev pub frame_info : FrameMatch → Frame
frame_info m = record {
  function = m.symbol;
  instruction_addr = m.offset;
  module_name = m.module_name;
}

abbrev pub no_frames : List Frame → Bool
no_frames [] = true
no_frames (f ∷ fs) = false

unfoldable pub take_frame : FrameMatch → Parse → Parse
take_frame m p =
    if m.questioned
    then p
    else if no_frames p.frames && starts_with m.symbol "__"
    then p
    else if contains ignore_frames m.symbol
    then record p { frames = [] }
    else record p { frames = p.frames ++ (frame_info m ∷ []) }

abbrev pub put_registers : List (String × String) → Dict String → Dict String
put_registers [] registers = registers
put_registers ((reg, addr) ∷ more) registers =
    put_registers more (insert reg ("0x" <> addr) registers)

abbrev pub take_rsp : Option String → List (String × String) → Parse → Parse
take_rsp (some rsp) matches p = record p { registers = insert "rsp" ("0x" <> rsp) p.registers }
take_rsp none matches p = record p { registers = put_registers matches p.registers }

module _ (re : Patterns) where
  abbrev pub take_line : Text → Option FrameMatch → Parse → Parse
  take_line line (some m) p = take_frame m p
  take_line line none p = take_rsp (re.rsp line) (re.registers line) p

  -- The body of the loop.
  unfoldable pub parse_line : Text → Parse → Parse
  parse_line raw p = let line = re.strip raw in take_line line (re.frame line) (at_rip line p)

  unfoldable pub parse_lines : List Text → Parse → Parse
  parse_lines [] p = p
  parse_lines (line ∷ log) p = parse_lines log (parse_line line p)

  abbrev pub finished : Parse → List Trace
  finished p = appended p.frames p.registers p.traces

  unfoldable pub parse_traces : List Text → List Trace
  unfolding parse_lines
  parse_traces log =
      finished (parse_lines log (record { traces = []; frames = []; registers = [] }))
