-- ===== src/Kdump/Tests.antt =====
-- The theorems about pruning at concrete traces.
use steamos_log_submitter.Base.{
  [], ◌∷◌, some, none, ◌≡◌, refl, codes, begins_with, has_part, false, if◌then◌else◌, All,
}
use steamos_log_submitter.Base.Dict.{insert}
use steamos_log_submitter.Kdump.Traces.{
  Patterns, at_rip, take_frame, parse_line, parse_lines, parse_traces,
}
use steamos_log_submitter.Kdump.Traces.Clean.{IsClean, parse_traces-IsClean}
use steamos_log_submitter.Kdump.Summaries.{
  grab_line, take_line, take_modules, summary_loop, get_summaries,
}
use steamos_log_submitter.Kdump.Summaries.Excerpt.{get_summaries_block}
use steamos_log_submitter.Kdump.{Frame, Trace, same_frames, same_trace, replace_last, visit, prune}
use steamos_log_submitter.Kdump.Condensed.{condense, prune-condense}
use steamos_log_submitter.Kdump.Apart.{IsApart, prune-IsApart}

abbrev frame : Frame
frame = record { function = "do_panic"; instruction_addr = "0x12"; module_name = none }

abbrev other : Frame
other = record {
  function = "sysrq_handle_crash";
  instruction_addr = "0x16";
  module_name = some "amdgpu";
}

abbrev bare : Trace
bare = record { frames = frame ∷ other ∷ []; registers = none }

abbrev full : Trace
full = record { frames = frame ∷ other ∷ []; registers = some (("rip", "0x0f") ∷ []) }

abbrev next : Trace
next = record { frames = other ∷ []; registers = none }

-- The repeated trace with registers takes the place of the one without.
prune_run : prune (bare ∷ full ∷ bare ∷ next ∷ next ∷ []) ≡ full ∷ next ∷ []
unfolding prune visit same_frames same_trace replace_last
prune_run = refl

prune-condense_example :
    prune (bare ∷ full ∷ bare ∷ next ∷ next ∷ []) ≡ condense (bare ∷ full ∷ bare ∷ next ∷ next ∷ [])
prune-condense_example =
    prune-condense (bare ∷ full ∷ bare ∷ next ∷ next ∷ [])
      (refl, (refl, (refl, (refl, (refl, tt)))))

pruned-IsApart : IsApart (prune (bare ∷ full ∷ bare ∷ next ∷ next ∷ []))
pruned-IsApart =
    prune-IsApart (bare ∷ full ∷ bare ∷ next ∷ next ∷ []) (refl, (refl, (refl, (refl, (refl, tt)))))

-- A stand-in for the expressions: no line has a frame, but those that begin with a digit.
abbrev patterns : Patterns
patterns = record {
  strip = λ line. line;
  frame = λ line.
      if begins_with line (codes "0")
      then some
          (record { questioned = false; symbol = "do_panic"; offset = "0x12"; module_name = none })
      else if begins_with line (codes "1")
      then some
          (record { questioned = false; symbol = "panic"; offset = "0x13"; module_name = none })
      else none;
  rsp = λ line. none;
  registers = λ line. [];
}

parse_traces_run :
    parse_traces patterns
      (codes "1" ∷ codes "0" ∷ codes "RIP: x" ∷ codes "1" ∷ codes "0" ∷ codes "0" ∷ [])
    ≡ record { frames = frame ∷ []; registers = none }
      ∷ record { frames = frame ∷ frame ∷ []; registers = none }
      ∷ []
unfolding parse_traces parse_lines parse_line take_frame at_rip begins_with insert
parse_traces_run = refl

parse_traces-IsClean_example : All IsClean (parse_traces patterns (codes "1" ∷ codes "0" ∷ []))
parse_traces-IsClean_example = parse_traces-IsClean patterns (codes "1" ∷ codes "0" ∷ [])

get_summaries_block_example :
    (get_summaries patterns
      (λ s. s)
      (λ s. s)
      (λ s. [])
      (λ xs. xs)
      (codes "boot"
        ∷ codes "Kernel panic - x"
        ∷ codes "0"
        ∷ codes "Kernel Offset: 0"
        ∷ codes "9"
        ∷ [])).0
    ≡ codes "Kernel panic - x0"
unfolding has_part begins_with
get_summaries_block_example =
    get_summaries_block patterns (λ s. s) (λ s. s) (λ s. []) (λ xs. xs) (codes "boot" ∷ [])
      (codes "Kernel panic - x") (codes "0" ∷ []) (codes "Kernel Offset: 0") (codes "9" ∷ [])
      (refl, tt) refl refl (refl, tt) refl

-- Of the lines between the two marks the last one is left out.
last_frame_run :
    (get_summaries patterns
      (λ s. s)
      (λ s. s)
      (λ s. [])
      (λ xs. xs)
      (codes "Kernel panic - x"
        ∷ codes " <TASK>"
        ∷ codes "0"
        ∷ codes "0"
        ∷ codes " </TASK>"
        ∷ [])).1
    ≡ record { frames = frame ∷ []; registers = none } ∷ []
unfolding get_summaries summary_loop take_line grab_line take_modules parse_traces parse_lines
    parse_line take_frame at_rip has_part begins_with
last_frame_run = refl
