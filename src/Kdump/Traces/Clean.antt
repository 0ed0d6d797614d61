-- ===== src/Kdump/Traces/Clean.antt =====
-- What a parsed trace never holds.
use steamos_log_submitter.Base.{
  String, false, ◌&&◌, List, [], ◌∷◌, ◌++◌, Option, none, some, Text, codes, begins_with,
  starts_with, contains, ◌≡◌, refl, All, Bool-cases, inl, inr,
}
use mathlib.Core.List.{reverse}
use steamos_log_submitter.Base.Dict.{Dict}
use steamos_log_submitter.Kdump.{Frame, Trace}
use steamos_log_submitter.Kdump.Traces.{
  FrameMatch, Patterns, Parse, ignore_frames, appended, at_rip, frame_info, no_frames, take_frame,
  take_rsp, take_line, parse_line, parse_lines, parse_traces,
}

abbrev pub IsKept : Frame → Type 0
IsKept f = contains ignore_frames f.function ≡ false

-- Frames in the order of the log: no ignored function, and a first one without two underscores.
abbrev pub AreClean : List Frame → Type 0
AreClean [] = Unit
AreClean (f ∷ fs) = (starts_with f.function "__" ≡ false) × All IsKept (f ∷ fs)

-- At least one frame, in reverse.
abbrev pub IsClean : Trace → Type 0
IsClean t = (f : Frame) × (fs : List Frame) × (t.frames ≡ reverse (f ∷ fs)) × AreClean (f ∷ fs)

abbrev CleanSoFar : Parse → Type 0
CleanSoFar p = All IsClean p.traces × AreClean p.frames

All-append : {A : Type 0} (P : A → Type 0) (xs ys : List A) → All P xs → All P ys → All P (xs ++ ys)
All-append P [] ys hx hy = hy
All-append P (x ∷ xs) ys (h, hx) hy = (h, All-append P xs ys hx hy)

appended-IsClean :
    (frames : List Frame) (registers : Dict String) (traces : List Trace)
    → AreClean frames
    → All IsClean traces
    → All IsClean (appended frames registers traces)
appended-IsClean [] registers traces h k = k
appended-IsClean (f ∷ fs) registers traces h k =
    All-append IsClean traces _ k ((f, fs, refl, h), tt)

at_rip-CleanSoFar : (line : Text) (p : Parse) → CleanSoFar p → CleanSoFar (at_rip line p)
unfolding at_rip
at_rip-CleanSoFar line p (ts, fs) = elim (Bool-cases (begins_with line (codes "RIP: "))) [
  | inl rip ↦ rw rip (appended-IsClean p.frames p.registers p.traces fs ts, tt)
  | inr other ↦ rw other (ts, fs)
]

add_frame-AreClean :
    (frames : List Frame) (f : Frame)
    → (no_frames frames && starts_with f.function "__") ≡ false
    → IsKept f
    → AreClean frames
    → AreClean (frames ++ (f ∷ []))
add_frame-AreClean [] f h k c = (h, (k, tt))
add_frame-AreClean (g ∷ gs) f h k (first, c) =
    (first, All-append IsKept (g ∷ gs) (f ∷ []) c (k, tt))

take_frame-CleanSoFar : (m : FrameMatch) (p : Parse) → CleanSoFar p → CleanSoFar (take_frame m p)
unfolding take_frame
take_frame-CleanSoFar m p (ts, fs) = elim (Bool-cases m.questioned) [
  | inl q ↦ rw q (ts, fs)
  | inr sure ↦ rw sure (elim (Bool-cases (no_frames p.frames && starts_with m.symbol "__")) [
    | inl inner ↦ rw inner (ts, fs)
    | inr outer ↦ rw outer (elim (Bool-cases (contains ignore_frames m.symbol)) [
      | inl ignored ↦ rw ignored (ts, tt)
      | inr kept ↦ rw kept (ts, add_frame-AreClean p.frames (frame_info m) outer kept fs)
    ])
  ])
]

take_rsp-CleanSoFar :
    (rsp : Option String) (matches : List (String × String)) (p : Parse)
    → CleanSoFar p
    → CleanSoFar (take_rsp rsp matches p)
take_rsp-CleanSoFar (some rsp) matches p h = h
take_rsp-CleanSoFar none matches p h = h

module _ (re : Patterns) where
  take_line-CleanSoFar :
      (line : Text) (m : Option FrameMatch) (p : Parse)
      → CleanSoFar p
      → CleanSoFar (take_line re line m p)
  take_line-CleanSoFar line (some m) p h = take_frame-CleanSoFar m p h
  take_line-CleanSoFar line none p h = take_rsp-CleanSoFar (re.rsp line) (re.registers line) p h

  parse_lines-CleanSoFar :
      (log : List Text) (p : Parse) → CleanSoFar p → CleanSoFar (parse_lines re log p)
  unfolding parse_lines parse_line
  parse_lines-CleanSoFar [] p h = h
  parse_lines-CleanSoFar (raw ∷ log) p h =
      let line : Text = re.strip raw in
      parse_lines-CleanSoFar log _
        (take_line-CleanSoFar line (re.frame line) (at_rip line p) (at_rip-CleanSoFar line p h))

  -- Whatever the log says: every trace has a frame, none of a function that is ignored, and the
  -- frame that was found first, which comes last, is not of a function with two underscores in front.
  pub parse_traces-IsClean : (log : List Text) → All IsClean (parse_traces re log)
  unfolding parse_traces
  parse_traces-IsClean log =
      let start : Parse = record { traces = []; frames = []; registers = [] } in
      let end : CleanSoFar (parse_lines re log start) = parse_lines-CleanSoFar log start (tt, tt) in
      appended-IsClean (parse_lines re log start).frames (parse_lines re log start).registers
        (parse_lines re log start).traces end.1 end.0
