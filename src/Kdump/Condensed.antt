-- ===== src/Kdump/Condensed.antt =====
-- The loop over the stack traces against a description without its two variables.
use steamos_log_submitter.Base.{
  String, true, false, List, [], ◌∷◌, ◌++◌, Option, none, some, ◌&&◌, not, if◌then◌else◌, ◌≡◌, refl,
  sym, ◌∙◌, ap, arith, eq_iff, Bool-cases, inl, inr,
}
use mathlib.Core.List.{append_assoc}
use steamos_log_submitter.Base.Dict.{Dict}
use steamos_log_submitter.Kdump.{
  Frame, Trace, same_text, same_frame, same_frames, same_registers, same_trace, any_registers,
  has_registers, replace_last, visit, prune_loop, prune,
}

-- Of two traces with the same frames the later one counts only if it alone has registers.
abbrev pub prefer : Trace → Trace → Trace
prefer t u = if any_registers u.registers && not (has_registers t.registers) then u else t

abbrev pub combine : Trace → List Trace → List Trace
combine t [] = t ∷ []
combine t (u ∷ us) = if same_frames u.frames t.frames then prefer t u ∷ us else t ∷ u ∷ us

-- From the last trace back to the first, a trace is merged with the next one if their frames agree.
unfoldable pub condense : List Trace → List Trace
condense [] = []
condense (t ∷ stack) = combine t (condense stack)

same_text_eq : (a b : Option String) → same_text a b ≡ true → a ≡ b
same_text_eq none none h = refl
same_text_eq none (some b) h = ground arith
same_text_eq (some a) none h = ground arith
same_text_eq (some a) (some b) h = ap some ((eq_iff a b).0 h)

same_frame_eq : (f g : Frame) → same_frame f g ≡ true → f ≡ g
same_frame_eq f g h = ground (
  arith,
  eq_iff f.function g.function,
  eq_iff f.instruction_addr g.instruction_addr,
  same_text_eq f.module_name g.module_name,
)

pub same_frames_eq : (fs gs : List Frame) → same_frames fs gs ≡ true → fs ≡ gs
unfolding same_frames
same_frames_eq [] [] h = refl
same_frames_eq [] (g ∷ gs) h = ground arith
same_frames_eq (f ∷ fs) [] h = ground arith
same_frames_eq (f ∷ fs) (g ∷ gs) h = ground (arith, same_frame_eq f g, same_frames_eq fs gs)

replace_last-append :
    (t u : Trace) (p : List Trace) → replace_last t (p ++ (u ∷ [])) ≡ p ++ (t ∷ [])
unfolding replace_last
replace_last-append t u [] = refl
replace_last-append t u (v ∷ []) = refl
replace_last-append t u (v ∷ w ∷ p) = ap (λ l. v ∷ l) (replace_last-append t u (w ∷ p))

-- `append` gives a trace the key only with registers to put there.
abbrev pub IsRecorded : Trace → Type 0
IsRecorded t = has_registers t.registers ≡ any_registers t.registers

abbrev pub AllRecorded : List Trace → Type 0
AllRecorded [] = Unit
AllRecorded (t ∷ stack) = IsRecorded t × AllRecorded stack

prefer-IsRecorded : (t u : Trace) → IsRecorded t → IsRecorded u → IsRecorded (prefer t u)
prefer-IsRecorded t u h k =
    elim (Bool-cases (any_registers u.registers && not (has_registers t.registers))) [
      | inl later ↦ rw later k
      | inr first ↦ rw first h
    ]

pub prefer_frames : (t u : Trace) → u.frames ≡ t.frames → (prefer t u).frames ≡ t.frames
prefer_frames t u e =
    elim (Bool-cases (any_registers u.registers && not (has_registers t.registers))) [
      | inl later ↦ rw later e
      | inr first ↦ rw first refl
    ]

prefer_assoc : (s t u : Trace) → IsRecorded t → prefer s (prefer t u) ≡ prefer (prefer s t) u
prefer_assoc s t u h = elim (Bool-cases (has_registers t.registers)) [
  | inl known ↦ elim (Bool-cases (has_registers s.registers)) [
    | inl kept ↦ rw (known, kept, ← h, known) (ground (arith, known, kept))
    | inr bare ↦ rw (known, bare, ← h, known) (ground (arith, known, bare))
  ]
  | inr unknown ↦ rw (unknown, ← h, unknown) (ground (arith, unknown, h))
]

prefer-same_registers :
    (t last : Trace) → same_registers t.registers last.registers ≡ true → prefer last t ≡ last
prefer-same_registers t last h = rw (bare t.registers last.registers h) refl
  where
    bare :
        (a b : Option (Dict String))
        → same_registers a b ≡ true
        → any_registers a && not (has_registers b) ≡ false
    bare none b e = refl
    bare (some []) (some b) e = refl
    bare (some (x ∷ a)) (some b) e = refl
    bare (some a) none e = ground arith

visit-prefer :
    (t last : Trace) (p : List Trace)
    → visit t (p ++ (last ∷ [])) (some last) ≡ (
        if same_frames t.frames last.frames
        then (p ++ (prefer last t ∷ []), some (prefer last t))
        else ((p ++ (last ∷ [])) ++ (t ∷ []), some t))
unfolding visit same_trace
visit-prefer t last p =
    rw replace_last-append (elim (Bool-cases (same_frames t.frames last.frames)) [
      | inr differ ↦ rw differ refl
      | inl same ↦ elim (Bool-cases (same_registers t.registers last.registers)) [
        | inl equal ↦ rw (same, equal, prefer-same_registers t last equal) refl
        | inr other ↦
            rw (same, other)
              (elim (Bool-cases (any_registers t.registers && not (has_registers last.registers))) [
                | inl later ↦ rw later refl
                | inr first ↦ rw first refl
              ])
      ]
    ])

combine_again :
    (t u : Trace) (us : List Trace)
    → same_frames u.frames t.frames ≡ true
    → combine t (u ∷ us) ≡ prefer t u ∷ us
combine_again t u us e = rw e refl

combine_other :
    (t u : Trace) (us : List Trace)
    → same_frames u.frames t.frames ≡ false
    → combine t (u ∷ us) ≡ t ∷ u ∷ us
combine_other t u us e = rw e refl

combine-same :
    (last t : Trace) (stack : List Trace)
    → IsRecorded t
    → same_frames t.frames last.frames ≡ true
    → combine last (combine t stack) ≡ combine (prefer last t) stack
combine-same last t [] h e = rw e refl
combine-same last t (u ∷ us) h e =
    let level : t.frames ≡ last.frames = same_frames_eq t.frames last.frames e in
    let ahead : (prefer last t).frames ≡ t.frames = prefer_frames last t level ∙ sym level in
    elim (Bool-cases (same_frames u.frames t.frames)) [
      | inl again ↦
          ap (combine last) (combine_again t u us again)
          ∙ combine_again last (prefer t u) us (
              ap (λ f. same_frames f last.frames)
                (prefer_frames t u (same_frames_eq u.frames t.frames again))
              ∙ e)
          ∙ ap (λ v. v ∷ us) (prefer_assoc last t u h)
          ∙ sym (combine_again (prefer last t) u us (ap (same_frames u.frames) ahead ∙ again))
      | inr other ↦
          ap (combine last) (combine_other t u us other)
          ∙ combine_again last t (u ∷ us) e
          ∙ sym (combine_other (prefer last t) u us (ap (same_frames u.frames) ahead ∙ other))
    ]

combine-differ :
    (last t : Trace) (stack : List Trace)
    → same_frames t.frames last.frames ≡ false
    → combine last (combine t stack) ≡ last ∷ combine t stack
combine-differ last t [] e = rw e refl
combine-differ last t (u ∷ us) e = elim (Bool-cases (same_frames u.frames t.frames)) [
  | inl again ↦ rw (again, prefer_frames t u (same_frames_eq u.frames t.frames again), e) refl
  | inr other ↦ rw (other, e) refl
]

-- The state of the loop once it has seen a trace: `last` ends the pruned stack.
prune_loop-condense :
    (stack p : List Trace) (last : Trace)
    → AllRecorded stack
    → prune_loop stack (p ++ (last ∷ []), some last) ≡ p ++ combine last (condense stack)
unfolding condense
prune_loop-condense [] p last rs = refl
prune_loop-condense (t ∷ stack) p last (rt, rs) =
    elim (Bool-cases (same_frames t.frames last.frames)) [
      | inl same ↦
          rw (visit-prefer, same, combine-same last t (condense stack) rt same)
            (prune_loop-condense stack p (prefer last t) rs)
      | inr differ ↦
          rw (visit-prefer, differ, combine-differ last t (condense stack) differ)
            (prune_loop-condense stack (p ++ (last ∷ [])) t rs
              ∙ append_assoc p (last ∷ []) (combine t (condense stack)))
    ]

-- Every trace has registers where it has the key for them. Then the loop in `KdumpHelper.submit`
-- gives what the description from the last trace backwards gives: of each run of traces with equal
-- frames one remains, the first with registers or, where none has them, the run's first.
pub prune-condense : (stack : List Trace) → AllRecorded stack → prune stack ≡ condense stack
unfolding prune visit condense
prune-condense [] h = refl
prune-condense (t ∷ stack) (h, hs) = prune_loop-condense stack [] t hs
