-- ===== src/Kdump/Apart.antt =====
-- What the pruned stack of kdump.py looks like.
use steamos_log_submitter.Base.{false, List, [], ◌∷◌, ◌≡◌, refl, Bool-cases, inl, inr}
use steamos_log_submitter.Kdump.{Trace, same_frames, prune}
use steamos_log_submitter.Kdump.Condensed.{
  combine, condense, prefer_frames, same_frames_eq, AllRecorded, prune-condense,
}

-- No two neighbours have equal frames.
abbrev pub IsApart : List Trace → Type 0
IsApart [] = Unit
IsApart (t ∷ []) = Unit
IsApart (t ∷ u ∷ us) = (same_frames u.frames t.frames ≡ false) × IsApart (u ∷ us)

combine-IsApart : (t : Trace) (us : List Trace) → IsApart us → IsApart (combine t us)
combine-IsApart t [] h = tt
combine-IsApart t (u ∷ []) h = elim (Bool-cases (same_frames u.frames t.frames)) [
  | inl again ↦ rw again tt
  | inr other ↦ rw other (other, tt)
]
combine-IsApart t (u ∷ v ∷ us) (differ, h) = elim (Bool-cases (same_frames u.frames t.frames)) [
  | inl again ↦
      let level : u.frames ≡ t.frames = same_frames_eq u.frames t.frames again in
      rw again (rw (prefer_frames t u level, ← level, differ) (refl, h))
  | inr other ↦ rw other (other, (differ, h))
]

condense-IsApart : (stack : List Trace) → IsApart (condense stack)
unfolding condense
condense-IsApart [] = tt
condense-IsApart (t ∷ stack) = combine-IsApart t (condense stack) (condense-IsApart stack)

-- Every trace has registers where it has the key for them. Then no two neighbouring traces of the
-- pruned stack have equal frames.
pub prune-IsApart : (stack : List Trace) → AllRecorded stack → IsApart (prune stack)
prune-IsApart stack h = rw (prune-condense stack h) (condense-IsApart stack)
