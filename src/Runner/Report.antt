-- ===== src/Runner/Report.antt =====
-- One step of the submission: what is reported about a log agrees with where it is afterwards.
use steamos_log_submitter.Base.{
  ℕ, String, false, List, Option, none, some, ◌≡◌, refl, arith, inl, inr, Result, ok, raise, ◌==◌,
}
use steamos_log_submitter.Base.Dict.{lookup, lookup-insert, lookup-insert_self}
use steamos_log_submitter.Spool.{Spool}
use steamos_log_submitter.Spool.Moves.{
  Places, places, replace-uploaded_cases, replace-failed_cases, places-replace-uploaded,
  places-replace-failed,
}
use steamos_log_submitter.Runner.{
  HelperResult, success, permanent_error, settle, conclude, Submitted,
}

-- A reported OK means that the log has moved from `pending` to `uploaded`, a reported
-- PERMANENT_ERROR that it has moved to `failed`. Any other report, or none, means that nothing of
-- its name has moved.
abbrev pub Agrees : Option (Result HelperResult) → Places → Places → Type 0
Agrees (some (ok success)) (p, u, f) after =
    (content : List ℕ) × (p ≡ some content) × (after ≡ (none, some content, f))
Agrees (some (ok permanent_error)) (p, u, f) after =
    (content : List ℕ) × (p ≡ some content) × (after ≡ (none, u, some content))
Agrees _ before after = after ≡ before

places-settle :
    (r : HelperResult) (log name : String) (s : Spool)
    → (log == name) ≡ false
    → places name (settle r log s).1 ≡ places name s
unfolding settle
places-settle success log name s h = ground (arith, places-replace-uploaded log name s h)
places-settle permanent_error log name s h = ground (arith, places-replace-failed log name s h)
places-settle _ log name s h = refl

module _ (log name : String) (sent : Submitted) (s : Spool) (differ : (log == name) ≡ false) where
  pub places-conclude :
      (r : Result HelperResult)
      → (lookup name (conclude log sent r s).1.submitted ≡ lookup name sent)
        × (places name (conclude log sent r s).1.spool ≡ places name s)
  unfolding conclude
  places-conclude (raise e) = (simp (lookup-insert, differ), refl)
  places-conclude (ok r) = grind (arith, lookup-insert, places-settle r log name s differ, differ)

pub conclude-Agrees :
    (r : Result HelperResult) (log : String) (sent : Submitted) (s : Spool)
    → Agrees
        (lookup log (conclude log sent r s).1.submitted)
        (places log s)
        (places log (conclude log sent r s).1.spool)
unfolding conclude settle
conclude-Agrees (raise e) log sent s = rw lookup-insert_self refl
conclude-Agrees (ok success) log sent s = elim (replace-uploaded_cases log s) [
  | inl (e, kept) ↦ rw (kept, lookup-insert_self) refl
  | inr (content, t, there, done, moved) ↦ rw (done, lookup-insert_self) (content, there, moved)
]
conclude-Agrees (ok permanent_error) log sent s = elim (replace-failed_cases log s) [
  | inl (e, kept) ↦ rw (kept, lookup-insert_self) refl
  | inr (content, t, there, done, moved) ↦ rw (done, lookup-insert_self) (content, there, moved)
]
conclude-Agrees (ok _) log sent s = rw lookup-insert_self refl
