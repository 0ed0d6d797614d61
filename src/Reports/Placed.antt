-- ===== src/Reports/Placed.antt =====
-- Where a report lies once `send_report` of helpers/sysreport.py is over.
use steamos_log_submitter.Base.{
  ℕ, String, ◌<>◌, true, List, [], ◌∷◌, Option, none, some, Result, ok, raise, ◌≡◌, refl, ◌∙◌, ap,
  arith, ◌&&◌, Text, codes, ends_with,
}
use mathlib.Core.Path.{subst}
use steamos_log_submitter.Base.Dict.{lookup, lookup-insert, lookup-remove, lookup-insert_self}
use text.Mathlib.TextPositions.{eq_refl}
use steamos_log_submitter.Spool.{Spool, pending, uploaded, failed, replace}
use steamos_log_submitter.Spool.Moves.{Places, places, at}
use steamos_log_submitter.Runner.{
  HelperResult, Submitted, success, transient_error, permanent_error, class_error, Progress,
  submit_category, submit_logs, submit_log, conclude, settle,
}
use steamos_log_submitter.Runner.Report.{Agrees}
use steamos_log_submitter.Runner.Agreement.{submit_category-Agrees}
use steamos_log_submitter.Reports.Sysreport.{Sent, sent, clean_up, copy_in, send_report}

-- A sent report lies in `uploaded`, any other in `failed`; neither in `pending`.
abbrev pub IsPlaced : List ℕ → Places → Result Sent → Places → Type 0
IsPlaced content (p, u, f) (ok (sent id)) after = after ≡ (none, some content, f)
IsPlaced content (p, u, f) _ after = after ≡ (none, u, some content)

replace-uploaded_writable :
    (name : String) (s : Spool) → (replace pending uploaded name s).1.writable ≡ s.writable
unfolding replace
replace-uploaded_writable name s = ground arith

replace-failed_writable :
    (name : String) (s : Spool) → (replace pending failed name s).1.writable ≡ s.writable
unfolding replace
replace-failed_writable name s = ground arith

conclude_writable :
    (r : Result HelperResult) (log : String) (done : Submitted) (s : Spool)
    → (conclude log done r s).1.spool.writable ≡ s.writable
unfolding conclude settle
conclude_writable (raise e) log done s = refl
conclude_writable (ok success) log done s = ground (arith, replace-uploaded_writable log s)
conclude_writable (ok transient_error) log done s = refl
conclude_writable (ok permanent_error) log done s = ground (arith, replace-failed_writable log s)
conclude_writable (ok class_error) log done s = refl

move_rest :
    (name : String) (content : List ℕ) (s : Spool)
    → at pending name s ≡ some content
    → (s.writable pending && s.writable failed) ≡ true
    → places name (replace pending failed name s).1 ≡ (none, at uploaded name s, some content)
unfolding replace
move_rest name content s h may = rw (h, may, replace) (simp (lookup-remove, lookup-insert, eq_refl))

move_whole :
    (name : String) (content : List ℕ) (u f : Option (List ℕ)) (s : Spool)
    → (s.writable pending && s.writable failed) ≡ true
    → places name s ≡ (some content, u, f)
    → places name (replace pending failed name s).1 ≡ (none, u, some content)
move_whole name content u f s may h =
    move_rest name content s (ap (λ p. p.0) h) may ∙ ap (λ p. (none, p.1, some content)) h

move_none :
    (name : String) (s : Spool)
    → at pending name s ≡ none
    → places name (replace pending failed name s).1 ≡ places name s
unfolding replace
move_none name s h = rw (h, replace) (rw h refl)

module _ (submit : String → Spool → Result HelperResult × Spool)
    (quiet : (log : String) (s : Spool) → (submit log s).1 ≡ s) where
  submit_log_writable :
      (log : String) (p : Progress) → (submit_log submit log p).1.spool.writable ≡ p.spool.writable
  unfolding submit_log
  submit_log_writable log p =
      rw quiet (conclude_writable (submit log p.spool).0 log p.submitted p.spool)

  submit_logs_writable :
      (logs : List String) (p : Progress)
      → (submit_logs submit logs p).spool.writable ≡ p.spool.writable
  unfolding submit_logs
  submit_logs_writable [] p = refl
  submit_logs_writable (log ∷ logs) p = ground (
    arith,
    submit_log_writable log p,
    submit_logs_writable logs p,
    submit_logs_writable logs (submit_log submit log p).1,
  )

  submit_category_writable :
      (lock : Result (Unit {0})) (logs : List String) (s : Spool)
      → (submit_category submit lock logs s).spool.writable ≡ s.writable
  unfolding submit_category
  submit_category_writable (ok _) logs s = submit_logs_writable logs _
  submit_category_writable (raise e) logs s = refl

  clean_up-IsPlaced :
      (id name : String) (r : Option (Result HelperResult)) (content : List ℕ)
      (u f : Option (List ℕ)) (s : Spool)
      → (s.writable pending && s.writable failed) ≡ true
      → Agrees r (some content, u, f) (places name s)
      → IsPlaced content
          (some content, u, f)
          (clean_up id name r s).0
          (places name (clean_up id name r s).1)
  clean_up-IsPlaced id name none content u f s may h = move_whole name content u f s may h
  clean_up-IsPlaced id name (some (raise e)) content u f s may h =
      move_whole name content u f s may h
  clean_up-IsPlaced id name (some (ok success)) content u f s may (c, there, moved) = rw there moved
  clean_up-IsPlaced id name (some (ok permanent_error)) content u f s may (c, there, moved) =
      rw there (move_none name s (ap (λ p. p.0) moved) ∙ moved)
  clean_up-IsPlaced id name (some (ok transient_error)) content u f s may h =
      move_whole name content u f s may h
  clean_up-IsPlaced id name (some (ok class_error)) content u f s may h =
      move_whole name content u f s may h

  -- The report's path ends with `.zip`, it can be read, `pending` and `failed` can be written, and the
  -- submission leaves the directories alone. Then, whatever the server says and whether or not the
  -- lock was free: the report lies in `uploaded` if its id is returned, and in `failed` otherwise,
  -- with its whole content, and `pending` has nothing of its name.
  pub send_report-IsPlaced :
      (lock : Result (Unit {0})) (id : String) (path : Text) (content : List ℕ) (s : Spool)
      → ends_with path (codes ".zip") ≡ true
      → (s.writable pending && s.writable failed) ≡ true
      → IsPlaced content
          (some content, at uploaded (id <> ".zip") s, at failed (id <> ".zip") s)
          (send_report submit lock id path (ok content) s).0
          (places (id <> ".zip") (send_report submit lock id path (ok content) s).1)
  unfolding send_report
  send_report-IsPlaced lock id path content s zip may =
      let name = id <> ".zip" in
      let before = copy_in name (ok content) s in
      let p = submit_category submit lock (name ∷ []) before in
      let there : places name before ≡ (some content, at uploaded name s, at failed name s) =
        ap (λ v. (v, at uploaded name s, at failed name s))
          (lookup-insert_self name content s.pending_files) in
      rw zip (
        clean_up-IsPlaced id name (lookup name p.submitted) content (at uploaded name s)
          (at failed name s) p.spool
          (ap (λ w. w pending && w failed) (submit_category_writable lock (name ∷ []) before) ∙ may)
          (subst (λ q. Agrees (lookup name p.submitted) q (places name p.spool)) there
            (submit_category-Agrees submit quiet lock (name ∷ []) before name (refl, tt))))
