-- ===== src/Runner/Agreement.antt =====
-- The whole submission: what is reported about each log agrees with where it is afterwards.
use steamos_log_submitter.Base.{
  String, Bool, true, false, List, [], ◌∷◌, none, ◌≡◌, refl, ◌∙◌, arith, starts_with, ok, raise,
  Bool-cases, inl, inr, Result, ◌==◌, eq_iff, contains, Distinct,
}
use steamos_log_submitter.Base.Dict.{lookup, lookup-nil}
use steamos_log_submitter.Spool.{Spool}
use steamos_log_submitter.Spool.Moves.{places}
use steamos_log_submitter.Runner.{HelperResult, Progress, submit_log, submit_logs, submit_category}
use steamos_log_submitter.Runner.Report.{Agrees, places-conclude, conclude-Agrees}

module _ (submit : String → Spool → Result HelperResult × Spool)
    (quiet : (log : String) (s : Spool) → (submit log s).1 ≡ s) (name : String) where
  submit_log-other :
      (log : String) (p : Progress)
      → (log == name) ≡ false
      → (lookup name (submit_log submit log p).1.submitted ≡ lookup name p.submitted)
        × (places name (submit_log submit log p).1.spool ≡ places name p.spool)
  unfolding submit_log
  submit_log-other log p differ =
      rw quiet (places-conclude log name p.submitted p.spool differ (submit log p.spool).0)

  -- A name that the loop does not meet is neither reported nor moved.
  submit_logs-other :
      (logs : List String) (p : Progress)
      → contains logs name ≡ false
      → (lookup name (submit_logs submit logs p).submitted ≡ lookup name p.submitted)
        × (places name (submit_logs submit logs p).spool ≡ places name p.spool)
  unfolding submit_logs
  submit_logs-other [] p absent = (refl, refl)
  submit_logs-other (log ∷ logs) p absent = ground (
    arith,
    submit_log-other log p,
    submit_logs-other logs p,
    submit_logs-other logs (submit_log submit log p).1,
  )

  submit_log-Agrees :
      (p : Progress)
      → Agrees
          (lookup name (submit_log submit name p).1.submitted)
          (places name p.spool)
          (places name (submit_log submit name p).1.spool)
  unfolding submit_log
  submit_log-Agrees p = rw quiet (conclude-Agrees (submit name p.spool).0 name p.submitted p.spool)

  abbrev AgreesAfter : Progress → Progress → Type 0
  AgreesAfter p q = Agrees (lookup name q.submitted) (places name p.spool) (places name q.spool)

  -- What the loop makes of the outcome of one log.
  abbrev rest : List String → Bool × Progress → Progress
  rest logs (stop, p) = elim stop [ true ↦ p | false ↦ submit_logs submit logs p ]

  rest-other :
      (logs : List String) (out : Bool × Progress)
      → contains logs name ≡ false
      → (lookup name (rest logs out).submitted ≡ lookup name out.1.submitted)
        × (places name (rest logs out).spool ≡ places name out.1.spool)
  rest-other logs (true, p) absent = (refl, refl)
  rest-other logs (false, p) absent = submit_logs-other logs p absent

  rest-Agrees :
      (logs : List String) (p : Progress) (out : Bool × Progress)
      → lookup name p.submitted ≡ none
      → lookup name out.1.submitted ≡ lookup name p.submitted
      → places name out.1.spool ≡ places name p.spool
      → (lookup name out.1.submitted ≡ none → AgreesAfter out.1 (submit_logs submit logs out.1))
      → AgreesAfter p (rest logs out)
  rest-Agrees logs p (true, q) fresh reported placed ih = rw (reported, fresh) placed
  rest-Agrees logs p (false, q) fresh reported placed ih = rw (← placed) (ih (reported ∙ fresh))

  submit_logs-nil : (p : Progress) → submit_logs submit [] p ≡ p
  unfolding submit_logs
  submit_logs-nil p = refl

  submit_logs_hidden :
      (log : String) (logs : List String) (p : Progress)
      → starts_with log "." ≡ true
      → submit_logs submit (log ∷ logs) p ≡ submit_logs submit logs p
  unfolding submit_logs
  submit_logs_hidden log logs p h = ground (arith)

  submit_logs_shown :
      (log : String) (logs : List String) (p : Progress)
      → starts_with log "." ≡ false
      → submit_logs submit (log ∷ logs) p ≡ rest logs (submit_log submit log p)
  unfolding submit_logs
  submit_logs_shown log logs p h = ground (arith)

  submit_logs-Agrees :
      (logs : List String) (p : Progress)
      → Distinct logs
      → lookup name p.submitted ≡ none
      → AgreesAfter p (submit_logs submit logs p)
  submit_logs-Agrees [] p d fresh = rw (submit_logs-nil, fresh) refl
  submit_logs-Agrees (log ∷ logs) p (once, d) fresh = elim (Bool-cases (starts_with log ".")) [
    | inl hidden ↦ rw (submit_logs_hidden log logs p hidden) (submit_logs-Agrees logs p d fresh)
    | inr shown ↦ rw (submit_logs_shown log logs p shown) (elim (Bool-cases (log == name)) [
      | inl same ↦
          let e : log ≡ name = (eq_iff log name).0 same in
          let absent : contains logs name ≡ false = rw (← e) once in
          let (reported, placed) = rest-other logs (submit_log submit log p) absent in
          rw (reported, placed) (rw e (submit_log-Agrees p))
      | inr differ ↦
          let (reported, placed) = submit_log-other log p differ in
          rest-Agrees logs p (submit_log submit log p) fresh reported placed
            (submit_logs-Agrees logs _ d)
    ])
  ]

module _ (submit : String → Spool → Result HelperResult × Spool)
    (quiet : (log : String) (s : Spool) → (submit log s).1 ≡ s) where
  pub submit_category-Agrees :
      (lock : Result (Unit {0})) (logs : List String) (s : Spool) (name : String)
      → Distinct logs
      → Agrees
          (lookup name (submit_category submit lock logs s).submitted)
          (places name s)
          (places name (submit_category submit lock logs s).spool)
  unfolding submit_category
  submit_category-Agrees (ok _) logs s name d =
      submit_logs-Agrees submit quiet name logs _ d (lookup-nil name)
  submit_category-Agrees (raise e) logs s name d = rw lookup-nil refl
