-- ===== src/Runner/Phases/Tests.antt =====
-- The phases at concrete helpers.
use steamos_log_submitter.Base.{
  String, true, List, [], ◌∷◌, none, some, Result, ok, raise, lock_held, ◌≡◌, refl, inr, inl,
}
use mathlib.Core.List.Perm
use steamos_log_submitter.Runner.{transient_error}
use steamos_log_submitter.Runner.Tests.{spool}
use steamos_log_submitter.Runner.Phases.{Client, collect, collect_category, selected}
use steamos_log_submitter.Runner.Phases.Gathered.{Same, collect-Silent}

abbrev client : String → Result (Unit {0}) → List String → Client
client name lock logs = record {
  name = name;
  enabled = true;
  collect_enabled = true;
  submit_enabled = true;
  collect_lock = lock;
  collection = ok logs;
  release = ok tt;
  listing = some [];
  submit_lock = ok tt;
  submit = λ log s. (ok transient_error, s);
  spool = spool;
}

abbrev gpu : Client
gpu = client "gpu" (ok tt) ("a.zip" ∷ [])

abbrev kdump : Client
kdump = client "kdump" (raise lock_held) ("b.zip" ∷ [])

abbrev trace : Client
trace = client "trace" (ok tt) ("c.json" ∷ "d.json" ∷ [])

collect_run :
    collect (λ tasks. tasks) none (ok (some gpu) ∷ ok (some kdump) ∷ ok none ∷ ok (some trace) ∷ [])
    ≡ ok ("gpu/a.zip" ∷ "trace/c.json" ∷ "trace/d.json" ∷ [])
unfolding collect collect_category selected
collect_run = refl

collect-Silent_example :
    Same
      (collect (λ tasks. tasks) none (ok (some gpu) ∷ ok (some kdump) ∷ ok (some trace) ∷ []))
      (collect (λ tasks. tasks) none (ok (some gpu) ∷ ok (some trace) ∷ []))
collect-Silent_example =
    collect-Silent (λ tasks. tasks) (λ tasks. Perm.refl tasks) none (ok (some gpu) ∷ [])
      (ok (some kdump)) (ok (some trace) ∷ []) (inr (inl (lock_held, refl)))
