-- ===== src/Lockfile/Retry.antt =====
-- `LockRetry` of lockfile.py: a few attempts, with a pause after each but the last.
use steamos_log_submitter.Base.{ℕ, zero, suc, Option, none, some, ◌≡◌, Result, ok, raise, lock_held}
use steamos_log_submitter.Lockfile.{World, Lockfile, lock}

abbrev pub Outcome : Type 0
Outcome = Option (Result (Unit {0}) × Lockfile × World)

-- One turn of the loop, from what `lock` did, with `n` attempts left after it: a refusal at the last
-- attempt is raised, and after any other the loop sleeps; `next` is the rest of the loop.
unfoldable pub turn : (World → World) → (Lockfile → World → Outcome) → ℕ → Outcome → Outcome
turn sleep next n none = none
turn sleep next n (some (ok _, l, w)) = next l w
turn sleep next zero (some (raise lock_held, l, w)) = some (raise lock_held, l, w)
turn sleep next (suc n) (some (raise lock_held, l, w)) = next l (sleep w)
turn sleep next n (some (raise e, l, w)) = some (raise e, l, w)

-- `sleep` is what other processes do to the world during the pause, `fd` the descriptor that the
-- system gives to the lock file.
module _ (sleep : World → World) (fd : ℕ) where
  -- `LockRetry.__enter__` with so many attempts left
  unfoldable pub retry : ℕ → Lockfile → World → Outcome
  retry zero l w = some (ok tt, l, w)
  retry (suc n) l w = turn sleep (retry n) n (lock fd l w)

  -- `__enter__` came back with the lock, or raised `LockHeldError` without it.
  abbrev pub Entered : Outcome → Type 0
  Entered (some (ok _, l, w)) = l.lockfile ≡ some fd
  Entered (some (raise e, l, w)) = (e ≡ lock_held) × (l.lockfile ≡ none)
  Entered none = ⊥
