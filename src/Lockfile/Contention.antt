-- ===== src/Lockfile/Contention.antt =====
-- Several processes at the lock file at once, their system calls interleaved in any order.
use steamos_log_submitter.Base.{
  ℕ, List, [], ◌∷◌, none, some, ◌≡◌, refl, arith, Bool-cases, inl, inr, lock_held, nat_eq,
  if◌then◌else◌,
}
use steamos_log_submitter.Lockfile.{
  World, Stage, create, examine, reading, stat_path, stat_link, obtained, failed, write_info,
  takeover, run, step,
}
use steamos_log_submitter.Lockfile.Mutex.{holder}

-- Processes that call `lock`: the number and the next free descriptor of each, and how far it is.
pub record Contender : Type 0 where
  pub pid : ℕ
  pub fd : ℕ
  pub stage : Stage

abbrev pub Contenders : Type 0
Contenders = ℕ → Contender

-- The process with this index makes its next system call.
unfoldable pub act : ℕ → Contenders × World → Contenders × World
act k (cs, w) =
    let c = cs k in
    let (stage, w') = step c.pid c.fd c.stage w in
    (λ i. if nat_eq i k then record c { stage = stage } else cs i, w')

unfoldable pub play : List ℕ → Contenders × World → Contenders × World
unfolding act
play [] s = s
play (k ∷ schedule) s = play schedule (act k s)

-- Where a process can be that found the lock held.
abbrev Waits : ℕ → ℕ → World → Stage → Type 0
Waits p n w create = Unit
Waits p n w examine = Unit
Waits p n w (reading tries ino) = w.path ≡ some ino
Waits p n w (stat_path a b) = (a ≡ p) × (b ≡ n)
Waits p n w (stat_link a b ino) = (a ≡ p) × (b ≡ n) × (w.path ≡ some ino)
Waits p n w (failed e) = e ≡ lock_held
Waits p n w _ = ⊥

step-Waits :
    (pid fd p n : ℕ) (stage : Stage) (w : World)
    → holder w ≡ some (p, n)
    → Waits p n w stage
    → (Waits p n w (step pid fd stage w).0) × ((step pid fd stage w).1 ≡ w)
unfolding step holder
step-Waits pid fd p n create w held ok_so_far = ground arith
step-Waits pid fd p n _ w held ok_so_far = ground arith

-- The call has not returned, and if it has raised, then `LockHeldError`.
abbrev pub IsLockedOut : Stage → Type 0
IsLockedOut obtained = ⊥
IsLockedOut (failed e) = e ≡ lock_held
IsLockedOut _ = Unit

Waits-IsLockedOut : (p n : ℕ) (w : World) (stage : Stage) → Waits p n w stage → IsLockedOut stage
Waits-IsLockedOut p n w obtained h = h
Waits-IsLockedOut p n w (failed e) h = h
Waits-IsLockedOut p n w (write_info ino) h = absurd h
Waits-IsLockedOut p n w takeover h = absurd h
Waits-IsLockedOut p n w _ h = tt

-- The world is as it was, and every process is still waiting or has been refused.
abbrev Queue : ℕ → ℕ → World → Contenders × World → Type 0
Queue p n w (cs, v) = (v ≡ w) × ((k : ℕ) → Waits p n w (cs k).stage)

module _ (p n : ℕ) (w : World) (held : holder w ≡ some (p, n)) where
  act-Queue : (k : ℕ) (s : Contenders × World) → Queue p n w s → Queue p n w (act k s)
  unfolding act
  act-Queue k (cs, v) (same, waits) =
      let c = cs k in
      let (still, unchanged) = step-Waits c.pid c.fd p n c.stage w held (waits k) in
      (
        rw same unchanged,
        λ i. elim (Bool-cases (nat_eq i k)) [
          | inl now ↦ rw (now, same) still
          | inr other ↦ rw other (waits i)
        ],
      )

  play-Queue :
      (schedule : List ℕ) (s : Contenders × World) → Queue p n w s → Queue p n w (play schedule s)
  unfolding play
  play-Queue [] s q = q
  play-Queue (k ∷ schedule) s q = play-Queue schedule (act k s) (act-Queue k s q)

  -- While a process holds the lock and does nothing itself, any number of others may call `lock`,
  -- their system calls interleaved in any order: the file stays as it is, so the lock stays held,
  -- none of them gets it, and one that is refused is refused by `LockHeldError`.
  pub play_excludes :
      (schedule : List ℕ) (cs : Contenders)
      → ((k : ℕ) → (cs k).stage ≡ create)
      → ((play schedule (cs, w)).1 ≡ w)
        × ((k : ℕ) → IsLockedOut ((play schedule (cs, w)).0 k).stage)
  play_excludes schedule cs start =
      let (same, waits) = play-Queue schedule (cs, w) (refl, λ k. rw start tt) in
      (same, λ k. Waits-IsLockedOut p n w _ (waits k))

-- The lock is free. A process creates the file; before it has written its link, another finds the
-- file, reads it three times empty, takes it over and writes its own link; then the first writes.
-- Both calls of `lock` return: for all processes, and whatever else the world holds.
pub lock_race :
    (a fa b fb : ℕ) (w : World)
    → w.path ≡ none
    → let (first, w1) = run 1 a fa create w in
      let (second, w2) = run 7 b fb create w1 in
      (second ≡ obtained) × ((run 1 a fa first w2).0 ≡ obtained)
unfolding run step
lock_race a fa b fb w free = ground arith
