-- ===== src/Lockfile/Tests.antt =====
-- The theorems on the lock file at concrete data.
use steamos_log_submitter.Base.{ℕ, [], ◌∷◌, none, some, ◌≡◌, refl, ok, nat_eq, if◌then◌else◌}
use steamos_log_submitter.Lockfile.{
  link, closed, opened, World, create, obtained, run, Lockfile, unlock,
}
use steamos_log_submitter.Lockfile.Mutex.{holder, Locks, Released, lock-Locks, unlock-holder}
use steamos_log_submitter.Lockfile.Contention.{
  Contenders, play, play_excludes, lock_race, IsLockedOut,
}

-- The process 7 holds the lock by its descriptor 3, on the file with inode 40.
abbrev held : World
held = record {
  path = some 40;
  contents = λ ino. link 7 3;
  descriptors = λ pid fd. if nat_eq pid 7 then opened 40 else closed;
  unused = 41;
}

abbrev free : World
free = record held { path = none }

abbrev mine : Lockfile
mine = record { pid = 7; lockfile = some 3 }

abbrev theirs : Lockfile
theirs = record { pid = 8; lockfile = none }

holder-held : holder held ≡ some (7, 3)
unfolding holder
holder-held = refl

lock-Locks_example : Locks 5 theirs held (holder held)
lock-Locks_example = lock-Locks 5 theirs held refl

unlock-holder_example :
    (v : World) × (unlock mine held ≡ (ok tt, record mine { lockfile = none }, v))
    × Released 7 3 held v
unlock-holder_example = unlock-holder 3 mine held refl holder-held

abbrev callers : Contenders
callers k = record { pid = k; fd = 9; stage = create }

play_excludes_example :
    ((play (0 ∷ 1 ∷ 0 ∷ 1 ∷ 0 ∷ []) (callers, held)).1 ≡ held)
    × ((k : ℕ) → IsLockedOut ((play (0 ∷ 1 ∷ 0 ∷ 1 ∷ 0 ∷ []) (callers, held)).0 k).stage)
play_excludes_example =
    play_excludes 7 3 held holder-held (0 ∷ 1 ∷ 0 ∷ 1 ∷ 0 ∷ []) callers (λ k. refl)

lock_race_run :
    let (first, w1) = run 1 1 3 create free in
    let (second, w2) = run 7 2 4 create w1 in
    (second ≡ obtained) × ((run 1 1 3 first w2).0 ≡ obtained)
lock_race_run = lock_race 1 3 2 4 free refl
