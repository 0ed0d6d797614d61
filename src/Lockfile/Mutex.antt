-- ===== src/Lockfile/Mutex.antt =====
-- One process at a time, the lock file is a mutex.
use steamos_log_submitter.Base.{
  ℕ, Option, none, some, ◌≡◌, refl, arith, ok, raise, lock_held, nat_eq, false, ◌&&◌, if◌then◌else◌,
}
use steamos_log_submitter.Lockfile.{
  Info, blank, link, Descriptor, closed, opened, World, Lockfile, lock, unlock, written, created,
  with_descriptor,
}

abbrev pub live : ℕ → ℕ → ℕ → Descriptor → Option (ℕ × ℕ)
live ino p n (opened other) = if nat_eq other ino then some (p, n) else none
live ino p n _ = none

abbrev pub named : World → ℕ → Info → Option (ℕ × ℕ)
named w ino (link p n) = live ino p n (w.descriptors p n)
named w ino _ = none

-- Who holds the lock: the process and the descriptor that the file at the path names, if that
-- descriptor is open on this very file.
unfoldable pub holder : World → Option (ℕ × ℕ)
holder w = elim w.path [ none ↦ none | some ino ↦ named w ino (w.contents ino) ]

lock_held_lem :
    (fd : ℕ) (l : Lockfile) (w : World) {p n : ℕ}
    → l.lockfile ≡ none
    → holder w ≡ some (p, n)
    → lock fd l w ≡ some (raise lock_held, l, w)
unfolding lock holder
lock_held_lem fd l w free held = ground arith

-- The file at the path, made or emptied, then filled in.
taken : ℕ → ℕ → World → World
taken pid fd w = elim w.path [
  | none ↦ written w.unused (link pid fd) (created pid fd w)
  | some ino ↦ written ino (link pid fd) (with_descriptor pid fd (opened ino) (written ino blank w))
]

lock-taken :
    (fd : ℕ) (l : Lockfile) (w : World)
    → l.lockfile ≡ none
    → holder w ≡ none
    → lock fd l w ≡ some (ok tt, record l { lockfile = some fd }, taken l.pid fd w)
unfolding lock holder taken
lock-taken fd l w free unheld = ground arith

holder-taken : (pid fd : ℕ) (w : World) → holder (taken pid fd w) ≡ some (pid, fd)
unfolding holder taken
holder-taken pid fd w = ground arith

abbrev pub Locks : ℕ → Lockfile → World → Option (ℕ × ℕ) → Type 0
Locks fd l w (some h) = lock fd l w ≡ some (raise lock_held, l, w)
Locks fd l w none =
    (v : World) × (lock fd l w ≡ some (ok tt, record l { lockfile = some fd }, v))
    × (holder v ≡ some (l.pid, fd))

-- `lock` by a process that does not hold it, alone, ends after at most seven system calls. If some
-- process holds the lock it raises `LockHeldError` and changes nothing; otherwise (no file, an empty
-- one, another text, or a stale link) it returns, and then the process holds it.
pub lock-Locks : (fd : ℕ) (l : Lockfile) (w : World) → l.lockfile ≡ none → Locks fd l w (holder w)
lock-Locks fd l w free = go (holder w) refl
  where
    go : (h : Option (ℕ × ℕ)) → holder w ≡ h → Locks fd l w h
    go (some (p, n)) held = lock_held_lem fd l w free held
    go none unheld = (taken l.pid fd w, lock-taken fd l w free unheld, holder-taken l.pid fd w)

-- Who calls `lock` next, and is not holding it, gets the lock.
abbrev pub IsFree : World → Type 0
IsFree w =
    (fd : ℕ) (l : Lockfile)
    → l.lockfile ≡ none
    → (v : World) × (lock fd l w ≡ some (ok tt, record l { lockfile = some fd }, v))
      × (holder v ≡ some (l.pid, fd))

unheld-IsFree : (w : World) → holder w ≡ none → IsFree w
unheld-IsFree w unheld fd l free =
    (taken l.pid fd w, lock-taken fd l w free unheld, holder-taken l.pid fd w)

-- What `unlock` leaves: the lock file is deleted, the descriptor is closed, every other descriptor and
-- the contents of the files are as they were, and the lock is free for any process.
abbrev pub Released : ℕ → ℕ → World → World → Type 0
Released pid fd old new =
    (new.path ≡ none)
    × (new.descriptors pid fd ≡ closed)
    × ((p n : ℕ)
        → (nat_eq p pid && nat_eq n fd) ≡ false
        → new.descriptors p n ≡ old.descriptors p n)
    × ((ino : ℕ) → new.contents ino ≡ old.contents ino)
    × IsFree new

-- `unlock` by the holder returns; the lock file is deleted and the holder's descriptor closed, no other
-- descriptor and no file's contents change, and then any process that calls `lock`, alone, gets the
-- lock and holds it.
pub unlock-holder :
    (fd : ℕ) (l : Lockfile) (w : World)
    → l.lockfile ≡ some fd
    → holder w ≡ some (l.pid, fd)
    → (v : World) × (unlock l w ≡ (ok tt, record l { lockfile = none }, v)) × Released l.pid fd w v
unfolding unlock holder
unlock-holder fd l w mine held =
    let v = with_descriptor l.pid fd closed (record w { path = none }) in
    (
      v,
      ground arith,
      (refl, ground arith, (λ p n other. ground arith), (λ ino. refl), unheld-IsFree v refl),
    )
