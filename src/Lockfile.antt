-- ===== src/Lockfile.antt =====
-- steamos_log_submitter/lockfile.py: the lock file of a helper's directory, one system call a step.
mod Tests
pub mod Mutex
pub mod Retry
pub mod Contention
use steamos_log_submitter.Base.{
  ℕ, zero, suc, ◌+◌, Bool, true, false, Option, none, some, Result, ok, raise, Exc, lock_held,
  lock_not_held, file_not_found, nat_eq, ltb, if◌then◌else◌,
}

-- The text of a lock file: empty, `/proc/PID/fd/N`, which is what `lock` writes, or a text that does
-- not begin with `/proc/`. Texts of another form below `/proc/` are not modelled.
pub data Info : Type 0 where
  blank : Info
  link : ℕ → ℕ → Info
  text : Info

-- What `os.stat` finds at `/proc/PID/fd/N`: nothing, the file with this inode, or a refusal.
pub data Descriptor : Type 0 where
  closed : Descriptor
  opened : ℕ → Descriptor
  denied : Descriptor

-- A file is known by its inode number, which stands for the pair of `st_ino` and `st_dev`.
pub record World : Type 0 where
  pub path : Option ℕ
  pub contents : ℕ → Info
  pub descriptors : ℕ → ℕ → Descriptor
  pub unused : ℕ

pub data Stage : Type 0 where
  create examine : Stage
  reading : ℕ → ℕ → Stage
  stat_path : ℕ → ℕ → Stage
  stat_link : ℕ → ℕ → ℕ → Stage
  takeover : Stage
  write_info : ℕ → Stage
  obtained : Stage
  failed : Exc → Stage

abbrev pub written : ℕ → Info → World → World
written ino info w = record w { contents = λ i. if nat_eq i ino then info else w.contents i }

abbrev pub with_descriptor : ℕ → ℕ → Descriptor → World → World
with_descriptor pid fd d w = record w {
  descriptors = λ p n.
      if nat_eq p pid then (if nat_eq n fd then d else w.descriptors p n) else w.descriptors p n;
}

-- A new, empty file at the path, open as `fd`.
abbrev pub created : ℕ → ℕ → World → World
created pid fd w =
    with_descriptor pid fd (opened w.unused)
      (record (written w.unused blank w) { path = some w.unused; unused = suc w.unused })

-- What is done with the text once the three reads are over.
abbrev pub judge : Info → Stage
judge (link p n) = stat_path p n
judge _ = takeover

-- The next system call of the `while` loop of `lock`, made by the process `pid`, to which the system
-- gives `fd` for a file that it opens for writing.
unfoldable pub step : ℕ → ℕ → Stage → World → Stage × World
step pid fd create w = elim w.path [
  | none ↦ (write_info w.unused, created pid fd w)
  | some ino ↦ (examine, w)
]
step pid fd examine w = elim w.path [ none ↦ (create, w) | some ino ↦ (reading 1 ino, w) ]
step pid fd (reading tries ino) w = elim (w.contents ino) [
  | blank ↦ (if ltb tries 3 then reading (suc tries) ino else judge blank, w)
  | info ↦ (judge info, w)
]
step pid fd (stat_path p n) w = elim w.path [
  | none ↦ (failed file_not_found, w)
  | some ino ↦ (stat_link p n ino, w)
]
step pid fd (stat_link p n ino) w = elim (w.descriptors p n) [
  | opened other ↦ (if nat_eq other ino then failed lock_held else takeover, w)
  | _ ↦ (takeover, w)
]
step pid fd takeover w = elim w.path [
  | none ↦ (write_info w.unused, created pid fd w)
  | some ino ↦ (write_info ino, with_descriptor pid fd (opened ino) (written ino blank w))
]
step pid fd (write_info ino) w = (obtained, written ino (link pid fd) w)
step pid fd obtained w = (obtained, w)
step pid fd (failed e) w = (failed e, w)

-- The process alone, for so many system calls.
unfoldable pub run : ℕ → ℕ → ℕ → Stage → World → Stage × World
run zero pid fd stage w = (stage, w)
run (suc n) pid fd stage w = let (stage', w') = step pid fd stage w in run n pid fd stage' w'

-- The attribute `lockfile`, the descriptor of the open file, of a `Lockfile` in the process `pid`.
pub record Lockfile : Type 0 where
  pub pid : ℕ
  pub lockfile : Option ℕ

-- None: the loop is not over.
abbrev pub outcome : Lockfile → ℕ → Stage × World → Option (Result (Unit {0}) × Lockfile × World)
outcome l fd (obtained, w) = some (ok tt, record l { lockfile = some fd }, w)
outcome l fd (failed e, w) = some (raise e, l, w)
outcome l fd (_, w) = none

-- `lock` with no other process acting meanwhile, for seven system calls at most.
unfoldable pub lock : ℕ → Lockfile → World → Option (Result (Unit {0}) × Lockfile × World)
unfolding run step
lock fd l w = elim l.lockfile [
  | some held ↦ some (ok tt, l, w)
  | none ↦ outcome l fd (run 7 l.pid fd create w)
]

unfoldable pub unlock : Lockfile → World → Result (Unit {0}) × Lockfile × World
unlock l w = elim l.lockfile [
  | none ↦ (raise lock_not_held, l, w)
  | some fd ↦ elim w.path [
    | none ↦ (raise file_not_found, l, w)
    | some ino ↦ (
      ok tt,
      record l { lockfile = none },
      with_descriptor l.pid fd closed (record w { path = none }),
    )
  ]
]
