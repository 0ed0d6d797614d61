-- ===== src/Util/Appid/Laws.antt =====
-- `get_appid` ends, and what it answers.
use steamos_log_submitter.Base.{
  ℕ, zero, suc, ◌<◌, false, Option, none, some, ◌≡◌, refl, arith, Text, text_eq, codes, leb, ltb,
  Bool-cases, inl, inr, Result, ok, raise, Exc,
}
use steamos_log_submitter.Util.Stat.{is_caught, get_pid_stat}
use steamos_log_submitter.Util.Appid.{
  Signed, nonneg, negative, Proc, Round, answer, raises, parent, steam_only, go_on, reaper_round,
  stat_round, env_round, env_appid, round, scan_args, split, appid_loop, get_appid,
}

-- An app id of Steam, or none.
abbrev pub IsSteam : Option Signed → Type 0
IsSteam (some (nonneg n)) = n < 0x80000000
IsSteam _ = Unit

steam_only-IsSteam : (appid : Option Signed) → IsSteam (steam_only appid)
unfolding steam_only
steam_only-IsSteam none = tt
steam_only-IsSteam (some (negative n)) = tt
steam_only-IsSteam (some (nonneg n)) = elim (Bool-cases (leb 0x80000000 n)) [
  | inl big ↦ rw big tt
  | inr small ↦ rw small (ground arith)
]

-- What an exception is that comes out: none that is an OSError.
abbrev pub Escapes : Exc → Type 0
Escapes e = is_caught e ≡ false

abbrev IsParent : ℕ → Result (Option (Text × ℕ)) → Type 0
IsParent ppid (raise e) = ⊥
IsParent ppid (ok none) = ⊥
IsParent ppid (ok (some (comm, own))) = ppid ≡ own

-- The parent that a round goes on to is the one that the process has.
abbrev Follows : Result (Option (Text × ℕ)) → Round → Type 0
Follows stat (answer result) = IsSteam result
Follows stat (raises e) = Escapes e
Follows stat (parent ppid appid) = IsParent ppid stat

get_pid_stat-Escapes : (r : Result Text) (e : Exc) → get_pid_stat r ≡ raise e → Escapes e
unfolding get_pid_stat
get_pid_stat-Escapes (ok stat) e h = cc
get_pid_stat-Escapes (raise e') e h = ground arith

go_on-Follows :
    (comm : Text) (ppid : ℕ) (o : Option (Option Signed))
    → Follows (ok (some (comm, ppid))) (go_on ppid o)
go_on-Follows comm ppid none = tt
go_on-Follows comm ppid (some appid) = refl

reaper_round-Follows :
    (comm : Text) (ppid : ℕ) (appid : Option Signed) (cmdline : Result Text)
    → Follows (ok (some (comm, ppid))) (reaper_round ppid appid cmdline)
reaper_round-Follows comm ppid appid (raise e) = elim (Bool-cases (is_caught e)) [
  | inl caught ↦ rw caught tt
  | inr escapes ↦ rw escapes escapes
]
reaper_round-Follows comm ppid appid (ok cmdline) =
    go_on-Follows comm ppid (scan_args (split 0 cmdline) false appid)

stat_round-Follows :
    (proc : Proc) (appid : Option Signed) (stat : Result (Option (Text × ℕ)))
    → ((e : Exc) → stat ≡ raise e → Escapes e)
    → Follows stat (stat_round proc appid stat)
stat_round-Follows proc appid (raise e) escape = escape e refl
stat_round-Follows proc appid (ok none) escape = tt
stat_round-Follows proc appid (ok (some (comm, ppid))) escape =
    elim (Bool-cases (text_eq comm (codes "reaper"))) [
      | inl reaper ↦ rw reaper (reaper_round-Follows comm ppid appid proc.cmdline)
      | inr no_reaper ↦ rw no_reaper refl
    ]

env_round-Follows :
    (proc : Proc) (appid : Option Signed) (env : Result (Option Signed))
    → ((e : Exc) → env ≡ raise e → Escapes e)
    → Follows (get_pid_stat proc.stat) (env_round proc appid env)
env_round-Follows proc appid (raise e) escape = escape e refl
env_round-Follows proc appid (ok (some n)) escape = steam_only-IsSteam (some n)
env_round-Follows proc appid (ok none) escape =
    stat_round-Follows proc appid (get_pid_stat proc.stat) (get_pid_stat-Escapes proc.stat)

env_appid-Escapes : (r : Result Text) (e : Exc) → env_appid r ≡ raise e → Escapes e
unfolding env_appid
env_appid-Escapes (ok environ) e h = cc
env_appid-Escapes (raise e') e h = ground arith

round-Follows :
    (proc : Proc) (appid : Option Signed) → Follows (get_pid_stat proc.stat) (round proc appid)
unfolding round
round-Follows proc appid =
    env_round-Follows proc appid (env_appid proc.environ) (env_appid-Escapes proc.environ)

-- The loop came to an end, with an app id of Steam, none, or an exception that is no OSError.
abbrev pub Answers : Option (Result (Option Signed)) → Type 0
Answers none = ⊥
Answers (some (ok result)) = IsSteam result
Answers (some (raise e)) = Escapes e

-- Along the parents of a process some number falls: the processes form no cycle.
abbrev pub Falls : (ℕ → ℕ) → ℕ → Result (Option (Text × ℕ)) → Type 0
Falls rank pid (raise e) = Unit
Falls rank pid (ok none) = Unit
Falls rank pid (ok (some (comm, ppid))) = rank ppid < rank pid

module _ (procs : ℕ → Proc) (rank : ℕ → ℕ)
    (acyclic : (pid : ℕ) → Falls rank pid (get_pid_stat (procs pid).stat)) where
  parent-Falls :
      (fuel pid ppid : ℕ) (stat : Result (Option (Text × ℕ)))
      → rank pid < suc fuel
      → Falls rank pid stat
      → IsParent ppid stat
      → rank ppid < fuel
  parent-Falls fuel pid ppid (raise e) h falls is = absurd is
  parent-Falls fuel pid ppid (ok none) h falls is = absurd is
  parent-Falls fuel pid ppid (ok (some (comm, own))) h falls is = rw is (omega arith)

  next_round :
      (fuel pid : ℕ) (stat : Result (Option (Text × ℕ))) (r : Round)
      → rank pid < suc fuel
      → Falls rank pid stat
      → Follows stat r
      → ((ppid : ℕ) (appid : Option Signed)
          → rank ppid < fuel
          → Answers (appid_loop procs fuel ppid appid))
      → Answers (elim r as (λ x. Option (Result (Option Signed))) [
        | answer result ↦ some (ok result)
        | raises e ↦ some (raise e)
        | parent ppid appid ↦ appid_loop procs fuel ppid appid
      ])
  next_round fuel pid stat (answer result) h falls follows rest = follows
  next_round fuel pid stat (raises e) h falls follows rest = follows
  next_round fuel pid stat (parent ppid appid) h falls follows rest =
      rest ppid appid (parent-Falls fuel pid ppid stat h falls follows)

  appid_loop-Answers :
      (fuel pid : ℕ) (appid : Option Signed)
      → rank pid < fuel
      → Answers (appid_loop procs fuel pid appid)
  unfolding appid_loop
  appid_loop-Answers zero pid appid h = absurd (omega arith)
  appid_loop-Answers (suc fuel) pid appid h = elim (Bool-cases (ltb 1 pid)) [
    | inl more ↦
        rw (more, appid_loop)
          (next_round fuel pid (get_pid_stat (procs pid).stat) (round (procs pid) appid) h
            (acyclic pid) (round-Follows (procs pid) appid) (appid_loop-Answers fuel))
    | inr done ↦ rw (done, appid_loop) (steam_only-IsSteam appid)
  ]

  -- Where the parents of processes form no cycle, `get_appid` ends within as many rounds as the rank
  -- of the process plus one. Its answer is none, or an id below 0x80000000, or it ends with an
  -- exception that is no OSError.
  pub get_appid-Answers : (fuel pid : ℕ) → rank pid < fuel → Answers (get_appid procs fuel pid)
  unfolding get_appid
  get_appid-Answers fuel pid h = appid_loop-Answers fuel pid none h
