-- ===== src/Util/Tests.antt =====
-- The theorems of the utilities at concrete data.
use steamos_log_submitter.Base.{
  true, false, ℕ, zero, suc, Result, List, Text, ◌++◌, Bool-cases, inl, inr, raise, permission,
  nat_eq, if◌then◌else◌, ◌∷◌, [], some, none, ◌≡◌, refl, codes, ok, arith,
}
use steamos_log_submitter.Base.Dict.{lookup}
use steamos_log_submitter.Util.Case.{
  camel_case, camel_from, snake_case, snake_loop, separated, last_alpha,
}
use steamos_log_submitter.Util.Case.RoundTrip.{Word, snake_case-camel_case}
use steamos_log_submitter.Util.Release.{
  check_network, network_loop, get_build_id, get_file_key, split_at, unquoted, strip,
}
use steamos_log_submitter.Util.Release.Network.{Ended, check_network-Ended}
use steamos_log_submitter.Util.Root.{enter, exit}
use steamos_log_submitter.Util.Root.Restored.{linux, exit-enter}
use steamos_log_submitter.Util.Dmi.{Dmi, find, get_dmi_info}
use steamos_log_submitter.Util.Dmi.Tables.{lenovo}
use steamos_log_submitter.Util.Dmi.Laws.{Among, get_dmi_info-Among}
use steamos_log_submitter.Util.Stat.{get_pid_stat}
use steamos_log_submitter.Util.Stat.RoundTrip.{stat_line, get_pid_stat-stat_line}
use steamos_log_submitter.Util.Appid.{
  Proc, nonneg, get_appid, round, env_appid, scan_args, steam_only,
}
use steamos_log_submitter.Util.Appid.Laws.{Answers, Falls, get_appid-Answers}

abbrev legion : Dmi
legion = record {
  sys_vendor = some "LENOVO";
  board_name = some "LNVNB161216";
  product_name = some "83L3";
  bios_version = none;
}

get_dmi_info_run : get_dmi_info legion ≡ ("vendor", "LENOVO") ∷ ("product", "Legion Go S") ∷ []
unfolding get_dmi_info lookup
get_dmi_info_run = refl

legion_run :
    Among
      (find lenovo (some "83L3"))
      (find lenovo (some "LNVNB161216"))
      (lookup "product" (get_dmi_info legion))
unfolding lookup
legion_run = get_dmi_info-Among legion refl refl refl

-- A process that calls itself `a) S 1 (b`.
get_pid_stat-stat_line_run :
    get_pid_stat
      (ok (stat_line (codes "71") (codes "a) S 1 (b") b'S' (codes "42") (codes "42 0 -1")))
    ≡ ok (some (codes "a) S 1 (b", 42))
get_pid_stat-stat_line_run =
    get_pid_stat-stat_line b'7' (codes "1") (codes "a) S 1 (b") b'S' b'4' (codes "2")
      (codes "42 0 -1") (refl, (refl, tt)) refl (refl, (refl, tt)) refl refl

abbrev args : List Text → Text
args [] = []
args (a ∷ rest) = a ++ (0 ∷ args rest)

abbrev game : Proc
game = record { environ = raise permission; stat = ok (codes "9 (game) S 5 0"); cmdline = ok [] }

abbrev reaper : Proc
reaper = record {
  environ = raise permission;
  stat = ok (codes "5 (reaper) S 1 0");
  cmdline =
      ok (args (codes "SteamLaunch" ∷ codes "AppId=1234" ∷ codes "--" ∷ codes "AppId=5" ∷ []));
}

abbrev other : Proc
other = record { environ = raise permission; stat = raise permission; cmdline = raise permission }

-- The process 9 is the child of a reaper, 5, which is the child of 1.
abbrev procs : ℕ → Proc
procs pid = if nat_eq pid 9 then game else if nat_eq pid 5 then reaper else other

get_appid_run : get_appid procs 9 9 ≡ some (ok (some (nonneg 1234)))
unfolding get_appid round env_appid get_pid_stat scan_args steam_only
get_appid_run = refl

procs-Falls : (pid : ℕ) → Falls (λ p. p) pid (get_pid_stat (procs pid).stat)
unfolding get_pid_stat
procs-Falls pid = elim (Bool-cases (nat_eq pid 9)) [
  | inl nine ↦ rw nine (ground arith)
  | inr not_nine ↦ rw not_nine (elim (Bool-cases (nat_eq pid 5)) [
    | inl five ↦ rw five (ground arith)
    | inr not_five ↦ rw not_five tt
  ])
]

get_appid-Answers_example : Answers (get_appid procs 10 9)
get_appid-Answers_example = get_appid-Answers procs (λ p. p) procs-Falls 10 9 (omega arith)

-- gpu_ab2_fan
abbrev gpu_word : Word
gpu_word = (b'g', codes "pu")

abbrev two_words : List Word
two_words = (b'a', codes "b2") ∷ (b'f', codes "an") ∷ []

camel_case_run : camel_case (codes "gpu_ab2_fan") ≡ codes "GpuAb2Fan"
unfolding camel_case camel_from
camel_case_run = refl

snake_case_run : snake_case (codes "GPUTraceHTTP2") ≡ codes "gpu_trace_http2"
unfolding snake_case snake_loop separated last_alpha
snake_case_run = refl

snake_case-camel_case_run : snake_case (camel_case (codes "gpu_ab2_fan")) ≡ codes "gpu_ab2_fan"
snake_case-camel_case_run =
    snake_case-camel_case gpu_word two_words (refl, (refl, (refl, tt)), refl)
      ((refl, (refl, (refl, tt)), refl), ((refl, (refl, (refl, tt)), refl), tt))

exit-enter_run :
    (enter (linux (λ is_group n. nat_eq n 0)) 1000 1000 (record { uid = 0; gid = 0 })
      ≡ (ok tt, record { uid = 1000; gid = 1000 }))
    × (exit
          (linux (λ is_group n. nat_eq n 0))
          (record { uid = 0; gid = 0 })
          true
          (record { uid = 1000; gid = 1000 })
        ≡ (false, record { uid = 0; gid = 0 }))
exit-enter_run = exit-enter (λ is_group n. nat_eq n 0) 1000 1000 0 true refl

-- Two failures, then the right answer.
abbrev answers : ℕ → Result ℕ
answers zero = raise permission
answers (suc zero) = ok 302
answers (suc (suc n)) = ok 204

check_network_run : check_network answers ≡ (true, 2)
unfolding check_network network_loop
check_network_run = refl

check_network-Ended_run : Ended answers 0 5 (check_network answers)
check_network-Ended_run = check_network-Ended answers

get_build_id_run :
    get_build_id (ok (codes "ID=holo\n" ∷ codes "BUILD_ID=\"definitely fake\"\n" ∷ []))
    ≡ some (codes "definitely fake")
unfolding get_build_id get_file_key split_at unquoted strip
get_build_id_run = refl
