-- ===== src/Util/Appid.antt =====
-- `get_appid` of util.py: the Steam app id of a process, from its ancestors.
pub mod Laws
use steamos_log_submitter.Base.{
  ℕ, zero, suc, ◌+◌, ◌-◌, ◌*◌, Bool, true, false, ◌&&◌, List, [], ◌∷◌, Option, none, some, Text,
  codes, text_eq, nat_eq, leb, ltb, holds, if◌then◌else◌, Result, ok, raise, Exc,
}
use steamos_log_submitter.Util.Stat.{is_digit, is_space, drop_while, is_caught, get_pid_stat}

-- An integer: `negative n` is -(n + 1).
pub data Signed : Type 0 where
  nonneg : ℕ → Signed
  negative : ℕ → Signed

abbrev pub negate : ℕ → Signed
negate zero = nonneg zero
negate (suc n) = negative n

abbrev pub strip_end : Text → Text
strip_end [] = []
strip_end (c ∷ s) = elim (strip_end s) [
  | [] ↦ if is_space c then [] else c ∷ []
  | d ∷ r ↦ c ∷ d ∷ r
]

-- Digits with single underscores between them; the flag says that the last character was a digit.
abbrev pub int_digits : ℕ → Bool → Text → Option ℕ
int_digits n after_digit [] = if after_digit then some n else none
int_digits n after_digit (c ∷ s) =
    let next = int_digits (n * 10 + (c - b'0')) true s in
    let separated = int_digits n false s in
    if is_digit c then next else if nat_eq c b'_' && after_digit then separated else none

abbrev pub option_map {ℓ κ} : {A : Type ℓ} {B : Type κ} → (A → B) → Option A → Option B
option_map f none = none
option_map f (some a) = some (f a)

abbrev pub signed_digits : Text → Option Signed
signed_digits [] = none
signed_digits (c ∷ s) =
    if nat_eq c b'-'
    then option_map negate (int_digits 0 false s)
    else if nat_eq c b'+'
    then option_map nonneg (int_digits 0 false s)
    else option_map nonneg (int_digits 0 false (c ∷ s))

-- `int(text)` of ASCII text; none is a ValueError.
unfoldable pub int : Text → Option Signed
int text = signed_digits (strip_end (drop_while is_space text))

-- `text.split(c)`
abbrev pub join_first : ℕ → List Text → List Text
join_first a [] = (a ∷ []) ∷ []
join_first a (part ∷ parts) = (a ∷ part) ∷ parts

abbrev pub split : ℕ → Text → List Text
split c [] = [] ∷ []
split c (a ∷ s) = let rest = split c s in if nat_eq a c then [] ∷ rest else join_first a rest

-- `text.split(c, 1)`, or none if `c` is not in the text
abbrev pub cut : ℕ → Text → Option (Text × Text)
cut c [] = none
cut c (a ∷ s) =
    let rest = option_map (λ (name, value). (a ∷ name, value)) (cut c s) in
    if nat_eq a c then some ([], s) else rest

abbrev pub value_if : Text → Option (Text × Text) → Option Text
value_if key none = none
value_if key (some (name, value)) = if text_eq name key then some value else none

-- `env[key]` of the dict that the comprehension builds: the last definition counts.
abbrev pub env_get : Text → List Text → Option Text
env_get key [] = none
env_get key (kv ∷ kvs) = elim (env_get key kvs) [
  | some value ↦ some value
  | none ↦ value_if key (cut b'=' kv)
]

-- The app id that the environment gives. A refused or failed `open` is no app id either; text that
-- cannot be decoded raises.
abbrev pub game_id : Option Text → Option Signed
game_id none = none
game_id (some value) = int value

unfoldable pub env_appid : Result Text → Result (Option Signed)
unfolding int
env_appid (raise e) = if is_caught e then ok none else raise e
env_appid (ok environ) = ok (game_id (env_get (codes "SteamGameId") (split 0 environ)))

abbrev pub after_prefix : Text → Text → Option Text
after_prefix [] s = some s
after_prefix (p ∷ ps) [] = none
after_prefix (p ∷ ps) (c ∷ s) = if nat_eq p c then after_prefix ps s else none

pub data Arg : Type 0 where
  steam_launch end_mark plain : Arg
  app_value : Text → Arg

abbrev pub dashes : Text → Arg
dashes arg = if text_eq arg (codes "--") then end_mark else plain

abbrev pub app_arg : Bool → Text → Option Text → Arg
app_arg true arg (some value) = app_value value
app_arg _ arg _ = dashes arg

-- Which branch of the chain an argument takes, after `SteamLaunch` or before it.
unfoldable pub kind : Bool → Text → Arg
kind launch arg =
    if text_eq arg (codes "SteamLaunch")
    then steam_launch
    else app_arg launch arg (after_prefix (codes "AppId=") arg)

-- The loop over the arguments of a reaper. The outer none is the `return None`.
unfoldable pub scan_args : List Text → Bool → Option Signed → Option (Option Signed)
unfolding int kind
scan_args [] launch appid = some appid
scan_args (arg ∷ args) launch appid = elim (kind launch arg) [
  | steam_launch ↦ scan_args args true appid
  | end_mark ↦ some appid
  | plain ↦ scan_args args launch appid
  | app_value value ↦ elim (int value) [ none ↦ none | some n ↦ scan_args args launch (some n) ]
]

-- What /proc has on a process.
pub record Proc : Type 0 where
  pub environ : Result Text
  pub stat : Result Text
  pub cmdline : Result Text

-- The end: ids from 0x80000000 on are not Steam games.
unfoldable pub steam_only : Option Signed → Option Signed
steam_only (some (nonneg n)) = if leb 0x80000000 n then none else some (nonneg n)
steam_only appid = appid

-- One round for a process: the answer, an exception, or the parent and the app id so far.
pub data Round : Type 0 where
  answer : Option Signed → Round
  raises : Exc → Round
  parent : ℕ → Option Signed → Round

abbrev pub go_on : ℕ → Option (Option Signed) → Round
go_on ppid none = answer none
go_on ppid (some appid) = parent ppid appid

abbrev pub reaper_round : ℕ → Option Signed → Result Text → Round
reaper_round ppid appid (raise e) = if is_caught e then answer none else raises e
reaper_round ppid appid (ok cmdline) = go_on ppid (scan_args (split 0 cmdline) false appid)

abbrev pub stat_round : Proc → Option Signed → Result (Option (Text × ℕ)) → Round
stat_round proc appid (raise e) = raises e
stat_round proc appid (ok none) = answer none
stat_round proc appid (ok (some (comm, ppid))) =
    if text_eq comm (codes "reaper")
    then reaper_round ppid appid proc.cmdline
    else parent ppid appid

abbrev pub env_round : Proc → Option Signed → Result (Option Signed) → Round
env_round proc appid (raise e) = raises e
env_round proc appid (ok (some n)) = answer (steam_only (some n))
env_round proc appid (ok none) = stat_round proc appid (get_pid_stat proc.stat)

unfoldable pub round : Proc → Option Signed → Round
round proc appid = env_round proc appid (env_appid proc.environ)

-- The `while` loop; none: the fuel is used up.
module _ (procs : ℕ → Proc) where
  unfoldable pub appid_loop : ℕ → ℕ → Option Signed → Option (Result (Option Signed))
  appid_loop zero pid appid = none
  appid_loop (suc fuel) pid appid = elim (ltb 1 pid) [
    | false ↦ some (ok (steam_only appid))
    | true ↦ elim (round (procs pid) appid) [
      | answer result ↦ some (ok result)
      | raises e ↦ some (raise e)
      | parent ppid appid' ↦ appid_loop fuel ppid appid'
    ]
  ]

  unfoldable pub get_appid : ℕ → ℕ → Option (Result (Option Signed))
  unfolding appid_loop
  get_appid fuel pid = appid_loop fuel pid none
