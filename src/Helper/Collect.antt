-- ===== src/Helper/Collect.antt =====
-- `Helper.collect`: which pending logs are new since the last collection.
pub mod Newer
use steamos_log_submitter.Base.{
  ℕ, ◌/◌, ◌≤◌, ◌<◌, String, Bool, true, false, List, [], ◌∷◌, ◌++◌, Option, none, some, ◌≡◌, refl,
  arith, ltb, if◌then◌else◌, map, contains, ◌<>◌,
}

-- The entry `newest` of the helper's section: a time, in milliseconds since `float(...)` is rounded
-- to three places, or a text that `float` refuses.
pub data Stamp : Type 0 where
  millis : ℕ → Stamp
  unreadable : Stamp

-- A pending log with its time of modification in milliseconds, or none if `os.stat` fails.
abbrev pub Listing : Type 0
Listing = List (String × Option ℕ)

-- What the collection does besides returning the new logs, in order.
pub data Effect : Type 0 where
  new_logs : List String → Effect
  write_config : Effect
  last_collected : ℕ → Effect

pub record Section : Type 0 where
  pub newest : Option Stamp
  pub has_iface : Bool
  pub effects : List Effect

-- `x is None or mtime > x`
abbrev pub exceeds : ℕ → Option ℕ → Bool
exceeds mtime none = true
exceeds mtime (some t) = ltb t mtime

abbrev pub raise_to : ℕ → Option ℕ → Option ℕ
raise_to mtime t = if exceeds mtime t then some mtime else t

abbrev pub last_of : Option Stamp → Option ℕ
last_of (some (millis t)) = some t
last_of (some unreadable) = none
last_of none = none

pub record Scan : Type 0 where
  pub newer : List String
  pub newest : Option ℕ

-- One round of the `for` loop.
unfoldable pub scan_log : Option ℕ → String → Option ℕ → Scan → Scan
scan_log last log none sc = sc
scan_log last log (some mtime) sc = record {
  newer = if exceeds mtime last then sc.newer ++ (log ∷ []) else sc.newer;
  newest = raise_to mtime sc.newest;
}

unfoldable pub scan : Option ℕ → Listing → Scan → Scan
unfolding scan_log
scan last [] sc = sc
scan last ((log, mtime) ∷ rest) sc = scan last rest (scan_log last log mtime sc)

-- `newest is not None and (last_collected is None or newest > last_collected)`
abbrev pub updated : Option ℕ → Option ℕ → Bool
updated none last = false
updated (some t) last = exceeds t last

abbrev pub is_empty {ℓ} : {A : Type ℓ} → List A → Bool
is_empty [] = true
is_empty (x ∷ xs) = false

abbrev pub emit : Bool → Effect → List Effect → List Effect
emit condition e es = if condition then es ++ (e ∷ []) else es

-- The signal `NewLogs` carries those of the logs that are pending.
abbrev pub still_pending : List String → List String → List String
still_pending pending [] = []
still_pending pending (log ∷ logs) =
    let rest = still_pending pending logs in if contains pending log then log ∷ rest else rest

abbrev pub seconds : Option ℕ → ℕ
seconds none = 0
seconds (some t) = t / 1000

abbrev pub stamped : Option ℕ → Option Stamp
stamped none = none
stamped (some t) = some (millis t)

abbrev pub names : Listing → List String
names = map (λ (log, mtime). log)

unfoldable pub collect : Listing → Section → List String × Section
unfolding scan
collect listing s =
    let last = last_of s.newest in
    let sc = scan last listing (record { newer = []; newest = none }) in
    let update = updated sc.newest last in
    let after_signal =
      (if is_empty sc.newer
        then s.effects
        else emit s.has_iface (new_logs (still_pending (names listing) sc.newer)) s.effects) in
    let after_write = emit update write_config after_signal in
    (
      sc.newer,
      record s {
        newest = if update then stamped sc.newest else s.newest;
        effects =
            if update
            then emit s.has_iface (last_collected (seconds sc.newest)) after_write
            else after_write;
      },
    )

-- The independent description: the logs whose time is later than the last collection.
abbrev pub later_than : Option ℕ → Listing → List String
later_than last [] = []
later_than last ((log, none) ∷ rest) = later_than last rest
later_than last ((log, some mtime) ∷ rest) =
    let others = later_than last rest in if exceeds mtime last then log ∷ others else others

-- The latest time of a list, not earlier than a given one.
abbrev pub latest : Option ℕ → Listing → Option ℕ
latest t [] = t
latest t ((log, none) ∷ rest) = latest t rest
latest t ((log, some mtime) ∷ rest) = latest (raise_to mtime t) rest
