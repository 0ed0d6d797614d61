-- ===== src/Hooks/Coredump.antt =====
-- hooks/coredump.py: which crashes of programs are collected.
use steamos_log_submitter.Base.{
  Bool, true, false, not, List, [], ◌∷◌, map, ◌≡◌, refl, nat_eq, if◌then◌else◌, Text, codes, holds,
  begins_with, has_part, begins_with-holds, has_part-holds,
}

unfoldable pub should_collect : Text → Bool
should_collect path =
    if begins_with path (codes "/tmp/.mount_")
    then false
    else (if begins_with path (codes "/app")
        then false
        else not (has_part path (codes "/.local/share/Steam/")))

-- `E.replace('!', '/')`; the kernel writes `!` for `/` in what it passes as `E`.
abbrev pub unmangled : Text → Text
unmangled = map (λ c. if nat_eq c b'!' then b'/' else c)

-- Who gets a copy of the core.
pub data Handler : Type 0 where
  systemd breakpad : Handler

-- The processes that `tee` feeds, whether a minidump is put below `pending`, and what `run` returns,
-- which is whether the collection is triggered.
pub record Outcome : Type 0 where
  pub handlers : List Handler
  pub staged : Bool
  pub triggered : Bool

unfoldable pub run : Text → Outcome
run E =
    if should_collect (unmangled E)
    then record { handlers = breakpad ∷ systemd ∷ []; staged = true; triggered = should_collect E }
    else record { handlers = systemd ∷ []; staged = false; triggered = should_collect E }

plain_path : (E : Text) → holds b'/' E ≡ false → should_collect E ≡ true
unfolding should_collect
plain_path E plain = rw (
  begins_with-holds b'/' E (codes "/tmp/.mount_") plain refl,
  begins_with-holds b'/' E (codes "/app") plain refl,
  has_part-holds b'/' E (codes "/.local/share/Steam/") plain refl,
)

-- A path as the kernel writes it has no `/`. Then the hook triggers the collection also where the
-- program is one that it leaves out and no minidump was written: the test at its end looks at the
-- path before `!` became `/`, so it lets every path pass.
pub run_triggers :
    (E : Text)
    → holds b'/' E ≡ false
    → should_collect (unmangled E) ≡ false
    → ((run E).staged ≡ false) × ((run E).triggered ≡ true)
unfolding run
run_triggers E plain left_out = rw (left_out, plain_path E plain) (refl, refl)
