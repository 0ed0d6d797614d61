-- ===== src/Logging/Handlers.antt =====
-- `reconfigure_logging`: every handler and the root logger have one and the same valid level.
use steamos_log_submitter.Base.{
  ℕ, String, Bool, true, false, List, [], ◌∷◌, ◌++◌, map, Option, none, some, Text, ltb,
  if◌then◌else◌, ◌==◌, ◌≡◌, refl, arith, All, Bool-cases, inl, inr, ap,
}
use steamos_log_submitter.Logging.{
  level_number, uppercase, valid_level, or_else, known_or_warning, level_int, Handler, stream, file,
  remote, Root, add_handler, remove_handlers, add_file, add_remote, quiet_asyncio,
  reconfigure_logging,
}

level_number-valid_level : (name : Text) → valid_level (known_or_warning (level_number name)) ≡ true
unfolding level_number valid_level
level_number-valid_level name = ground arith

abbrev AtLevel : ℕ → Handler × ℕ → Type 0
AtLevel n (handler, level) = level ≡ n

All-snoc :
    (n : ℕ) (handler : Handler) (handlers : List (Handler × ℕ))
    → All (AtLevel n) handlers
    → All (AtLevel n) (handlers ++ ((handler, n) ∷ []))
All-snoc n handler [] h = (refl, tt)
All-snoc n handler (h' ∷ handlers) (one, h) = (one, All-snoc n handler handlers h)

-- The handlers have one level, the first one writes to the standard error stream, and those of the
-- old logger are closed.
abbrev pub Replaces : ℕ → Root → Root → Type 0
Replaces n old r =
    All (AtLevel n) r.handlers
    × (r.closed ≡ old.closed ++ map (λ h. h.0) old.handlers)
    × ((rest : List (Handler × ℕ)) × (r.handlers ≡ (stream, n) ∷ rest))

add_handler-Replaces :
    (n : ℕ) (handler : Handler) (old r : Root)
    → Replaces n old r
    → Replaces n old (add_handler handler n r)
add_handler-Replaces n handler old r (levels, closed, (rest, first)) = (
  All-snoc n handler r.handlers levels,
  closed,
  (rest ++ ((handler, n) ∷ []), ap (λ hs. hs ++ ((handler, n) ∷ [])) first),
)

if-Replaces :
    (b : Bool) (n : ℕ) (old r s : Root)
    → Replaces n old r
    → Replaces n old s
    → Replaces n old (if b then r else s)
if-Replaces true n old r s h k = h
if-Replaces false n old r s h k = k

add_file-Replaces :
    (opens : Bool) (path : Option String) (n : ℕ) (old r : Root)
    → Replaces n old r
    → Replaces n old (add_file opens path n r)
add_file-Replaces opens none n old r h = h
add_file-Replaces opens (some path) n old r h =
    let added = add_handler (file path) n r in
    if-Replaces (path == "") n old r (if opens then added else r) h
      (if-Replaces opens n old added r (add_handler-Replaces n (file path) old r h) h)

add_remote-Replaces :
    (connects wanted : Bool) (n : ℕ) (old r : Root)
    → Replaces n old r
    → Replaces n old (add_remote connects wanted n r)
add_remote-Replaces connects wanted n old r h =
    let added = add_handler remote n r in
    if-Replaces wanted n old (if connects then added else r) r
      (if-Replaces connects n old added r (add_handler-Replaces n remote old r h) h) h

quiet_asyncio-Replaces :
    (n : ℕ) (old r : Root)
    → Replaces n old r
    → (r.level ≡ n)
    → Replaces n old (quiet_asyncio n r) × ((quiet_asyncio n r).level ≡ n)
quiet_asyncio-Replaces n old r h level = elim (Bool-cases (ltb n 20)) [
  | inl low ↦ rw low (h, level)
  | inr high ↦ rw high (h, level)
]

-- Whatever is configured and asked for, and whether or not the log file can be opened and the remote
-- handler created: the old handlers are closed and gone, the first new one writes to the standard
-- error stream, and all new ones and the root logger have one level, which is a valid one.
pub reconfigure_logging-Replaces :
    (opens connects : Bool) (path level : Option String) (wanted : Bool)
    (configured : Option String) (old : Root)
    → let r = reconfigure_logging opens connects path level wanted configured old in
      let n = level_int level configured in
      (valid_level n ≡ true) × Replaces n old r × (r.level ≡ n)
unfolding reconfigure_logging remove_handlers
reconfigure_logging-Replaces opens connects path level wanted configured old =
    let n = level_int level configured in
    let first = add_handler stream n (remove_handlers old) in
    let second = add_file opens path n first in
    let third = add_remote connects wanted n second in
    let (kept, level_kept) =
      quiet_asyncio-Replaces n old (record third { level = n })
        (add_remote-Replaces connects wanted n old second
          (add_file-Replaces opens path n old first ((refl, tt), refl, ([], refl))))
        refl in
    (
      level_number-valid_level (uppercase (or_else level (or_else configured "WARNING"))),
      kept,
      level_kept,
    )
