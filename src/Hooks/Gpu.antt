-- ===== src/Hooks/Gpu.antt =====
-- hooks/gpu.py: what is gathered when the GPU is reset.
use steamos_log_submitter.Base.{
  ℕ, zero, suc, String, ◌<>◌, Bool, false, ◌||◌, List, [], ◌∷◌, Option, none, some, ◌≡◌, refl, ◌==◌,
  starts_with, if◌then◌else◌, All,
}
use steamos_log_submitter.Base.Dict.{Dict}

-- The variables `pid` and `pci_path` in the loop over the environment. `int` gives none for a
-- ValueError, `drop` is `val[4:]`.
module _ (int : String → Option ℕ) (drop : String → String) where
  abbrev pub read_pid : String → String → Option ℕ → Option ℕ
  read_pid key val pid =
      if key == "PID" then elim (int val) [ none ↦ pid | some n ↦ some n ] else pid

  abbrev pub read_pci : String → String → Option String → Option String
  read_pci key val pci =
      if key == "ID_PATH" then (if starts_with val "pci-" then some (drop val) else pci) else pci

  unfoldable pub scan_env : Dict String → Option ℕ → Option String → Option ℕ × Option String
  scan_env [] pid pci = (pid, pci)
  scan_env ((key, val) ∷ env) pid pci = scan_env env (read_pid key val pid) (read_pci key val pci)

-- A process as `/proc/*/comm` shows it: its name, if that can be read, and its number.
pub record Process : Type 0 where
  pub comm : Option String
  pub number : Option ℕ

-- `get_appid`, and the name of a process without trailing blanks
module _ (get_appid : ℕ → Option ℕ) (rstrip : String → String) where
  abbrev pub is_reaper : Option String → Bool
  is_reaper none = false
  is_reaper (some comm) = rstrip comm == "reaper"

  abbrev pub found : Option ℕ → ℕ → Option ℕ × Option ℕ → Option ℕ × Option ℕ
  found none pid later = later
  found (some appid) pid later = (some pid, some appid)

  -- The search for a reaper with an app id; `pid` is the last reaper seen.
  unfoldable pub find_app : List Process → Option ℕ → Option ℕ × Option ℕ
  find_app [] pid = (pid, none)
  find_app (p ∷ processes) pid =
      let skip = find_app processes pid in
      elim p.number [
        | none ↦ skip
        | some n ↦
            let later = find_app processes (some n) in
            if is_reaper p.comm then found (get_appid n) n later else skip
      ]

  -- `pid` and the app id that is logged
  unfoldable pub pid_and_app : Option ℕ → List Process → Option ℕ × Option ℕ
  pid_and_app none processes = find_app processes none
  pid_and_app (some zero) processes = find_app processes (some zero)
  pid_and_app (some (suc n)) processes = (some (suc n), get_appid (suc n))

-- The kernel's messages that are kept. `in_text context message` is Python's `context in message`.
module _ (in_text : String → String → Bool) where
  abbrev pub is_relevant : String → Bool
  is_relevant message =
      in_text "amdgpu" message
      || (in_text "drm" message || (in_text "i915" message || in_text "nouveau" message))

  unfoldable pub relevant : List String → List String
  relevant [] = []
  relevant (m ∷ messages) = let rest = relevant messages in if is_relevant m then m ∷ rest else rest

-- An entry of `/sys/class/devcoredump`: the absolute path of its failing device, if the link can be
-- read, and whether its data can be opened.
pub record Dump : Type 0 where
  pub path : String
  pub failing_dev : Option String
  pub readable : Bool

-- The variables `devcd`, the dump that goes into the archive, and `devcd_path`, the one that is
-- cleared at the end.
abbrev pub Chosen : Type 0
Chosen = Option String × Option String

abbrev pub visit_linked : String → Dump → String → Chosen → Chosen
visit_linked devpath d dev (devcd, devcd_path) =
    if starts_with devpath dev
    then (if d.readable then (some d.path, some d.path) else (devcd, devcd_path))
    else (devcd, some d.path)

abbrev pub visit : String → Dump → Option String → Chosen → Chosen
visit devpath d none chosen = chosen
visit devpath d (some dev) chosen = visit_linked devpath d dev chosen

unfoldable pub choose : String → List Dump → Chosen → Chosen
choose devpath [] chosen = chosen
choose devpath (d ∷ dumps) chosen = choose devpath dumps (visit devpath d d.failing_dev chosen)

-- `devcd` and `devcd_path` after the loop, if the environment has DEVPATH
unfoldable pub choose_dump : Option String → List Dump → Chosen
choose_dump none dumps = (none, none)
choose_dump (some devpath) dumps = choose ("/sys" <> devpath) dumps (none, none)

-- The dump of a device that the reset is not about.
abbrev pub IsForeign : String → Dump → Type 0
IsForeign devpath d =
    (dev : String) × (d.failing_dev ≡ some dev) × (starts_with ("/sys" <> devpath) dev ≡ false)

abbrev last_path : Dump → List Dump → String
last_path d [] = d.path
last_path d (e ∷ dumps) = last_path e dumps

choose_foreign :
    (devpath : String) (d : Dump) (dumps : List Dump) (old : Option String)
    → All (IsForeign devpath) (d ∷ dumps)
    → choose ("/sys" <> devpath) (d ∷ dumps) (none, old) ≡ (none, some (last_path d dumps))
unfolding choose
choose_foreign devpath d [] old ((dev, linked, apart), rest) = rw (linked, apart) refl
choose_foreign devpath d (e ∷ dumps) old ((dev, linked, apart), rest) =
    rw (linked, apart) (choose_foreign devpath e dumps (some d.path) rest)

-- Every dump that the kernel holds is of a device that the reset is not about. Then none goes into
-- the archive, and the hook clears the last of them all the same: its data is lost.
pub choose_dump_foreign :
    (devpath : String) (d : Dump) (dumps : List Dump)
    → All (IsForeign devpath) (d ∷ dumps)
    → choose_dump (some devpath) (d ∷ dumps) ≡ (none, some (last_path d dumps))
unfolding choose_dump
choose_dump_foreign devpath d dumps h = choose_foreign devpath d dumps none h
