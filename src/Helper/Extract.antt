-- ===== src/Helper/Extract.antt =====
-- `HelperInterface.Extract`: opening a log for a client.
use steamos_log_submitter.Base.{
  ℕ, Bool, true, false, ◌||◌, List, [], ◌∷◌, Option, none, some, Result, ok, raise, file_not_found,
  other, Exc, Text, codes, text_eq, has_part, if◌then◌else◌, ◌≡◌, refl, Bool-cases, inl, inr, ◌⊎◌,
  sym, ◌∙◌, ◌≢◌,
}
use steamos_log_submitter.Spool.{Area, pending, uploaded, failed}
use steamos_log_submitter.Helper.Names.{begins}

-- `extract_path` on what `os.open` of the path comes to; a descriptor is a number.
unfoldable pub extract_path : Result ℕ → Result (Option ℕ)
extract_path (ok fd) = ok (some fd)
extract_path (raise file_not_found) = ok none
extract_path (raise e) = raise e

abbrev pub area_name : Area → Text
area_name pending = codes "pending"
area_name failed = codes "failed"
area_name uploaded = codes "uploaded"

-- `not type or type == 'pending'` and the like
abbrev pub wanted : Text → Area → Bool
wanted [] area = true
wanted (c ∷ s) area = text_eq (c ∷ s) (area_name area)

abbrev pub or_next : Result (Option ℕ) → Result ℕ → Result ℕ
or_next (ok (some fd)) next = ok fd
or_next (ok none) next = next
or_next (raise e) next = raise e

or_false : (b c : Bool) → (b || c) ≡ false → (b ≡ false) × (c ≡ false)
or_false false c h = (refl, h)
or_false true c h = cc

raise-≢-ok : {e : Exc} {fd : ℕ} → raise e ≢ ok fd
raise-≢-ok h = cc

-- `os_open` is `os.open` of a file name in a directory of the helper.
module _ (os_open : Area → Text → Result ℕ) where
  unfoldable pub search : Text → Text → List Area → Result ℕ
  search filename type [] = raise (other "PermanentError")
  search filename type (area ∷ areas) =
      let next = search filename type areas in
      if wanted type area then or_next (extract_path (os_open area filename)) next else next

  unfoldable pub extract : Text → Text → Result ℕ
  extract [] type = raise (other "IndexError")
  extract (c ∷ name) type =
      if begins b'.' (c ∷ name) || has_part (c ∷ name) (codes "..")
      then raise (other "PermanentError")
      else search (c ∷ name) type (pending ∷ failed ∷ uploaded ∷ [])

  -- The first of the directories in the list that is asked for and has the file gives the descriptor.
  abbrev pub Finds : Text → Text → ℕ → List Area → Type 0
  Finds filename type fd [] = ⊥
  Finds filename type fd (area ∷ areas) =
      ((wanted type area ≡ true) × (os_open area filename ≡ ok fd))
      ⊎ (((wanted type area ≡ false) ⊎ (os_open area filename ≡ raise file_not_found))
          × Finds filename type fd areas)

  search_skip :
      (filename type : Text) (area : Area) (areas : List Area)
      → wanted type area ≡ false
      → search filename type (area ∷ areas) ≡ search filename type areas
  unfolding search
  search_skip filename type area areas h = rw h refl

  search_try :
      (filename type : Text) (area : Area) (areas : List Area)
      → wanted type area ≡ true
      → search filename type (area ∷ areas)
        ≡ or_next (extract_path (os_open area filename)) (search filename type areas)
  unfolding search
  search_try filename type area areas h = rw h refl

  or_next-Finds :
      (r : Result ℕ) (next : Result ℕ) (fd : ℕ)
      → or_next (extract_path r) next ≡ ok fd
      → (r ≡ ok fd) ⊎ ((r ≡ raise file_not_found) × (next ≡ ok fd))
  unfolding extract_path
  or_next-Finds (ok n) next fd h = inl h
  or_next-Finds (raise file_not_found) next fd h = inr (refl, h)
  or_next-Finds (raise _) next fd h = cc

  search-Finds :
      (filename type : Text) (fd : ℕ) (areas : List Area)
      → search filename type areas ≡ ok fd
      → Finds filename type fd areas
  unfolding search
  search-Finds filename type fd [] h = cc
  search-Finds filename type fd (area ∷ areas) h = elim (Bool-cases (wanted type area)) [
    | inr skip ↦ inr (
      inl skip,
      search-Finds filename type fd areas (sym (search_skip filename type area areas skip) ∙ h),
    )
    | inl try ↦
        elim (or_next-Finds (os_open area filename) (search filename type areas) fd
          (sym (search_try filename type area areas try) ∙ h)) [
            | inl found ↦ inl (try, found)
            | inr (missing, later) ↦ inr (inr missing, search-Finds filename type fd areas later)
          ]
  ]

  extract_refused :
      (c : ℕ) (name type : Text)
      → (begins b'.' (c ∷ name) || has_part (c ∷ name) (codes "..")) ≡ true
      → extract (c ∷ name) type ≡ raise (other "PermanentError")
  unfolding extract
  extract_refused c name type h = rw h refl

  extract_searches :
      (c : ℕ) (name type : Text)
      → (begins b'.' (c ∷ name) || has_part (c ∷ name) (codes "..")) ≡ false
      → extract (c ∷ name) type ≡ search (c ∷ name) type (pending ∷ failed ∷ uploaded ∷ [])
  unfolding extract
  extract_searches c name type h = rw h refl

  -- A descriptor that a client gets is of a file whose name neither begins with a dot nor has `..`
  -- in it, and comes from the first of `pending`, `failed` and `uploaded` that the client asked for
  -- and that has the file.
  pub extract-Finds :
      (filename type : Text) (fd : ℕ)
      → extract filename type ≡ ok fd
      → (begins b'.' filename ≡ false)
        × (has_part filename (codes "..") ≡ false)
        × Finds filename type fd (pending ∷ failed ∷ uploaded ∷ [])
  unfolding extract
  extract-Finds [] type fd h = cc
  extract-Finds (c ∷ name) type fd h =
      elim (Bool-cases (begins b'.' (c ∷ name) || has_part (c ∷ name) (codes ".."))) [
        | inl bad ↦ absurd (raise-≢-ok (sym (extract_refused c name type bad) ∙ h))
        | inr good ↦ (
          (or_false (begins b'.' (c ∷ name)) (has_part (c ∷ name) (codes "..")) good).0,
          (or_false (begins b'.' (c ∷ name)) (has_part (c ∷ name) (codes "..")) good).1,
          search-Finds (c ∷ name) type fd (pending ∷ failed ∷ uploaded ∷ [])
              (sym (extract_searches c name type good) ∙ h),
        )
      ]
