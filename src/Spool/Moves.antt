-- ===== src/Spool/Moves.antt =====
-- What `os.replace` does to the file it names and to the others.
use steamos_log_submitter.Base.{
  ℕ, String, false, List, Option, none, some, ◌≡◌, ◌⊎◌, arith, eq_iff, ◌==◌, ok, raise, Exc,
  Option-cases, inl, inr, Bool-cases, ◌&&◌, file_not_found, os_error,
}
use steamos_log_submitter.Base.Dict.{lookup, insert, remove, lookup-insert, lookup-remove}
use text.Mathlib.TextPositions.{eq_refl}
use steamos_log_submitter.Spool.{Spool, Area, pending, uploaded, failed, files, with_files, replace}

-- The file `name` of the directory, if it is there.
abbrev pub at : Area → String → Spool → Option (List ℕ)
at a name s = lookup name (files a s)

-- What each directory holds under the name: pending, uploaded, failed.
abbrev pub Places : Type 0
Places = Option (List ℕ) × Option (List ℕ) × Option (List ℕ)

abbrev pub places : String → Spool → Places
places name s = (at pending name s, at uploaded name s, at failed name s)

-- The content lies under this name in one directory, and in `pending` nothing else does.
abbrev pub Kept : String → List ℕ → Spool → Type 0
Kept name content s =
    (at pending name s ≡ some content)
    ⊎ ((at pending name s ≡ none)
        × ((at uploaded name s ≡ some content) ⊎ (at failed name s ≡ some content)))

module _ (log name : String) (s : Spool) where
  pub replace-uploaded-Kept :
      (content : List ℕ)
      → Kept name content s
      → Kept name content (replace pending uploaded log s).1
  unfolding replace
  replace-uploaded-Kept content h = grind (arith, lookup-insert, lookup-remove, eq_iff)

  pub replace-failed-Kept :
      (content : List ℕ) → Kept name content s → Kept name content (replace pending failed log s).1
  unfolding replace
  replace-failed-Kept content h = grind (arith, lookup-insert, lookup-remove, eq_iff)

  -- A file of another name stays where it is.
  pub places-replace-uploaded :
      (log == name) ≡ false → places name (replace pending uploaded log s).1 ≡ places name s
  unfolding replace
  places-replace-uploaded h = grind (arith, lookup-insert, lookup-remove, h)

  pub places-replace-failed :
      (log == name) ≡ false → places name (replace pending failed log s).1 ≡ places name s
  unfolding replace
  places-replace-failed h = grind (arith, lookup-insert, lookup-remove, h)

module _ (log : String) (s : Spool) where
  -- A move fails and changes nothing, or takes the file from `pending` to its new place.
  abbrev Moves : Area → (List ℕ → Places) → Type 0
  Moves dst moved =
      ((e : Exc) × (replace pending dst log s ≡ (raise e, s)))
      ⊎ ((content : List ℕ) × (t : Spool) × (at pending log s ≡ some content)
          × (replace pending dst log s ≡ (ok tt, t))
          × (places log t ≡ moved content))

  pub replace-uploaded_cases : Moves uploaded (λ content. (none, some content, at failed log s))
  unfolding replace
  replace-uploaded_cases = elim (Option-cases (lookup log s.pending_files)) [
    | inl absent ↦ inl (file_not_found, rw (absent, replace))
    | inr (content, found) ↦ elim (Bool-cases (s.writable pending && s.writable uploaded)) [
      | inl may ↦ inr (
        content,
        with_files uploaded (insert log content s.uploaded_files)
            (with_files pending (remove log s.pending_files) s),
        found,
        rw (found, may, replace),
        (simp (lookup-remove, lookup-insert, eq_refl)),
      )
      | inr may_not ↦ inl (os_error, rw (found, may_not, replace))
    ]
  ]

  pub replace-failed_cases : Moves failed (λ content. (none, at uploaded log s, some content))
  unfolding replace
  replace-failed_cases = elim (Option-cases (lookup log s.pending_files)) [
    | inl absent ↦ inl (file_not_found, rw (absent, replace))
    | inr (content, found) ↦ elim (Bool-cases (s.writable pending && s.writable failed)) [
      | inl may ↦ inr (
        content,
        with_files failed (insert log content s.failed_files)
            (with_files pending (remove log s.pending_files) s),
        found,
        rw (found, may, replace),
        (simp (lookup-remove, lookup-insert, eq_refl)),
      )
      | inr may_not ↦ inl (os_error, rw (found, may_not, replace))
    ]
  ]
