-- ===== src/Sysinfo/Mounts/Listed.antt =====
-- Which mounts are listed, and as what.
use steamos_log_submitter.Base.{
  ℕ, Bool, true, false, List, [], ◌∷◌, ◌++◌, map, Option, none, some, Text, codes, begins_with,
  begins_with-append, begins_with-rest, ends_with, ends_with-append, ends_with-rest, text_eq,
  text_eq_refl, eq_of_text_eq, Result, ok, raise, ◌≡◌, ◌⊎◌, inl, inr, refl, sym, ap, ◌∙◌, arith,
  Bool-cases,
}
use mathlib.Core.Bool.{false≢true}
use steamos_log_submitter.Util.Case.{lower}
use steamos_log_submitter.Sysinfo.Mounts.{
  Mount, node, is_logged, resized, of_device, size_or, is_skipped, mounts, filesystems,
}

-- Asking for the size of a device fails in no way that is not caught.
abbrev pub IsHandled : Result ℕ → Type 0
IsHandled (ok n) = Unit
IsHandled (raise e) = is_logged e ≡ true

-- A portal, or a type that ends with `.appimage` in whatever case.
abbrev pub IsUnwanted : Text → Type 0
IsUnwanted fstype =
    (fstype ≡ codes "fuse.portal")
    ⊎ ((name : Text) × (map lower fstype ≡ name ++ codes ".appimage"))

-- The size that is told, or none.
abbrev pub Told : Result ℕ → Option ℕ → Type 0
Told (ok n) size = size ≡ some n
Told (raise e) size = size ≡ none

module _ {Others : Type 0} (block_size : Text → Result ℕ) where
  -- What the size of a listed mount is: as it was, or that of the device in `/dev`.
  abbrev pub SizeOf : Mount Others → Option ℕ → Type 0
  SizeOf old size =
      ((n : ℕ) × (old.size ≡ some n) × (size ≡ some n))
      ⊎ ((device : Text) × (old.size ≡ none)
          × (old.source ≡ codes "/dev/" ++ device)
          × Told (block_size device) size)
      ⊎ (old.size ≡ none)
        × ((device : Text) → ¬ (old.source ≡ codes "/dev/" ++ device))
        × (size ≡ none)

  abbrev pub Sized : Mount Others → Mount Others → Type 0
  Sized old new =
      (new.fstype ≡ old.fstype)
      × (new.source ≡ old.source)
      × (new.others ≡ old.others)
      × SizeOf old new.size

  -- The listed mounts, from those of findmnt.
  abbrev pub AllSized : List (Mount Others) → List (Mount Others) → Type 0
  AllSized [] news = news ≡ []
  AllSized (old ∷ olds) news =
      IsUnwanted old.fstype × AllSized olds news
      ⊎ (¬ IsUnwanted old.fstype)
        × ((new : Mount Others) × (rest : List (Mount Others)) × (news ≡ new ∷ rest)
            × Sized old new
            × AllSized olds rest)

  is_skipped-IsUnwanted :
      (fs : Mount Others) → is_skipped block_size fs ≡ true → IsUnwanted fs.fstype
  unfolding is_skipped
  is_skipped-IsUnwanted fs h =
      elim (Bool-cases (ends_with (map lower fs.fstype) (codes ".appimage"))) [
        | inl image ↦ inr (ends_with-rest (map lower fs.fstype) (codes ".appimage") image)
        | inr no_image ↦ inl (eq_of_text_eq fs.fstype (codes "fuse.portal") (ground arith))
      ]

  is_skipped-wanted :
      (fs : Mount Others) → is_skipped block_size fs ≡ false → ¬ IsUnwanted fs.fstype
  unfolding is_skipped
  is_skipped-wanted fs h (inl portal) =
      let same : text_eq fs.fstype (codes "fuse.portal") ≡ true =
        ap (λ s. text_eq s (codes "fuse.portal")) portal ∙ text_eq_refl (codes "fuse.portal") in
      ground arith
  is_skipped-wanted fs h (inr (name, image)) =
      let ends : ends_with (map lower fs.fstype) (codes ".appimage") ≡ true =
        ap (λ s. ends_with s (codes ".appimage")) image
        ∙ ends_with-append name (codes ".appimage") in
      ground arith

  resized-Sized :
      (fs : Mount Others) (device : Text) (r : Result ℕ)
      → fs.size ≡ none
      → fs.source ≡ codes "/dev/" ++ device
      → block_size device ≡ r
      → IsHandled r
      → (new : Mount Others) × (resized block_size fs r ≡ ok new) × Sized fs new
  resized-Sized fs device (ok n) unknown at is h = (
    record fs { size = some n },
    refl,
    (refl, refl, refl, inr (inl (device, unknown, at, rw is refl))),
  )
  resized-Sized fs device (raise e) unknown at is h =
      (fs, rw h refl, (refl, refl, refl, inr (inl (device, unknown, at, rw is unknown))))

  of_device-Sized :
      (dev : Bool) (fs : Mount Others)
      → begins_with fs.source (codes "/dev/") ≡ dev
      → fs.size ≡ none
      → ((device : Text) → IsHandled (block_size device))
      → (new : Mount Others) × (of_device block_size dev fs ≡ ok new) × Sized fs new
  of_device-Sized true fs begins unknown h =
      let (device, at) = begins_with-rest fs.source (codes "/dev/") begins in
      let named : device ≡ node fs.source = sym (ap node at) in
      resized-Sized fs (node fs.source) (block_size (node fs.source)) unknown
        (at ∙ ap (λ d. codes "/dev/" ++ d) named) refl (h (node fs.source))
  of_device-Sized false fs begins unknown h = (
    fs,
    refl,
    (
      refl,
      refl,
      refl,
      inr (
          inr (
            unknown,
            λ device at. false≢true (
                sym begins
                ∙ ap (λ s. begins_with s (codes "/dev/")) at
                ∙ begins_with-append (codes "/dev/") device),
            unknown,
          )),
    ),
  )

  size_or-Sized :
      (size : Option ℕ) (fs : Mount Others)
      → fs.size ≡ size
      → ((device : Text) → IsHandled (block_size device))
      → (new : Mount Others) × (size_or block_size size fs ≡ ok new) × Sized fs new
  size_or-Sized (some n) fs known h = (fs, refl, (refl, refl, refl, inl (n, known, known)))
  size_or-Sized none fs unknown h =
      of_device-Sized (begins_with fs.source (codes "/dev/")) fs refl unknown h

  mounts-AllSized :
      (listed : List (Mount Others))
      → ((device : Text) → IsHandled (block_size device))
      → (news : List (Mount Others)) × (mounts block_size listed ≡ ok news) × AllSized listed news
  unfolding mounts
  mounts-AllSized [] h = ([], refl, refl)
  mounts-AllSized (fs ∷ rest) h =
      let (news, is, sized) = mounts-AllSized rest h in
      elim (Bool-cases (is_skipped block_size fs)) [
        | inl skipped ↦
            (news, rw (skipped, mounts) is, inl (is_skipped-IsUnwanted fs skipped, sized))
        | inr listed ↦
            let (new, added, one) = size_or-Sized fs.size fs refl h in
            (
              new ∷ news,
              rw (listed, mounts) (rw (added, is) refl),
              inr (is_skipped-wanted fs listed, (new, news, refl, one, sized)),
            )
      ]

  -- Where asking for the size of a block device gives a size or fails with an exception that is
  -- caught: the mounts that are listed are those of findmnt in its order, without the ones whose
  -- type ends with `.appimage` in any case or is `fuse.portal`. Each has its fields as findmnt gave
  -- them, but for a size that was unknown: for a source in `/dev` that is the size of the block
  -- device, or unknown where asking for it fails, and for any other source it is unknown still.
  pub filesystems-AllSized :
      (listed : List (Mount Others))
      → ((device : Text) → IsHandled (block_size device))
      → (news : List (Mount Others)) × (filesystems block_size (some listed) ≡ ok (some news))
        × AllSized listed news
  unfolding filesystems
  filesystems-AllSized listed h =
      let (news, is, sized) = mounts-AllSized listed h in (news, rw (is, filesystems) refl, sized)
