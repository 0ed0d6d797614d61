-- ===== src/Helper/Staging/Published.antt =====
-- A staged log is seen only when it is whole.
use steamos_log_submitter.Base.{
  ℕ, Bool, true, false, List, [], ◌∷◌, ◌++◌, none, some, ok, Text, codes, text_eq_refl, ◌≡◌, refl,
  sym, ap, ◌∙◌, arith,
}
use mathlib.Core.List.{append_assoc, append-nil}
use steamos_log_submitter.Helper.Names.{filter_log}
use steamos_log_submitter.Helper.Staging.{
  Pending, content_of, without, StagingFile, stage, append, close,
}

-- Several writes, and all that they write.
abbrev pub appends : StagingFile → List (List ℕ) → Pending → Pending
appends f [] files = files
appends f (bytes ∷ more) files = appends f more (append f bytes files)

abbrev pub whole : List (List ℕ) → List ℕ
whole [] = []
whole (bytes ∷ more) = bytes ++ whole more

append_head :
    (f : StagingFile) (bytes content : List ℕ) (files : Pending)
    → append f bytes ((f.temp_name, content) ∷ files) ≡ (f.temp_name, content ++ bytes) ∷ files
unfolding append
append_head f bytes content files = rw (text_eq_refl f.temp_name) refl

appends_head :
    (f : StagingFile) (chunks : List (List ℕ)) (content : List ℕ) (files : Pending)
    → appends f chunks ((f.temp_name, content) ∷ files)
      ≡ (f.temp_name, content ++ whole chunks) ∷ files
appends_head f [] content files = ap (λ c. (f.temp_name, c) ∷ files) (sym (append-nil content))
appends_head f (bytes ∷ more) content files =
    ap (appends f more) (append_head f bytes content files)
    ∙ appends_head f more (content ++ bytes) files
    ∙ ap (λ c. (f.temp_name, c) ∷ files) (append_assoc content bytes (whole more))

without_absent :
    (name : Text) (files : Pending) → content_of name files ≡ none → without name files ≡ files
unfolding content_of without
without_absent name [] h = refl
without_absent name ((n, content) ∷ files) h = ground (arith, without_absent name files)

without_head :
    (name : Text) (content : List ℕ) (files : Pending)
    → content_of name files ≡ none
    → without name ((name, content) ∷ files) ≡ files
unfolding without
without_head name content files h = rw (text_eq_refl name) (without_absent name files h)

content_of_head :
    (name : Text) (content : List ℕ) (files : Pending)
    → content_of name ((name, content) ∷ files) ≡ some content
unfolding content_of
content_of_head name content files = rw (text_eq_refl name) refl

close_head :
    (root : Bool) (f : StagingFile) (content : List ℕ) (files : Pending)
    → content_of f.temp_name files ≡ none
    → close root (ok tt) f ((f.temp_name, content) ∷ files)
      ≡ (ok tt, (f.final_name, content) ∷ without f.final_name files)
unfolding close
close_head true f content files h =
    rw (content_of_head f.temp_name content files, without_head f.temp_name content files h) refl
close_head false f content files h =
    rw (content_of_head f.temp_name content files, without_head f.temp_name content files h) refl

-- The name under which a log is written is no log for any helper, so nothing lists it while it is
-- written; when the file is closed, all that was written is there under the final name, in place of a
-- file that had it, every other file is as it was before, and the name of the writing is gone. That
-- name was not taken, and `shutil.chown`, if it is called, succeeds.
pub close-stage :
    (extensions : List Text) (root : Bool) (name random : Text) (chunks : List (List ℕ))
    (files : Pending)
    → content_of (codes ".staging-" ++ random) files ≡ none
    → let staged = stage name random files in
      (filter_log extensions staged.0.temp_name ≡ false)
      × (close root (ok tt) staged.0 (appends staged.0 chunks staged.1)
          ≡ (ok tt, (name, whole chunks) ∷ without name files))
unfolding stage filter_log
close-stage extensions root name random chunks files h =
    let f : StagingFile = record { final_name = name; temp_name = codes ".staging-" ++ random } in
    (
      refl,
      ap (close root (ok tt) f) (appends_head f chunks [] files)
          ∙ close_head root f (whole chunks) files h,
    )
