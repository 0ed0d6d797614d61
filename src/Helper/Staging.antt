-- ===== src/Helper/Staging.antt =====
-- helpers/__init__.py, `StagingFile`: a log is written under another name and then renamed.
pub mod Published
use steamos_log_submitter.Base.{
  ℕ, String, ◌<>◌, Bool, true, false, not, List, [], ◌∷◌, ◌++◌, Option, none, some, Result, ok,
  raise, file_not_found, Exc, Text, codes, text_eq, nat_eq, if◌then◌else◌, ◌≡◌, refl, ap, ◌∙◌,
  arith, text_eq_refl, eq_of_text_eq, Bool-cases, inl, inr,
}
use steamos_log_submitter.Helper.Names.{filter_log}

-- The files of one helper's `pending`, by name.
abbrev pub Pending : Type 0
Pending = List (Text × List ℕ)

unfoldable pub content_of : Text → Pending → Option (List ℕ)
content_of name [] = none
content_of name ((n, content) ∷ files) =
    if text_eq n name then some content else content_of name files

unfoldable pub without : Text → Pending → Pending
without name [] = []
without name ((n, content) ∷ files) =
    let rest = without name files in if text_eq n name then rest else (n, content) ∷ rest

pub record StagingFile : Type 0 where
  pub final_name : Text
  pub temp_name : Text

-- `__init__`; `random` is what tempfile puts behind the prefix, and the name is not taken.
unfoldable pub stage : Text → Text → Pending → StagingFile × Pending
stage name random files =
    let temp = codes ".staging-" ++ random in
    (record { final_name = name; temp_name = temp }, (temp, []) ∷ files)

-- `write`, which appends to the file
unfoldable pub append : StagingFile → List ℕ → Pending → Pending
append f bytes [] = []
append f bytes ((n, content) ∷ files) =
    if text_eq n f.temp_name
    then (n, content ++ bytes) ∷ files
    else (n, content) ∷ append f bytes files

-- os.rename(self.name, self._final_name)
abbrev pub renamed : Text → Option (List ℕ) → Pending → Result (Unit {0}) × Pending
renamed final none files = (raise file_not_found, files)
renamed final (some content) files = (ok tt, (final, content) ∷ without final files)

-- `close`; `chown` is what `shutil.chown` comes to, called if the effective user is root.
abbrev pub chowned : Bool → Result (Unit {0}) → Result (Unit {0})
chowned root chown = if root then chown else ok tt

abbrev pub closed : StagingFile → Result (Unit {0}) → Pending → Result (Unit {0}) × Pending
closed f (raise e) files = (raise e, files)
closed f (ok _) files =
    renamed f.final_name (content_of f.temp_name files) (without f.temp_name files)

unfoldable pub close :
    Bool → Result (Unit {0}) → StagingFile → Pending → Result (Unit {0}) × Pending
close root chown f files = closed f (chowned root chown) files

-- `__exit__`: the file is closed also after an exception, which goes on.
abbrev pub exit_value : Bool → Result (Unit {0}) × Pending → Result Bool × Pending
exit_value raised (ok _, files) = (ok (not raised), files)
exit_value raised (raise e, files) = (raise e, files)

unfoldable pub exit :
    Bool → Result (Unit {0}) → StagingFile → Bool → Pending → Result Bool × Pending
exit root chown f raised files = exit_value raised (close root chown f files)
