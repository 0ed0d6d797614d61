-- ===== src/Spool.antt =====
-- The directories of one helper below the base directory: `pending`, `uploaded` and `failed`
-- (steamos_log_submitter/__init__.py names them), and `os.replace` between them.
pub mod Moves
use steamos_log_submitter.Base.{
  ℕ, String, Bool, List, none, some, ◌&&◌, Result, ok, raise, file_not_found, os_error,
  if◌then◌else◌,
}
use steamos_log_submitter.Base.Dict.{Dict, lookup, insert, remove}

pub data Area : Type 0 where
  pending uploaded failed : Area

-- The bytes of each file, by name.
abbrev pub Files : Type 0
Files = Dict (List ℕ)

-- `writable` tells of each directory whether it is there and the process may change it.
pub record Spool : Type 0 where
  pub pending_files : Files
  pub uploaded_files : Files
  pub failed_files : Files
  pub writable : Area → Bool

abbrev pub files : Area → Spool → Files
files pending s = s.pending_files
files uploaded s = s.uploaded_files
files failed s = s.failed_files

abbrev pub with_files : Area → Files → Spool → Spool
with_files pending fs s = record s { pending_files = fs }
with_files uploaded fs s = record s { uploaded_files = fs }
with_files failed fs s = record s { failed_files = fs }

-- os.replace(f'{src}/{helper}/{name}', f'{dst}/{helper}/{name}')
unfoldable pub replace : Area → Area → String → Spool → Result (Unit {0}) × Spool
replace src dst name s = elim (lookup name (files src s)) [
  | none ↦ (raise file_not_found, s)
  | some content ↦
      if s.writable src && s.writable dst
      then (
        ok tt,
        with_files dst (insert name content (files dst s))
            (with_files src (remove name (files src s)) s),
      )
      else (raise os_error, s)
]
