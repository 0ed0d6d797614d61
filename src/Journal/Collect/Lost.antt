-- ===== src/Journal/Collect/Lost.antt =====
-- What becomes of entries that could not be written.
use steamos_log_submitter.Base.{
  String, ◌<>◌, Bool, true, false, List, [], ◌∷◌, Option, none, some, Result, ok, sym,
  if◌then◌else◌, Text, ◌≡◌, refl, ap, ◌∙◌, arith,
}
use mathlib.Core.Path.{subst}
use text.Mathlib.TextPositions.{eq_refl}
use steamos_log_submitter.Base.Dict.{lookup, lookup-insert}
use steamos_log_submitter.Util.Read.{command, read_lines}
use steamos_log_submitter.Util.Read
use steamos_log_submitter.Journal.Units.{Log, Results, read_journal, read_journal_loop}
use steamos_log_submitter.Journal.Collect.{
  Journals, cursor_of, cursor_at, write_invocation, log_name, write_all, set_cursor, file_unit,
  read_unit, keep_results, collect_unit, kept_of, unit_query,
}

write_invocation_refused :
    (name : String) (new_logs : List Log) (j : Journals)
    → ((n : String) → j.writable n ≡ false)
    → write_invocation name new_logs j ≡ j
unfolding write_invocation
write_invocation_refused name new_logs j h = ground (arith, h name)

write_all_refused :
    (unit : String) (results : Results) (j : Journals)
    → ((n : String) → j.writable n ≡ false)
    → write_all unit results j ≡ j
unfolding write_all
write_all_refused unit [] j h = refl
write_all_refused unit ((invocation, new_logs) ∷ results) j h =
    ap (write_all unit results) (write_invocation_refused (log_name unit invocation) new_logs j h)
    ∙ write_all_refused unit results j h

module _ (of_codes : Text → String) (journalctl : List String → Result (List Log)) where
  collect_unit_refused :
      (user : Bool) (unit : String) (invocations : List String) (j : Journals)
      (x : String × List Log) (results : Results) (cursor : Option String)
      → ((n : String) → j.writable n ≡ false)
      → read_unit of_codes journalctl user unit invocations
          (cursor_at (file_unit of_codes journalctl user unit <> ".cursor") j.cursors)
        ≡ ok (x ∷ results, cursor)
      → collect_unit of_codes journalctl user unit invocations j
        ≡ (ok tt, set_cursor (file_unit of_codes journalctl user unit <> ".cursor") cursor j)
  unfolding collect_unit keep_results
  collect_unit_refused user unit invocations j x results cursor h k =
      rw (k, collect_unit)
        (ap
          (λ t. (ok tt, set_cursor (file_unit of_codes journalctl user unit <> ".cursor") cursor t))
          (write_all_refused (file_unit of_codes journalctl user unit) (x ∷ results) j h))

  abbrev pub cursor_key : Bool → String → String
  cursor_key user unit = file_unit of_codes journalctl user unit <> ".cursor"

  cursor_at-set_cursor :
      (name : String) (c : Option String) (j : Journals)
      → cursor_at name (set_cursor name c j).cursors ≡ c
  cursor_at-set_cursor name c j = ap cursor_of (
      lookup-insert name name c j.cursors
      ∙ ap (λ b. if b then some c else lookup name j.cursors) (eq_refl name))

  read_unit-quiet :
      (user : Bool) (unit : String) (invocations : List String) (c : String)
      → journalctl (command (unit_query user unit (some c))) ≡ ok []
      → read_unit of_codes journalctl user unit invocations (some c) ≡ ok ([], none)
  unfolding read_unit Read.read_journal read_lines read_journal read_journal_loop
  read_unit-quiet user unit invocations c quiet = rw (quiet, read_unit, Read.read_journal) refl

  -- A collection that finds nothing new changes nothing.
  collect_unit-quiet :
      (user : Bool) (unit : String) (invocations : List String) (c : String) (j : Journals)
      → cursor_at (cursor_key user unit) j.cursors ≡ some c
      → journalctl (command (unit_query user unit (some c))) ≡ ok []
      → collect_unit of_codes journalctl user unit invocations j ≡ (ok tt, j)
  unfolding collect_unit keep_results
  collect_unit-quiet user unit invocations c j at quiet =
      ap (kept_of of_codes journalctl (file_unit of_codes journalctl user unit) j) (
        ap (read_unit of_codes journalctl user unit invocations) at
        ∙ read_unit-quiet user unit invocations c quiet)

  abbrev pub all_writable : Journals → Journals
  all_writable j = record j { writable = λ name. true }

  -- After a collection: no error, the files are as they were, and the next collection changes nothing
  -- although every file can be written again.
  abbrev pub Lost : Bool → String → List String → Journals → Result (Unit {0}) × Journals → Type 0
  Lost user unit invocations old (r, new) =
      (r ≡ ok tt)
      × (new.files ≡ old.files)
      × (collect_unit of_codes journalctl user unit invocations (all_writable new)
          ≡ (ok tt, all_writable new))

  -- New entries of a failed unit are read, up to the cursor `c`, behind which journalctl prints nothing
  -- more, and no pending file can be written. Then the collection sees no error and the files stay
  -- as they were; and the next collection, with every file writable, writes nothing either, so the
  -- entries are lost.
  pub collect_unit_loses :
      (user : Bool) (unit : String) (invocations : List String) (j : Journals)
      (x : String × List Log) (results : Results) (c : String)
      → ((n : String) → j.writable n ≡ false)
      → read_unit of_codes journalctl user unit invocations
          (cursor_at (cursor_key user unit) j.cursors)
        ≡ ok (x ∷ results, some c)
      → journalctl (command (unit_query user unit (some c))) ≡ ok []
      → Lost user unit invocations j (collect_unit of_codes journalctl user unit invocations j)
  collect_unit_loses user unit invocations j x results c h k quiet =
      let key = cursor_key user unit in
      subst (Lost user unit invocations j)
        (sym (collect_unit_refused user unit invocations j x results (some c) h k))
        (
          refl,
          refl,
          collect_unit-quiet user unit invocations c (all_writable (set_cursor key (some c) j))
              (cursor_at-set_cursor key (some c) j) quiet,
        )
