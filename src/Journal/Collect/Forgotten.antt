-- ===== src/Journal/Collect/Forgotten.antt =====
-- What becomes of the cursor when nothing is new.
use steamos_log_submitter.Base.{
  String, Bool, List, [], ◌∷◌, Option, none, Result, ok, Text, ◌≡◌, refl, ap, ◌∙◌,
}
use steamos_log_submitter.Base.Dict.{lookup-insert_self, lookup-nil}
use steamos_log_submitter.Util.Read.{command, read_lines}
use steamos_log_submitter.Util.Read
use steamos_log_submitter.Journal.Units.{Log, failed_units, failed_units_loop}
use steamos_log_submitter.Journal.Collect.{
  Journals, cursor_at, failed_query, find_failed, cursor_name, set_cursor, collect_units,
  collect_inner,
}

module _ (of_codes : Text → String) (journalctl : List String → Result (List Log)) where
  collect_units-nil :
      (user : Bool) (units : List String) (j : Journals)
      → collect_units of_codes journalctl user units [] j ≡ (ok tt, j)
  unfolding collect_units
  collect_units-nil user [] j = refl
  collect_units-nil user (unit ∷ units) j =
      rw (lookup-nil unit, collect_units) (collect_units-nil user units j)

  find_failed-nil :
      (user : Bool) (cursor : Option String)
      → journalctl (command (failed_query user cursor)) ≡ ok []
      → find_failed of_codes journalctl user cursor ≡ ok ([], none)
  unfolding find_failed Read.read_journal read_lines failed_units failed_units_loop
  find_failed-nil user cursor h = rw (h, Read.read_journal) refl

  -- Nothing is new in the journal since the last collection: the stored cursor is replaced by None
  -- and nothing else changes. So the next collection runs the command of a first run, which looks
  -- back 30 days.
  pub collect_inner_forgets :
      (user : Bool) (units : List String) (j : Journals)
      → journalctl (command (failed_query user (cursor_at (cursor_name user) j.cursors))) ≡ ok []
      → (collect_inner of_codes journalctl user units j
          ≡ (ok tt, set_cursor (cursor_name user) none j))
        × (cursor_at (cursor_name user) (collect_inner of_codes journalctl user units j).1.cursors
            ≡ none)
  unfolding collect_inner
  collect_inner_forgets user units j h =
      let done : collect_inner of_codes journalctl user units j
          ≡ (ok tt, set_cursor (cursor_name user) none j) =
        rw (find_failed-nil user (cursor_at (cursor_name user) j.cursors) h, collect_inner)
          (collect_units-nil user units (set_cursor (cursor_name user) none j)) in
      let gone : Option String = none in
      (
        done,
        ap (λ r. cursor_at (cursor_name user) r.1.cursors) done
            ∙ rw (lookup-insert_self (cursor_name user) gone j.cursors, cursor_at) refl,
      )
