-- ===== src/Journal/Units/Laws.antt =====
-- Which logs of the failed units the journal helper keeps.
use mathlib.Core.List.{append-nil, append_assoc}
use steamos_log_submitter.Base.{
  String, Bool, true, false, not, ◌||◌, List, [], ◌∷◌, ◌++◌, none, ◌≡◌, refl, ◌∙◌, arith, eq_iff,
  ◌==◌, contains, All, if◌then◌else◌, Bool-cases, inl, inr,
}
use steamos_log_submitter.Base.Dict.{lookup, has, lookup-nil, lookup-insert, lookup-remove}
use steamos_log_submitter.Journal.Units.{
  Log, Results, get_or, invocation_id, strip, add_log, read_journal_loop, read_journal,
}

-- The entries with this invocation id, in order and stripped.
abbrev pub entries_of : Bool → String → List Log → List Log
entries_of user invocation [] = []
entries_of user invocation (log ∷ logs) =
    let rest = entries_of user invocation logs in
    if invocation_id user log == invocation then strip log ∷ rest else rest

abbrev pub grouped : String → Results → List Log
grouped invocation results = get_or (lookup invocation results) []

grouped-add_log :
    (invocations : List String) (i : String) (log : Log) (results : Results) (invocation : String)
    → contains invocations invocation ≡ true
    → grouped invocation (add_log invocations i log results) ≡ (
        if i == invocation
        then grouped invocation results ++ (strip log ∷ [])
        else grouped invocation results)
unfolding add_log
grouped-add_log invocations i log results invocation wanted = ground (
  arith,
  lookup-insert i invocation (get_or (lookup i results) [] ++ (strip log ∷ [])) results,
  eq_iff i invocation,
  wanted,
)

grouped-read_journal_loop :
    (user : Bool) (invocations : List String) (logs : List Log) (results : Results)
    (invocation : String)
    → contains invocations invocation ≡ true
    → grouped invocation (read_journal_loop user invocations logs results)
      ≡ grouped invocation results ++ entries_of user invocation logs
unfolding read_journal_loop
grouped-read_journal_loop user invocations [] results invocation wanted = rw append-nil
grouped-read_journal_loop user invocations (log ∷ logs) results invocation wanted =
    rw
      (
        grouped-read_journal_loop user invocations logs
            (add_log invocations (invocation_id user log) log results) invocation wanted,
        grouped-add_log invocations (invocation_id user log) log results invocation wanted,
      )
      (elim (Bool-cases (invocation_id user log == invocation)) [
        | inl same ↦ rw same (rw append_assoc)
        | inr differ ↦ rw differ
      ])

-- For an invocation that is asked for, the result holds exactly its entries, in the order of the
-- journal, without their host name and machine id.
pub grouped-read_journal :
    (user : Bool) (invocations : List String) (logs : List Log) (invocation : String)
    → contains invocations invocation ≡ true
    → grouped invocation (read_journal user invocations logs) ≡ entries_of user invocation logs
unfolding read_journal
grouped-read_journal user invocations logs invocation wanted =
    grouped-read_journal_loop user invocations logs [] invocation wanted ∙ rw lookup-nil refl

pub lookup-strip :
    (key : String) (log : Log)
    → lookup key (strip log)
      ≡ (if "_MACHINE_ID" == key then none else if "_HOSTNAME" == key then none else lookup key log)
unfolding strip
lookup-strip key log = rw (lookup-remove, lookup-remove) refl

abbrev pub IsAnonymous : Log → Type 0
IsAnonymous log = (lookup "_HOSTNAME" log ≡ none) × (lookup "_MACHINE_ID" log ≡ none)

strip-IsAnonymous : (log : Log) → IsAnonymous (strip log)
strip-IsAnonymous log = (rw lookup-strip refl, rw lookup-strip refl)

entries_of-IsAnonymous :
    (user : Bool) (invocation : String) (logs : List Log)
    → All IsAnonymous (entries_of user invocation logs)
entries_of-IsAnonymous user invocation [] = tt
entries_of-IsAnonymous user invocation (log ∷ logs) =
    elim (Bool-cases (invocation_id user log == invocation)) [
      | inl same ↦ rw same (strip-IsAnonymous log, entries_of-IsAnonymous user invocation logs)
      | inr differ ↦ rw differ (entries_of-IsAnonymous user invocation logs)
    ]

lookup-read_journal_loop_unwanted :
    (user : Bool) (invocations : List String) (logs : List Log) (results : Results)
    (invocation : String)
    → contains invocations invocation ≡ false
    → lookup invocation (read_journal_loop user invocations logs results)
      ≡ lookup invocation results
unfolding read_journal_loop add_log
lookup-read_journal_loop_unwanted user invocations [] results invocation unwanted = refl
lookup-read_journal_loop_unwanted user invocations (log ∷ logs) results invocation unwanted =
    lookup-read_journal_loop_unwanted user invocations logs _ invocation unwanted
    ∙ ground (
      arith,
      lookup-insert (invocation_id user log) invocation
          (get_or (lookup (invocation_id user log) results) [] ++ (strip log ∷ [])) results,
      eq_iff (invocation_id user log) invocation,
    )

-- No entry that the helper keeps, for any invocation, has the fields _HOSTNAME or _MACHINE_ID, and
-- for an invocation that is not asked for it keeps none.
pub read_journal-IsAnonymous :
    (user : Bool) (invocations : List String) (logs : List Log) (invocation : String)
    → All IsAnonymous (grouped invocation (read_journal user invocations logs))
      × ((contains invocations invocation
            || not (has invocation (read_journal user invocations logs)))
          ≡ true)
read_journal-IsAnonymous user invocations logs invocation =
    elim (Bool-cases (contains invocations invocation)) [
      | inl wanted ↦ (
        rw (grouped-read_journal user invocations logs invocation wanted)
            (entries_of-IsAnonymous user invocation logs),
        rw wanted,
      )
      | inr unwanted ↦
          let gone : lookup invocation (read_journal user invocations logs) ≡ none =
            unfold read_journal in
            lookup-read_journal_loop_unwanted user invocations logs [] invocation unwanted
            ∙ lookup-nil invocation in
          (rw gone tt, rw unwanted (rw (gone, has)))
    ]
