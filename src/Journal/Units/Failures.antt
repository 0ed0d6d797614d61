-- ===== src/Journal/Units/Failures.antt =====
-- Which failures of units the journal helper finds.
use steamos_log_submitter.Base.{
  String, Bool, true, false, not, ◌&&◌, ◌||◌, List, [], ◌∷◌, ◌++◌, Option, none, some, ◌≡◌, refl,
  ◌∙◌, arith, eq_iff, ◌==◌, contains, if◌then◌else◌, Bool-cases, inl, inr,
}
use steamos_log_submitter.Base.Dict.{lookup, lookup-nil, lookup-insert}
use steamos_log_submitter.Journal.Units.{
  Log, Failed, get_or, invocation_of, unit_of_log, one_of, or_else, nonempty, failures,
  reports_failure, add, note_failure, failed_units_loop, failed_units,
}

-- The invocation is in the set of the unit.
abbrev pub recorded : String → String → Failed → Bool
recorded unit invocation failed = contains (get_or (lookup unit failed) []) invocation

-- The entry has this field with this value; it has no such field, or an empty one.
abbrev pub is_value : String → Option String → Bool
is_value value none = false
is_value value (some v) = value == v

abbrev pub is_empty : Option String → Bool
is_empty none = true
is_empty (some v) = v == ""

abbrev pub says : String → String → Log → Bool
says key value log = is_value value (lookup key log)

abbrev pub lacks : String → Log → Bool
lacks key log = is_empty (lookup key log)

-- The results of a unit or a job that count as failures.
abbrev pub tells_failure : Log → Bool
tells_failure log =
    says "UNIT_RESULT" "resources" log
    || (says "UNIT_RESULT" "protocol" log
        || (says "UNIT_RESULT" "timeout" log
            || (says "UNIT_RESULT" "exit-code" log
                || (says "UNIT_RESULT" "signal" log
                    || (says "UNIT_RESULT" "core-dump" log
                        || (says "UNIT_RESULT" "watchdog" log
                            || says "JOB_RESULT" "failed" log))))))

-- The invocation id is in the field for it, or else, if that is missing or empty, in systemd's own.
abbrev pub has_invocation : String → String → Log → Bool
has_invocation key invocation log =
    (says key invocation log && not (invocation == ""))
    || (lacks key log && says "_SYSTEMD_INVOCATION_ID" invocation log)

-- The entry tells of a failure of this invocation of this unit.
abbrev pub is_failure : Bool → String → String → Log → Bool
is_failure user unit invocation log =
    tells_failure log
    && (says (if user then "USER_UNIT" else "UNIT") unit log
        && has_invocation (if user then "USER_INVOCATION_ID" else "INVOCATION_ID") invocation log)

one_of-is_value :
    (value : String) (found : Option String) → one_of (value ∷ []) found ≡ is_value value found
one_of-is_value value none = refl
one_of-is_value value (some v) = ground (arith, eq_iff value v, eq_iff v value)

one_of-says :
    (key value : String) (log : Log) → one_of (value ∷ []) (lookup key log) ≡ says key value log
one_of-says key value log = one_of-is_value value (lookup key log)

one_of-failures :
    (r : Option String)
    → one_of failures r ≡ (
        is_value "resources" r
        || (is_value "protocol" r
            || (is_value "timeout" r
                || (is_value "exit-code" r
                    || (is_value "signal" r
                        || (is_value "core-dump" r || is_value "watchdog" r))))))
one_of-failures none = refl
one_of-failures (some v) = ground arith

reports_failure-tells_failure : (log : Log) → reports_failure log ≡ tells_failure log
unfolding reports_failure
reports_failure-tells_failure log =
    rw (one_of-failures (lookup "UNIT_RESULT" log), one_of-says "JOB_RESULT" "failed" log)
      (ground arith)

-- The first field that is not empty.
one_of-or_else :
    (invocation : String) (own systemd : Option String)
    → one_of (invocation ∷ []) (or_else (nonempty own) systemd) ≡ (
        (is_value invocation own && not (invocation == ""))
        || (is_empty own && is_value invocation systemd))
one_of-or_else invocation none systemd = rw (one_of-is_value invocation systemd) refl
one_of-or_else invocation (some v) systemd = elim (Bool-cases (v == "")) [
  | inl blank ↦ rw blank (
      rw (one_of-is_value invocation systemd)
        (ground (arith, eq_iff v "", eq_iff invocation v, eq_iff invocation "")))
  | inr filled ↦ rw filled (ground (arith, eq_iff v "", eq_iff invocation v, eq_iff invocation ""))
]

one_of-has_invocation :
    (user : Bool) (invocation : String) (log : Log)
    → one_of (invocation ∷ []) (invocation_of user log)
      ≡ has_invocation (if user then "USER_INVOCATION_ID" else "INVOCATION_ID") invocation log
one_of-has_invocation user invocation log =
    one_of-or_else invocation (lookup (if user then "USER_INVOCATION_ID" else "INVOCATION_ID") log)
      (lookup "_SYSTEMD_INVOCATION_ID" log)

abbrev counts : Bool → String → String → Log → Bool
counts user unit invocation log =
    reports_failure log
    && (one_of (unit ∷ []) (unit_of_log user log)
        && one_of (invocation ∷ []) (invocation_of user log))

counts-is_failure :
    (user : Bool) (unit invocation : String) (log : Log)
    → counts user unit invocation log ≡ is_failure user unit invocation log
counts-is_failure user unit invocation log =
    rw
      (
        reports_failure-tells_failure log,
        one_of-says (if user then "USER_UNIT" else "UNIT") unit log,
        one_of-has_invocation user invocation log,
      )
      refl

abbrev pub any_failure : Bool → String → String → List Log → Bool
any_failure user unit invocation [] = false
any_failure user unit invocation (log ∷ logs) =
    is_failure user unit invocation log || any_failure user unit invocation logs

abbrev any_counts : Bool → String → String → List Log → Bool
any_counts user unit invocation [] = false
any_counts user unit invocation (log ∷ logs) =
    counts user unit invocation log || any_counts user unit invocation logs

any_counts-any_failure :
    (user : Bool) (unit invocation : String) (logs : List Log)
    → any_counts user unit invocation logs ≡ any_failure user unit invocation logs
any_counts-any_failure user unit invocation [] = refl
any_counts-any_failure user unit invocation (log ∷ logs) =
    rw
      (counts-is_failure user unit invocation log, any_counts-any_failure user unit invocation logs)
      refl

contains-append_one :
    (xs : List String) (x y : String) → contains (xs ++ (x ∷ [])) y ≡ (contains xs y || (x == y))
contains-append_one [] x y = ground arith
contains-append_one (a ∷ xs) x y = ground (arith, contains-append_one xs x y)

contains-add :
    (xs : List String) (x y : String) → contains (add x xs) y ≡ (contains xs y || (x == y))
contains-add xs x y = ground (arith, contains-append_one xs x y, eq_iff x y)

recorded-note_failure :
    (i u : Option String) (unit invocation : String) (failed : Failed)
    → recorded unit invocation (note_failure i u failed)
      ≡ (recorded unit invocation failed || (one_of (unit ∷ []) u && one_of (invocation ∷ []) i))
recorded-note_failure (some i) (some u) unit invocation failed = rw lookup-insert (
    ground (
      arith,
      eq_iff u unit,
      eq_iff unit u,
      eq_iff i invocation,
      eq_iff invocation i,
      contains-add (get_or (lookup u failed) []) i invocation,
    ))
recorded-note_failure none u unit invocation failed = ground arith
recorded-note_failure (some i) none unit invocation failed = ground arith

recorded-failed_units_loop :
    (user : Bool) (logs : List Log) (failed : Failed) (unit invocation : String)
    → recorded unit invocation (failed_units_loop user logs failed)
      ≡ (recorded unit invocation failed || any_counts user unit invocation logs)
unfolding failed_units_loop
recorded-failed_units_loop user [] failed unit invocation = ground arith
recorded-failed_units_loop user (log ∷ logs) failed unit invocation =
    elim (Bool-cases (reports_failure log)) [
      | inl fails ↦
          let noted = note_failure (invocation_of user log) (unit_of_log user log) failed in
          rw (fails, recorded-failed_units_loop user logs noted unit invocation)
            (rw recorded-note_failure (ground (arith, fails)))
      | inr fine ↦
          rw (fine, recorded-failed_units_loop user logs failed unit invocation)
            (ground (arith, fine))
    ]

-- An invocation is in the set of a unit exactly if some entry of the journal reports a failure, by one
-- of the seven bad values of UNIT_RESULT or by the JOB_RESULT `failed`, names that unit in UNIT (for
-- a user in USER_UNIT), and has that invocation id: in INVOCATION_ID (USER_INVOCATION_ID), or in
-- _SYSTEMD_INVOCATION_ID where that one is missing or empty.
pub recorded-failed_units :
    (user : Bool) (logs : List Log) (unit invocation : String)
    → recorded unit invocation (failed_units user logs) ≡ any_failure user unit invocation logs
unfolding failed_units
recorded-failed_units user logs unit invocation =
    recorded-failed_units_loop user logs [] unit invocation
    ∙ rw (lookup-nil, any_counts-any_failure user unit invocation logs) refl
