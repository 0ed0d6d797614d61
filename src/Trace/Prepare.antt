-- ===== src/Trace/Prepare.antt =====
-- helpers/trace.py: `TraceHelper.prepare_event` and `TraceInterface.LogEvent`.
use steamos_log_submitter.Base.{
  ℕ, String, ◌<>◌, List, [], ◌∷◌, Option, none, some, Result, ok, raise, value_error, os_error,
  ◌>>=◌, Text, codes, begins_with, text_eq, if◌then◌else◌,
}
use steamos_log_submitter.Base.Dict.{Dict, lookup, insert}
use steamos_log_submitter.Base.Json.{Json, num, bool}
use steamos_log_submitter.Journal.Units.{or_else}
use steamos_log_submitter.Spool.{Spool, pending}
use steamos_log_submitter.Trace.{EventType, oom, split_lock}
use steamos_log_submitter.Trace.Event.{
  TraceLine, trace_line, TraceEvent, to_json, or_value_error, drop,
}

-- What the rest of the system answers: Python's `str`, the string of code points, os.path.basename,
-- and util.py's `get_exe_build_id`, `get_path_package` and `get_appid`.
pub record Host : Type 0 where
  pub str : Json → String
  pub of_codes : Text → String
  pub basename : String → String
  pub build_id : String → Option String
  pub owner : String → Option (String × String)
  pub appid : ℕ → Option ℕ

module _ (host : Host) (int float : Text → Option ℕ) where
  unfoldable pub victim : List Text → Result ℕ
  victim [] = raise value_error
  victim (arg ∷ args) =
      if begins_with arg (codes "pid=")
      then or_value_error (int (drop 4 arg))
      else raise value_error

  -- The type of the event and the process that its arguments name.
  unfoldable pub kind_of_event : TraceLine → Result (EventType × Option ℕ)
  kind_of_event t =
      if text_eq t.function (codes "mark_victim")
      then victim t.extra_args >>= (λ p. ok (oom, some p))
      else if text_eq t.function (codes "split_lock_warn")
      then ok (split_lock, none)
      else raise value_error

  -- `data['appid']`, if it is there, has to be an int; a Python bool is one.
  unfoldable pub given_appid : Option Json → Result (Option ℕ)
  given_appid none = ok none
  given_appid (some (num n)) = ok (some n)
  given_appid (some (bool b)) = ok (some (if b then 1 else 0))
  given_appid (some _) = raise value_error

  abbrev pub shown : Option Json → Option String
  shown none = none
  shown (some v) = some (host.str v)

  abbrev pub on {ℓ} : {A : Type ℓ} → (String → Option A) → Option String → Option A
  on f none = none
  on f (some path) = f path

  abbrev pub comm_of : TraceLine → Option Json → String
  comm_of t none = host.of_codes t.comm
  comm_of t (some v) = host.str v

  -- An event whose kind and application are known; `journal` is what `read_journal` gives.
  unfoldable pub filled :
      ℕ → TraceLine → Dict Json → EventType → Option ℕ → Option ℕ → Option Json → TraceEvent
  filled now t details type pid appid journal =
      let path = shown (lookup "path" details) in
      let owner = on host.owner path in
      record {
        type = type;
        appid = or_else appid (elim pid [ none ↦ none | some p ↦ host.appid p ]);
        pid = pid;
        timestamp = now;
        uptime = t.timestamp;
        journal = journal;
        path = path;
        executable = on (λ p. some (host.basename p)) path;
        comm = some (comm_of t (lookup "comm" details));
        build_id = on host.build_id path;
        pkgname = elim owner [ none ↦ none | some (name, version) ↦ some name ];
        pkgver = elim owner [ none ↦ none | some (name, version) ↦ some version ];
      }

  -- `time.time()` in nanoseconds, and `TraceHelper.read_journal`.
  unfoldable pub prepare_event :
      ℕ → (EventType → ℕ → Result (Option Json)) → Text → Dict Json → Result TraceEvent
  unfolding kind_of_event given_appid filled
  prepare_event now read_journal line details = trace_line int float line >>= (λ t.
      kind_of_event t >>= (λ k. given_appid (lookup "appid" details) >>= (λ appid.
        read_journal k.0 t.timestamp
        >>= (λ journal. ok (filled now t details k.0 (or_else k.1 (some t.pid)) appid journal)))))

  -- Writing the report; `dumps` is `json.dumps`.
  abbrev pub written : String → List ℕ → Spool → Result (Unit {0}) × Spool
  written name content s =
      if s.writable pending
      then (ok tt, record s { pending_files = insert name content s.pending_files })
      else (raise os_error, s)

  -- `LogEvent` at the time `ts` in nanoseconds, which names the file.
  unfoldable pub log_event :
      (Dict Json → List ℕ)
      → (ℕ → String)
      → ℕ
      → Result TraceEvent
      → Spool
      → Result (Unit {0}) × Spool
  log_event dumps str_of ts (raise e) s = (raise e, s)
  log_event dumps str_of ts (ok event) s =
      written (str_of ts <> ".json") (dumps (to_json (record event { timestamp = ts }))) s
