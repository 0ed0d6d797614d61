-- ===== src/Trace/Event.antt =====
-- helpers/trace.py: `TraceLine`, `TraceEvent`, `prepare_event`, `LogEvent` and `submit`.
pub mod Shown
use steamos_log_submitter.Base.{
  ℕ, zero, suc, ◌+◌, String, ◌<>◌, Bool, true, false, ◌||◌, ◌&&◌, not, List, [], ◌∷◌, ◌++◌, Option,
  none, some, Result, ok, raise, value_error, key_error, Exc, ◌>>=◌, Text, codes, begins_with,
  text_eq, nat_eq, leb, ltb, length, if◌then◌else◌,
}
use steamos_log_submitter.Base.Dict.{Dict, lookup, insert}
use steamos_log_submitter.Base.Json.{Json, num, null, string, get, put_if, not_null}
use steamos_log_submitter.Runner.{HelperResult}
use steamos_log_submitter.Sentry.{SentryEvent, add_attachment}
use steamos_log_submitter.Reports.{Bytes, caught, Loaded, with_object}
use steamos_log_submitter.Trace.{EventType, oom, split_lock, value}

abbrev pub take : ℕ → Text → Text
take zero s = []
take (suc n) [] = []
take (suc n) (c ∷ s) = c ∷ take n s

abbrev pub drop : ℕ → Text → Text
drop zero s = s
drop (suc n) [] = []
drop (suc n) (c ∷ s) = drop n s

abbrev pub is_space : ℕ → Bool
is_space c = nat_eq c b' ' || (leb 9 c && leb c 13)

abbrev pub lstrip : Text → Text
lstrip [] = []
lstrip (c ∷ s) = let rest = lstrip s in if is_space c then rest else c ∷ s

abbrev pub grow : Bool → ℕ → List Text → List Text
grow true c (word ∷ words) = (c ∷ word) ∷ words
grow true c [] = (c ∷ []) ∷ []
grow false c words = (c ∷ []) ∷ words

abbrev pub begins_word : Text → Bool
begins_word [] = false
begins_word (c ∷ s) = not (is_space c)

-- `s.split()`
unfoldable pub split : Text → List Text
split [] = []
split (c ∷ s) = let words = split s in if is_space c then words else grow (begins_word s) c words

-- `s.rstrip(':')`
abbrev pub cut_colon : ℕ → Text → Text
cut_colon c [] = if nat_eq c b':' then [] else c ∷ []
cut_colon c (d ∷ s) = c ∷ d ∷ s

unfoldable pub rstrip_colon : Text → Text
rstrip_colon [] = []
rstrip_colon (c ∷ s) = cut_colon c (rstrip_colon s)

-- The numbers of the columns are natural ones; the time is in microseconds.
pub record TraceLine : Type 0 where
  pub comm : Text
  pub pid : ℕ
  pub cpu : ℕ
  pub timestamp : ℕ
  pub function : Text
  pub extra_args : List Text

-- `s[1:-1]`
abbrev pub without_last : Text → Text
without_last [] = []
without_last (c ∷ []) = []
without_last (c ∷ d ∷ s) = c ∷ without_last (d ∷ s)

abbrev pub inner : Text → Text
inner s = without_last (drop 1 s)

abbrev pub or_value_error {ℓ} : {A : Type ℓ} → Option A → Result A
or_value_error none = raise value_error
or_value_error (some a) = ok a

-- `line[16] != '-'`; a line with five columns after the first 17 characters has that one.
abbrev pub has_dash : Text → Bool
has_dash line = begins_with (drop 16 line) (codes "-")

-- `int` and `float` are those of Python, with none for a ValueError.
module _ (int float : Text → Option ℕ) where
  unfoldable pub columns_of : Text → List Text → Result TraceLine
  columns_of comm (pid ∷ cpu ∷ bits ∷ timestamp ∷ function ∷ extra_args) =
      or_value_error (int pid) >>= (λ p. or_value_error (int (inner cpu)) >>= (λ c.
        or_value_error (float (rstrip_colon timestamp)) >>= (λ t. ok (record {
          comm = lstrip comm;
          pid = p;
          cpu = c;
          timestamp = t;
          function = rstrip_colon function;
          extra_args = extra_args;
        }))))
  columns_of comm _ = raise value_error

  unfoldable pub trace_line : Text → Result TraceLine
  trace_line line =
      if has_dash line then columns_of (take 16 line) (split (drop 17 line)) else raise value_error

-- `TraceEvent`, with the texts as Python has them; a time of zero is one not set.
-- `timestamp` counts nanoseconds and `uptime` microseconds, in the JSON too.
pub record TraceEvent : Type 0 where
  pub type : EventType
  pub appid : Option ℕ
  pub pid : Option ℕ
  pub timestamp : ℕ
  pub uptime : ℕ
  pub journal : Option Json
  pub path : Option String
  pub executable : Option String
  pub comm : Option String
  pub build_id : Option String
  pub pkgname : Option String
  pub pkgver : Option String

abbrev pub number : Option ℕ → Option Json
number none = none
number (some n) = some (num n)

abbrev pub text : Option String → Option Json
text none = none
text (some s) = some (string s)

-- The attributes that `to_json` writes unless they are None, in its order.
abbrev pub attributes : TraceEvent → Dict (Option Json)
attributes e =
    ("pid", number e.pid)
    ∷ ("appid", number e.appid)
    ∷ ("journal", e.journal)
    ∷ ("path", text e.path)
    ∷ ("executable", text e.executable)
    ∷ ("comm", text e.comm)
    ∷ ("build_id", text e.build_id)
    ∷ ("pkgname", text e.pkgname)
    ∷ ("pkgver", text e.pkgver)
    ∷ []

abbrev pub put_attribute : String → Option Json → Dict Json → Dict Json
put_attribute k none d = d
put_attribute k (some v) d = insert k v d

unfoldable pub put_attributes : Dict (Option Json) → Dict Json → Dict Json
put_attributes [] d = d
put_attributes ((k, v) ∷ more) d = put_attributes more (put_attribute k v d)

abbrev pub is_set : ℕ → Bool
is_set zero = false
is_set (suc n) = true

-- The dict that `to_json` dumps.
unfoldable pub to_json : TraceEvent → Dict Json
to_json e = put_attributes (attributes e) (
    put_if (is_set e.uptime) "uptime" (num e.uptime) (
      put_if (is_set e.timestamp) "timestamp" (num e.timestamp)
        (("type", string (value e.type)) ∷ [])))

abbrev pub copied : List String
copied = "executable" ∷ "comm" ∷ "path" ∷ "build_id" ∷ "pkgname" ∷ "pkgver" ∷ []

-- `if attr in parsed_log: event.tags[attr] = parsed_log[attr]`
unfoldable pub copy_tags : List String → Dict Json → Dict Json → Dict Json
copy_tags [] parsed_log tags = tags
copy_tags (k ∷ ks) parsed_log tags =
    copy_tags ks parsed_log (put_attribute k (lookup k parsed_log) tags)

module _ (str : Json → String) where
  abbrev pub titled : Json → Option Json → Option Json → Json
  titled type (some executable) comm = string ((str type <> ": ") <> str executable)
  titled type none (some comm) = string ((str type <> ": ") <> str comm)
  titled type none none = type

  unfoldable pub trace_event : Bytes → Dict Json → Json → SentryEvent → SentryEvent
  trace_event log parsed_log type event =
      record (add_attachment
        (record {
          mime_type = some "application/json";
          filename = some "trace.json";
          content = log;
        })
        event) {
          timestamp = get "timestamp" parsed_log;
          appid = get "appid" parsed_log;
          tags = copy_tags copied parsed_log event.tags;
          message = some (titled type (lookup "executable" parsed_log) (lookup "comm" parsed_log));
        }

  -- Reading the file fails with an OSError.
  unfoldable pub submit_trace :
      (Bytes → Loaded)
      → (SentryEvent → Result HelperResult)
      → SentryEvent
      → Result Bytes
      → Result HelperResult
  submit_trace loads send event (raise e) = caught e
  submit_trace loads send event (ok log) = with_object (loads log) λ parsed_log.
      elim (lookup "type" parsed_log) [
        | none ↦ raise key_error
        | some type ↦ send (trace_event log parsed_log type event)
      ]
