-- ===== src/Sentry/Send.antt =====
-- `send` and `send_minidump`, for the answers of the server.
use steamos_log_submitter.Base.{
  ℕ, Bool, true, false, List, [], ◌∷◌, Option, none, some, Result, ok, raise, Exc, value_error, ◌≡◌,
  refl, ◌↔◌, ◌⊎◌, inl, inr, arith, nat_eq, if◌then◌else◌, ◌==◌,
}
use steamos_log_submitter.Base.Json.{Json, string}
use steamos_log_submitter.Runner.{HelperResult, success, transient_error, permanent_error}
use steamos_log_submitter.Sentry.{Attachment, SentryEvent, System, Line, seal_envelope}

-- How a POST ends: with a status, with a network error, or with another exception.
pub data Reply : Type 0 where
  status : ℕ → Reply
  network_error : Reply
  fails : Exc → Reply

abbrev pub post_envelope : Option (List Line) → Reply → Result HelperResult
post_envelope none reply = ok success
post_envelope (some lines) (status code) = ok (if nat_eq code 200 then success else transient_error)
post_envelope (some lines) network_error = ok transient_error
post_envelope (some lines) (fails e) = raise e

-- `send` after `seal`: the event goes to the store, then the envelope, if there is one.
unfoldable pub send : Option (List Line) → Reply → Reply → Result HelperResult
send envelope (status code) second =
    if nat_eq code 413
    then ok permanent_error
    else (if nat_eq code 200 then post_envelope envelope second else ok transient_error)
send envelope network_error second = ok transient_error
send envelope (fails e) second = raise e

abbrev pub judge_detail : Option Json → Result Bool
judge_detail (some (string detail)) =
    if detail == "invalid minidump" then raise value_error else ok false
judge_detail _ = ok false

-- `send_minidump`; `detail` is that of the JSON in the answer, none if it is no JSON.
unfoldable pub send_minidump : Reply → Option Json → Result Bool
send_minidump network_error detail = ok false
send_minidump (fails e) detail = raise e
send_minidump (status code) detail =
    if nat_eq code 200 then ok true else (if nat_eq code 400 then judge_detail detail else ok false)

send_success_to :
    (envelope : Option (List Line)) (first second : Reply)
    → send envelope first second ≡ ok success
    → (first ≡ status 200) × ((envelope ≡ none) ⊎ (second ≡ status 200))
unfolding send
send_success_to none (status c) second h = (ground arith, inl refl)
send_success_to (some lines) (status c) (status d) h = (ground arith, inr (ground arith))
send_success_to (some lines) (status c) network_error h = absurd (ground arith)
send_success_to (some lines) (status c) (fails e) h = absurd (ground arith)
send_success_to envelope network_error second h = absurd (ground arith)
send_success_to envelope (fails e) second h = absurd (ground arith)

send_success_from :
    (envelope : Option (List Line)) (first second : Reply)
    → first ≡ status 200
    → (envelope ≡ none) ⊎ (second ≡ status 200)
    → send envelope first second ≡ ok success
unfolding send
send_success_from none first second h k = rw h refl
send_success_from (some lines) first second h (inl gone) = absurd (ground arith)
send_success_from (some lines) first second h (inr taken) = rw (h, taken) refl

seal_envelope-none :
    (s : System) (e : SentryEvent) → (seal_envelope s e ≡ none) ↔ (e.attachments ≡ [])
unfolding seal_envelope
seal_envelope-none s e = empty e.attachments refl
  where
    empty :
        (attachments : List Attachment)
        → e.attachments ≡ attachments
        → (seal_envelope s e ≡ none) ↔ (e.attachments ≡ [])
    empty [] h = (λ _. h, λ _. rw h refl)
    empty (a ∷ attachments) h = (λ k. absurd (ground arith), λ k. absurd (ground arith))

-- An event counts as submitted exactly when the server took it with 200, and took its attachments
-- with 200 too, if it has any.
pub send_success :
    (s : System) (e : SentryEvent) (first second : Reply)
    → (send (seal_envelope s e) first second ≡ ok success)
      ↔ ((first ≡ status 200) × ((e.attachments ≡ []) ⊎ (second ≡ status 200)))
send_success s e first second = (
  λ h.
      let (taken, rest) = send_success_to (seal_envelope s e) first second h in
      (taken, bare (seal_envelope-none s e).0 rest),
  λ (taken, rest).
      send_success_from (seal_envelope s e) first second taken
        (bare (seal_envelope-none s e).1 rest),
)
  where
    bare : {P Q : Type 0} → (P → Q) → P ⊎ (second ≡ status 200) → Q ⊎ (second ≡ status 200)
    bare f (inl p) = inl (f p)
    bare f (inr q) = inr q
