-- ===== src/Daemon/Exports/Latest.antt =====
-- `DaemonInterface.LastCollected` is the latest of the times of the helpers.
use native.Mathlib.Decide.{dec_lt}
use steamos_log_submitter.Base.{
  ℕ, ◌≤◌, ◌/◌, [], ◌∷◌, Option, none, some, Text, ◌≡◌, ◌⊎◌, inl, inr, refl, arith, ◌∙◌, sym,
  Option-cases,
}
use steamos_log_submitter.Helper.Collect.{last_of, raise_to}
use steamos_log_submitter.Daemon.Exports.{HelperModule, Helpers, latest, last_collected}

-- A helper has collected at a time.
abbrev pub HasCollected : ℕ → Helpers → Type 0
HasCollected t [] = ⊥
HasCollected t ((name, none) ∷ helpers) = HasCollected t helpers
HasCollected t ((name, some h) ∷ helpers) = (last_of h.newest ≡ some t) ⊎ HasCollected t helpers

none-some : (t : ℕ) → ◌≡◌ {A = Option ℕ} none (some t) → ⊥
none-some t h = cc

some_injective : {a b : ℕ} → some a ≡ some b → a ≡ b
some_injective h = cc

-- One round of the loop.
raise_to-some :
    (t : ℕ) (o : Option ℕ)
    → (m : ℕ) × (raise_to t o ≡ some m)
      × (t ≤ m)
      × ((s : ℕ) → o ≡ some s → s ≤ m)
      × ((m ≡ t) ⊎ (o ≡ some m))
raise_to-some t none = (t, refl, omega arith, (λ s h. absurd (none-some s h)), inl refl)
raise_to-some t (some s) = elim (dec_lt s t) [
  | yes less ↦ (t, ground arith, omega arith, (λ r h. ground arith), inl refl)
  | no more ↦ (s, ground arith, omega arith, (λ r h. ground arith), inr refl)
]

latest_ge :
    (helpers : Helpers) (o : Option ℕ) (t : ℕ)
    → HasCollected t helpers ⊎ (o ≡ some t)
    → (n : ℕ) × (latest helpers o ≡ some n) × (t ≤ n)
unfolding latest
latest_ge [] o t (inl h) = absurd h
latest_ge [] o t (inr h) = (t, h, omega arith)
latest_ge ((name, none) ∷ helpers) o t h = latest_ge helpers o t h
latest_ge ((name, some h) ∷ helpers) o t g = elim (Option-cases (last_of h.newest)) [
  | inl absent ↦
      rw (absent, latest)
        (latest_ge helpers o t (elim g [
          | inl (inl at) ↦ absurd (none-some t (sym absent ∙ at))
          | inl (inr later) ↦ inl later
          | inr old ↦ inr old
        ]))
  | inr (s, there) ↦
      rw (there, latest)
        (let (m, is, ge, old_ge, one) = raise_to-some s o in
          let (n, e, m_le) = latest_ge helpers (raise_to s o) m (inr is) in
          elim g [
            | inl (inl at) ↦
                let same : s ≡ t = some_injective (sym there ∙ at) in (n, e, omega arith)
            | inl (inr later) ↦ latest_ge helpers (raise_to s o) t (inl later)
            | inr old ↦ let t_le = old_ge t old in (n, e, omega arith)
          ])
]

latest-none :
    (name : Text) (m : HelperModule) (helpers : Helpers) (o : Option ℕ)
    → last_of m.newest ≡ none
    → latest ((name, some m) ∷ helpers) o ≡ latest helpers o
unfolding latest
latest-none name m helpers o absent = rw (absent, latest) refl

latest-some :
    (name : Text) (m : HelperModule) (helpers : Helpers) (o : Option ℕ) (s : ℕ)
    → last_of m.newest ≡ some s
    → latest ((name, some m) ∷ helpers) o ≡ latest helpers (raise_to s o)
unfolding latest
latest-some name m helpers o s there = rw (there, latest) refl

latest_from :
    (helpers : Helpers) (o : Option ℕ) (n : ℕ)
    → latest helpers o ≡ some n
    → HasCollected n helpers ⊎ (o ≡ some n)
unfolding latest
latest_from [] o n h = inr h
latest_from ((name, none) ∷ helpers) o n h = latest_from helpers o n h
latest_from ((name, some m) ∷ helpers) o n h = elim (Option-cases (last_of m.newest)) [
  | inl absent ↦ elim (latest_from helpers o n (sym (latest-none name m helpers o absent) ∙ h)) [
    | inl from ↦ inl (inr from)
    | inr old ↦ inr old
  ]
  | inr (s, there) ↦
      elim (latest_from helpers (raise_to s o) n (sym (latest-some name m helpers o s there) ∙ h)) [
        | inl from ↦ inl (inr from)
        | inr old ↦
            let (r, is, ge, old_ge, one) = raise_to-some s o in
            let same : r ≡ n = some_injective (sym is ∙ old) in
            elim one [ inl this ↦ inl (inl (cc)) | inr before ↦ inr (cc) ]
      ]
]

-- The time in `LastCollected`, in whole seconds, is that of a helper that has collected, and no
-- helper has collected later; it is 0 if no helper has.
pub last_collected_latest :
    (helpers : Helpers)
    → ((t : ℕ) → ¬ HasCollected t helpers) × (last_collected helpers ≡ 0)
      ⊎ ((n : ℕ) × HasCollected n helpers
          × ((t : ℕ) → HasCollected t helpers → t ≤ n)
          × (last_collected helpers ≡ n / 1000))
unfolding last_collected
last_collected_latest helpers = elim (Option-cases (latest helpers none)) [
  | inl nothing ↦ inl (
    (λ t h. let (n, e, le) = latest_ge helpers none t (inl h) in none-some n (sym nothing ∙ e)),
    rw nothing refl,
  )
  | inr (n, there) ↦ inr (
    n,
    elim (latest_from helpers none n there) [
      | inl from ↦ from
      | inr nothing ↦ absurd (none-some n nothing)
    ],
    (λ t h.
        let (m, e, le) = latest_ge helpers none t (inl h) in
        let same : n ≡ m = some_injective (sym there ∙ e) in omega arith),
    rw there refl,
  )
]
