-- ===== src/Util/Release/Network.antt =====
-- How often `check_network` asks.
use steamos_log_submitter.Base.{
  ℕ, zero, suc, ◌+◌, ◌≤◌, ◌<◌, Bool, true, false, Result, nat_eq, ◌≡◌, refl, sym, arith, Bool-cases,
  inl, inr,
}
use mathlib.Core.Path.{subst}
use steamos_log_submitter.Util.Release.{is_there, network_loop, check_network}

-- No answer from `first` on and before `last` was the right one.
abbrev pub Silent : (ℕ → Result ℕ) → ℕ → ℕ → Type 0
Silent answer first last = (i : ℕ) → first ≤ i → i < last → is_there (answer i) ≡ false

-- The answer that ended the loop, from the request `first` on and with at most `n` of them.
abbrev pub Ended : (ℕ → Result ℕ) → ℕ → ℕ → Bool × ℕ → Type 0
Ended answer first n (true, slept) =
    (first ≤ slept)
    × (slept < first + n)
    × (is_there (answer slept) ≡ true)
    × Silent answer first slept
Ended answer first n (false, slept) = (slept ≡ first + n) × Silent answer first slept

Silent-cons :
    (answer : ℕ → Result ℕ) (first last : ℕ)
    → is_there (answer first) ≡ false
    → Silent answer (suc first) last
    → Silent answer first last
Silent-cons answer first last h k i low high = elim (Bool-cases (nat_eq first i)) [
  | inl same ↦ subst (λ j. is_there (answer j) ≡ false) (ground (arith, same)) h
  | inr later ↦ k i (ground (arith, later)) high
]

Ended-suc :
    (answer : ℕ → Result ℕ) (first n : ℕ) (r : Bool × ℕ)
    → is_there (answer first) ≡ false
    → Ended answer (suc first) n r
    → Ended answer first (suc n) r
Ended-suc answer first n (true, slept) h (low, high, there, k) =
    (omega arith, omega arith, there, Silent-cons answer first slept h k)
Ended-suc answer first n (false, slept) h (all, k) =
    (omega arith, Silent-cons answer first slept h k)

network_loop_there :
    (answer : ℕ → Result ℕ) (n first : ℕ)
    → is_there (answer first) ≡ true
    → network_loop (suc n) answer first ≡ (true, first)
unfolding network_loop
network_loop_there answer n first h = rw (h, network_loop) refl

network_loop_retries :
    (answer : ℕ → Result ℕ) (n first : ℕ)
    → is_there (answer first) ≡ false
    → network_loop (suc n) answer first ≡ network_loop n answer (suc first)
unfolding network_loop
network_loop_retries answer n first h = rw (h, network_loop) refl

network_loop-Ended :
    (answer : ℕ → Result ℕ) (n first : ℕ) → Ended answer first n (network_loop n answer first)
unfolding network_loop
network_loop-Ended answer zero first = (omega arith, λ i low high. ground arith)
network_loop-Ended answer (suc n) first = elim (Bool-cases (is_there (answer first))) [
  | inl there ↦
      subst (Ended answer first (suc n)) (sym (network_loop_there answer n first there))
        (omega arith, omega arith, there, λ i low high. ground arith)
  | inr missing ↦
      subst (Ended answer first (suc n)) (sym (network_loop_retries answer n first missing)) (
        Ended-suc answer first n (network_loop n answer (suc first)) missing
          (network_loop-Ended answer n (suc first)))
]

-- The network counts as there exactly if one of the first five answers is a 204, and the loop ends
-- with the first such answer, having slept once for each answer before it; otherwise it has asked,
-- and slept, five times.
pub check_network-Ended : (answer : ℕ → Result ℕ) → Ended answer 0 5 (check_network answer)
unfolding check_network
check_network-Ended answer = network_loop-Ended answer 5 0
