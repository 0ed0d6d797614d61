-- ===== src/Kdump/Summaries/Excerpt.antt =====
-- Which lines make up the summary of a crash.
use steamos_log_submitter.Base.{
  Bool, true, false, List, [], ◌∷◌, ◌++◌, map, none, Text, ◌≡◌, refl, sym, ap, ◌∙◌, arith, All,
}
use mathlib.Core.List.{append_assoc, append-nil}
use steamos_log_submitter.Kdump.Traces.{Patterns}
use steamos_log_submitter.Kdump.Summaries.{
  first_lines, any_part, Excerpts, grab_line, is_end, is_started, take_line, Modules, take_modules,
  summary_loop, concat, get_summaries,
}

abbrev pub Starts : Bool → Text → Type 0
Starts b line = any_part first_lines line ≡ b

abbrev pub Ends : Bool → Text → Type 0
Ends b line = is_end line ≡ b

grab_line_summary : (line : Text) (e : Excerpts) → (grab_line line e).summary ≡ e.summary
unfolding grab_line
grab_line_summary line e = ground arith

take_line_early :
    (line : Text) (e : Excerpts) → is_started e.summary line ≡ false → take_line line e ≡ (false, e)
unfolding take_line
take_line_early line e h = rw h refl

take_line_last :
    (line : Text) (e : Excerpts)
    → is_started e.summary line ≡ true
    → is_end line ≡ true
    → take_line line e ≡ (true, grab_line line e)
unfolding take_line
take_line_last line e h k = rw h (rw k refl)

take_line_next :
    (line : Text) (e : Excerpts)
    → is_started e.summary line ≡ true
    → is_end line ≡ false
    → take_line line e ≡ (false, grab_line line (record e { summary = e.summary ++ (line ∷ []) }))
unfolding take_line
take_line_next line e h k = rw h (rw k refl)

started_cons :
    (l : Text) (ls : List Text) (e : Excerpts) (line : Text)
    → e.summary ≡ l ∷ ls
    → is_started e.summary line ≡ true
started_cons l ls e line h = rw h refl

module _ (re : Patterns) (unstamped without_flags : Text → Text) (last_unloaded : Text → List Text)
    (sorted : List Text → List Text) where
  abbrev loop : List Text → Excerpts → Modules → Excerpts × Modules
  loop = summary_loop re unstamped without_flags last_unloaded sorted

  abbrev modules : Text → Modules → Modules
  modules = take_modules re unstamped without_flags last_unloaded sorted

  abbrev next : Text → List Text → Modules → Bool × Excerpts → Excerpts × Modules
  next line rest m p = elim p.0 [ true ↦ (p.1, m) | false ↦ loop rest p.1 (modules line m) ]

  loop_cons :
      (line : Text) (rest : List Text) (e : Excerpts) (m : Modules)
      → loop (line ∷ rest) e m ≡ next line rest m (take_line line e)
  unfolding summary_loop
  loop_cons line rest e m = refl

  loop_stops :
      (line : Text) (rest : List Text) (e : Excerpts) (m : Modules)
      → is_started e.summary line ≡ true
      → is_end line ≡ true
      → (loop (line ∷ rest) e m).0.summary ≡ e.summary
  loop_stops line rest e m h k =
      ap (λ r. r.0.summary)
        (loop_cons line rest e m ∙ ap (next line rest m) (take_line_last line e h k))
      ∙ grab_line_summary line e

  loop_goes_on :
      (line : Text) (rest : List Text) (e e' : Excerpts) (m : Modules)
      → take_line line e ≡ (false, e')
      → loop (line ∷ rest) e m ≡ loop rest e' (modules line m)
  loop_goes_on line rest e e' m h = loop_cons line rest e m ∙ ap (next line rest m) h

  loop_inside :
      (inside : List Text) (stop : Text) (rest : List Text) (l : Text) (ls : List Text)
      (e : Excerpts) (m : Modules)
      → e.summary ≡ l ∷ ls
      → All (Ends false) inside
      → Ends true stop
      → (loop (inside ++ (stop ∷ rest)) e m).0.summary ≡ (l ∷ ls) ++ inside
  loop_inside [] stop rest l ls e m s h k =
      loop_stops stop rest e m (started_cons l ls e stop s) k ∙ s ∙ sym (append-nil (l ∷ ls))
  loop_inside (line ∷ inside) stop rest l ls e m s (going, h) k =
      let e' : Excerpts = grab_line line (record e { summary = e.summary ++ (line ∷ []) }) in
      ap (λ r. r.0.summary)
        (loop_goes_on line (inside ++ (stop ∷ rest)) e e' m
          (take_line_next line e (started_cons l ls e line s) going))
      ∙ loop_inside inside stop rest l (ls ++ (line ∷ [])) e' (modules line m)
          (grab_line_summary line (record e { summary = e.summary ++ (line ∷ []) })
            ∙ ap (λ t. t ++ (line ∷ [])) s)
          h k
      ∙ append_assoc (l ∷ ls) (line ∷ []) inside

  loop_before :
      (before rest : List Text) (e : Excerpts) (m : Modules) (summary : List Text)
      → e.summary ≡ []
      → All (Starts false) before
      → ((m' : Modules) → (loop rest e m').0.summary ≡ summary)
      → (loop (before ++ rest) e m).0.summary ≡ summary
  loop_before [] rest e m summary s h k = k m
  loop_before (line ∷ before) rest e m summary s (quiet, h) k =
      ap (λ r. r.0.summary)
        (loop_goes_on line (before ++ rest) e e m (take_line_early line e (rw s quiet)))
      ∙ loop_before before rest e (modules line m) summary s h k

  -- Lines without a prompt, then one with a prompt, then lines up to one that is an end, none of
  -- them an end before it: the summary is the lines from the prompt to before the end, without their
  -- time stamps, and what follows the end makes no difference to it.
  pub get_summaries_block :
      (before : List Text) (first : Text) (inside : List Text) (stop : Text) (rest : List Text)
      → All (Starts false) before
      → Starts true first
      → Ends false first
      → All (Ends false) inside
      → Ends true stop
      → (get_summaries re unstamped without_flags last_unloaded sorted
          (before ++ (first ∷ (inside ++ (stop ∷ rest))))).0
        ≡ concat re unstamped without_flags last_unloaded sorted (map unstamped (first ∷ inside))
  unfolding get_summaries
  get_summaries_block before first inside stop rest quiet start going h k =
      let e : Excerpts = record { summary = []; call_trace = []; grab = none } in
      let m : Modules = record { modules = none; unloaded = none; getting = false } in
      let e' : Excerpts = grab_line first (record e { summary = first ∷ [] }) in
      ap (λ t. concat re unstamped without_flags last_unloaded sorted (map unstamped t))
        (loop_before before (first ∷ (inside ++ (stop ∷ rest))) e m (first ∷ inside) refl quiet
          λ m'.
            ap (λ r. r.0.summary)
              (loop_goes_on first (inside ++ (stop ∷ rest)) e e' m'
                (take_line_next first e start going))
            ∙ loop_inside inside stop rest first [] e' (modules first m')
                (grab_line_summary first (record e { summary = first ∷ [] })) h k)
