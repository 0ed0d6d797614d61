-- ===== src/Runner/Phases/Gathered.antt =====
-- What a collection gathers from all helpers.
use steamos_log_submitter.Base.{
  String, true, false, List, [], ◌∷◌, ◌++◌, map, Option, none, some, Result, ok, raise, ◌>>=◌, ◌≡◌,
  refl, ap, sym, arith, Bool-cases, inl, inr, ◌⊎◌, Exc,
}
use mathlib.Core.Path.{subst}
use mathlib.Core.List.{Permᴰ, Perm, Perm-prop, append_assoc, perm_append_comm}
use mathlib.Core.List.Perm
use mathlib.Core.Logic.{∥∥₁_elim}
use steamos_log_submitter.Runner.Phases.{
  Client, Created, collect_category, selected, is_on, collect_fn, extend_all, wants_collect,
  collect, prefixed,
}

-- A category that brings nothing: no helper, one that is switched off, whose lock is held or whose
-- collection fails.
abbrev pub Silent : Result (Option Client) → Type 0
Silent (raise e) = ⊥
Silent (ok none) = Unit
Silent (ok (some h)) =
    (wants_collect h ≡ false)
    ⊎ (((e : Exc) × (h.collect_lock ≡ raise e)) ⊎ ((e : Exc) × (h.collection ≡ raise e)))

-- The same error, or the same logs in some order.
abbrev pub Same : Result (List String) → Result (List String) → Type 0
Same (ok xs) (ok ys) = Perm xs ys
Same (raise e) (raise f) = e ≡ f
Same _ _ = ⊥

abbrev Alike : Result (List Client) → Result (List Client) → Type 0
Alike (ok hs) (ok ks) = extend_all hs ≡ extend_all ks
Alike (raise e) (raise f) = e ≡ f
Alike _ _ = ⊥

Result-cases : {A : Type 0} (r : Result A) → ((a : A) × (r ≡ ok a)) ⊎ ((e : Exc) × (r ≡ raise e))
Result-cases (ok a) = inl (a, refl)
Result-cases (raise e) = inr (e, refl)

collect_category_unlocked :
    (h : Client) (e : Exc) → h.collect_lock ≡ raise e → collect_category h ≡ []
unfolding collect_category
collect_category_unlocked h e k = rw k refl

collect_category_failing : (h : Client) (e : Exc) → h.collection ≡ raise e → collect_category h ≡ []
unfolding collect_category
collect_category_failing h e k = elim (Result-cases h.collect_lock) [
  | inl (u, held) ↦ rw (held, k) refl
  | inr (f, held) ↦ rw held refl
]

collect_fn-Silent : (h : Client) → Silent (ok (some h)) → wants_collect h ≡ true → collect_fn h ≡ []
collect_fn-Silent h (inl off) on = ground (arith, off, on)
collect_fn-Silent h (inr (inl (e, k))) on = ap (map (prefixed h)) (collect_category_unlocked h e k)
collect_fn-Silent h (inr (inr (e, k))) on = ap (map (prefixed h)) (collect_category_failing h e k)

selected_skips :
    (h : Client) (rest : Created)
    → wants_collect h ≡ false
    → selected wants_collect (ok (some h) ∷ rest) ≡ selected wants_collect rest
unfolding selected
selected_skips h rest off = rw off refl

selected_takes :
    (h : Client) (rest : Created)
    → wants_collect h ≡ true
    → selected wants_collect (ok (some h) ∷ rest)
      ≡ (selected wants_collect rest >>= (λ others. ok (h ∷ others)))
unfolding selected
selected_takes h rest on = rw on refl

Alike-refl : (r : Result (List Client)) → Alike r r
Alike-refl (ok hs) = refl
Alike-refl (raise e) = refl

Alike-cons :
    (h : Client) (r q : Result (List Client))
    → Alike r q
    → Alike (r >>= (λ others. ok (h ∷ others))) (q >>= (λ others. ok (h ∷ others)))
Alike-cons h (ok hs) (ok ks) a = ap (λ t. collect_fn h ++ t) a
Alike-cons h (raise e) (raise f) a = a
Alike-cons h (ok hs) (raise f) a = elim a [ ]
Alike-cons h (raise e) (ok ks) a = elim a [ ]

Alike-nil :
    (h : Client) (r : Result (List Client))
    → collect_fn h ≡ []
    → Alike (r >>= (λ others. ok (h ∷ others))) r
Alike-nil h (ok hs) k = ap (λ t. t ++ extend_all hs) k
Alike-nil h (raise e) k = refl

selected_cons-Silent :
    (c : Result (Option Client)) (after : Created)
    → Silent c
    → Alike (selected wants_collect (c ∷ after)) (selected wants_collect after)
unfolding selected
selected_cons-Silent (raise e) after s = elim s [ ]
selected_cons-Silent (ok none) after s = Alike-refl (selected wants_collect after)
selected_cons-Silent (ok (some h)) after s = elim (Bool-cases (wants_collect h)) [
  | inl on ↦
      subst (λ r. Alike r (selected wants_collect after)) (sym (selected_takes h after on))
        (Alike-nil h (selected wants_collect after) (collect_fn-Silent h s on))
  | inr off ↦
      subst (λ r. Alike r (selected wants_collect after)) (sym (selected_skips h after off))
        (Alike-refl (selected wants_collect after))
]

selected-Silent :
    (before : Created) (c : Result (Option Client)) (after : Created)
    → Silent c
    → Alike
        (selected wants_collect (before ++ (c ∷ after)))
        (selected wants_collect (before ++ after))
unfolding selected
selected-Silent [] c after s = selected_cons-Silent c after s
selected-Silent (raise e ∷ before) c after s = refl
selected-Silent (ok none ∷ before) c after s = selected-Silent before c after s
selected-Silent (ok (some h) ∷ before) c after s = elim (Bool-cases (wants_collect h)) [
  | inl on ↦
      rw (selected_takes h (before ++ (c ∷ after)) on, selected_takes h (before ++ after) on)
        (Alike-cons h (selected wants_collect (before ++ (c ∷ after)))
          (selected wants_collect (before ++ after)) (selected-Silent before c after s))
  | inr off ↦
      rw (selected_skips h (before ++ (c ∷ after)) off, selected_skips h (before ++ after) off)
        (selected-Silent before c after s)
]

append_swap : (xs ys zs : List String) → Perm (xs ++ (ys ++ zs)) (ys ++ (xs ++ zs))
append_swap xs ys zs =
    subst (λ l. Perm l (ys ++ (xs ++ zs))) (append_assoc xs ys zs)
      (subst (λ l. Perm ((xs ++ ys) ++ zs) l) (append_assoc ys xs zs)
        (Perm.append_right zs (perm_append_comm xs ys)))

extend_all-Permᴰ : (hs ks : List Client) → Permᴰ hs ks → Perm (extend_all hs) (extend_all ks)
extend_all-Permᴰ _ _ Permᴰ.nil = Perm.refl []
extend_all-Permᴰ _ _ (Permᴰ.cons {a} {b} {l₁} {l₂} e d) =
    subst (λ h. Perm (collect_fn a ++ extend_all l₁) (collect_fn h ++ extend_all l₂)) e
      (Perm.append_left (collect_fn a) (extend_all-Permᴰ l₁ l₂ d))
extend_all-Permᴰ _ _ (Permᴰ.swap {a} {b} {a'} {b'} {l} e f) =
    subst (λ h. Perm (extend_all (a ∷ b ∷ l)) (collect_fn a' ++ (collect_fn h ++ extend_all l))) e
      (subst (λ h. Perm (extend_all (a ∷ b ∷ l)) (collect_fn h ++ (collect_fn a ++ extend_all l))) f
        (append_swap (collect_fn a) (collect_fn b) (extend_all l)))
extend_all-Permᴰ _ _ (Permᴰ.trans {l₁} {l₂} {l₃} d e) =
    Perm.trans (extend_all-Permᴰ l₁ l₂ d) (extend_all-Permᴰ l₂ l₃ e)

extend_all-Perm : (hs ks : List Client) → Perm hs ks → Perm (extend_all hs) (extend_all ks)
extend_all-Perm hs ks p = ∥∥₁_elim p Perm-prop (extend_all-Permᴰ hs ks)

module _ (done : List Client → List Client)
    (all_done : (tasks : List Client) → Perm (done tasks) tasks) where
  done-Same :
      (r q : Result (List Client))
      → Alike r q
      → Same
          (r >>= (λ tasks. ok (extend_all (done tasks))))
          (q >>= (λ tasks. ok (extend_all (done tasks))))
  done-Same (ok hs) (ok ks) a = Perm.trans (extend_all-Perm (done hs) hs (all_done hs)) (
      subst (λ l. Perm l (extend_all (done ks))) (sym a)
        (Perm.symm (extend_all-Perm (done ks) ks (all_done ks))))
  done-Same (raise e) (raise f) a = a
  done-Same (ok hs) (raise f) a = elim a [ ]
  done-Same (raise e) (ok ks) a = elim a [ ]

  collect_on :
      (setting : Option String) (categories : Created)
      → is_on setting ≡ true
      → collect done setting categories
        ≡ (selected wants_collect categories >>= (λ tasks. ok (extend_all (done tasks))))
  unfolding collect
  collect_on setting categories on = rw (on, collect) refl

  collect_off :
      (setting : Option String) (categories : Created)
      → is_on setting ≡ false
      → collect done setting categories ≡ ok []
  unfolding collect
  collect_off setting categories off = rw (off, collect) refl

  -- A category without a helper, or whose helper is switched off, cannot take its lock or fails to
  -- collect, costs the others nothing: the collection gives the same logs as without it, up to their
  -- order, or ends with the same error. `done` gives all tasks in some order.
  pub collect-Silent :
      (setting : Option String) (before : Created) (c : Result (Option Client)) (after : Created)
      → Silent c
      → Same (collect done setting (before ++ (c ∷ after))) (collect done setting (before ++ after))
  collect-Silent setting before c after s = elim (Bool-cases (is_on setting)) [
    | inl on ↦
        rw (collect_on setting (before ++ (c ∷ after)) on, collect_on setting (before ++ after) on)
          (done-Same (selected wants_collect (before ++ (c ∷ after)))
            (selected wants_collect (before ++ after)) (selected-Silent before c after s))
    | inr off ↦
        rw
          (
            collect_off setting (before ++ (c ∷ after)) off,
            collect_off setting (before ++ after) off,
          )
          (Perm.refl [])
  ]
