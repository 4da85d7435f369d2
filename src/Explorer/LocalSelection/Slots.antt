-- ===== src/Explorer/LocalSelection/Slots.antt =====
-- src/explorer/local_selection.rs: the slots of the children that a rollout has not tried.
use telamon.Prelude.{
  ℕ, zero, suc, ◌+◌, ◌≤◌, ◌≡◌, refl, sym, ap, ◌∙◌, ◌↔◌, ◌⊎◌, inl, inr, Option, none, some, List, [],
  ◌∷◌, arith, Option-cases, length, get_elem?, set, ◌∈◌,
}
use telamon.Prelude.Order.{Ord}
use telamon.Explorer.Candidate.{Candidate, apply_choice, apply_decision}
use telamon.Explorer.LocalSelection.{Rollout, slots_of, live_from}
use mathlib.Core.Option.{some-injective}

module _ {S A B : Type 0} where
  abbrev pub filled : List (Option (Candidate S A B)) → ℕ
  filled [] = 0
  filled (none ∷ slots) = filled slots
  filled (some c ∷ slots) = suc (filled slots)

  pub filled-set :
      (slots : List (Option (Candidate S A B))) (i : ℕ) (c : Candidate S A B)
      → get_elem? slots i ≡ some (some c)
      → suc (filled (set slots i none)) ≡ filled slots
  filled-set [] i c e = ground arith
  filled-set (none ∷ slots) zero c e = ground arith
  filled-set (some x ∷ slots) zero c e = refl
  filled-set (none ∷ slots) (suc i) c e = filled-set slots i c e
  filled-set (some x ∷ slots) (suc i) c e = ap suc (filled-set slots i c e)

  pub set_cases :
      (slots : List (Option (Candidate S A B))) (i : ℕ) (c child : Candidate S A B)
      → get_elem? slots i ≡ some (some c)
      → some child ∈ slots
      → (child ≡ c) ⊎ (some child ∈ set slots i none)
  set_cases [] i c child e m = absurd m
  set_cases (s ∷ slots) zero c child e (inl k) = inl (some-injective _ _ (k ∙ some-injective _ _ e))
  set_cases (s ∷ slots) zero c child e (inr m) = inr (inr m)
  set_cases (s ∷ slots) (suc i) c child e (inl k) = inr (inl k)
  set_cases (s ∷ slots) (suc i) c child e (inr m) = elim (set_cases slots i c child e m) [
    | inl k ↦ inl k
    | inr n ↦ inr (inr n)
  ]

  pub set_was :
      (slots : List (Option (Candidate S A B))) (i : ℕ) (child : Candidate S A B)
      → some child ∈ set slots i none
      → some child ∈ slots
  set_was [] i child m = m
  set_was (s ∷ slots) zero child (inl e) = ground arith
  set_was (s ∷ slots) zero child (inr m) = inr m
  set_was (s ∷ slots) (suc i) child (inl e) = inl e
  set_was (s ∷ slots) (suc i) child (inr m) = inr (set_was slots i child m)

  pub mem_of_read :
      (slots : List (Option (Candidate S A B))) (i : ℕ) (c : Candidate S A B)
      → get_elem? slots i ≡ some (some c)
      → some c ∈ slots
  mem_of_read [] i c e = ground arith
  mem_of_read (s ∷ slots) zero c e = inl (sym (some-injective _ _ e))
  mem_of_read (s ∷ slots) (suc i) c e = inr (mem_of_read slots i c e)

module _ {S A B G : Type 0} ⦃o : Ord B⦄ (w : Rollout S A B G) where
  pub filled-le :
      (c : Candidate S A B) (choice : List A) → filled (slots_of w c choice) ≤ length choice
  unfolding slots_of
  filled-le c [] = omega arith
  filled-le c (a ∷ choice) = elim (Option-cases (apply_decision w.world c a)) [
    | inl e ↦ rw (e, slots_of) (omega (arith, filled-le c choice))
    | inr (child, e) ↦ rw (e, slots_of) (omega (arith, filled-le c choice))
  ]

  pub slots_iff :
      (c child : Candidate S A B) (choice : List A)
      → (some child ∈ slots_of w c choice) ↔ (child ∈ apply_choice w.world c choice)
  unfolding slots_of apply_choice
  slots_iff c child [] = (λ m. m, λ m. m)
  slots_iff c child (a ∷ choice) =
      let rest = slots_iff c child choice in
      elim (Option-cases (apply_decision w.world c a)) [
        | inl e ↦
            rw (e, slots_of, apply_choice)
              (elim [ inl k ↦ ground arith | inr m ↦ rest.0 m ], λ m. inr (rest.1 m))
        | inr (new, e) ↦
            rw (e, slots_of, apply_choice)
              (
                elim [ inl k ↦ inl (some-injective _ _ k) | inr m ↦ inr (rest.0 m) ],
                elim [ inl k ↦ inl (ap some k) | inr m ↦ inr (rest.1 m) ],
              )
      ]

  pub live_from-read :
      (k : ℕ) (slots : List (Option (Candidate S A B))) (i : ℕ) (b : B)
      → (i, b) ∈ live_from w k slots
      → (j : ℕ) × (child : Candidate S A B) × (i ≡ k + j)
        × (get_elem? slots j ≡ some (some child))
        × (b ≡ child.bound)
  unfolding live_from
  live_from-read k [] i b m = absurd m
  live_from-read k (none ∷ slots) i b m =
      let (j, child, e, read, same) = live_from-read (k + 1) slots i b m in
      (suc j, child, omega arith, read, same)
  live_from-read k (some child ∷ slots) i b (inl e) =
      (0, child, ap (λ n. n.0) e ∙ omega arith, refl, ap (λ n. n.1) e)
  live_from-read k (some c ∷ slots) i b (inr m) =
      let (j, child, e, read, same) = live_from-read (k + 1) slots i b m in
      (suc j, child, omega arith, read, same)

  pub live_from-mem :
      (k : ℕ) (slots : List (Option (Candidate S A B))) (child : Candidate S A B)
      → some child ∈ slots
      → (i : ℕ) × ((i, child.bound) ∈ live_from w k slots)
  unfolding live_from
  live_from-mem k [] child m = absurd m
  live_from-mem k (none ∷ slots) child (inl e) = ground arith
  live_from-mem k (none ∷ slots) child (inr m) = live_from-mem (k + 1) slots child m
  live_from-mem k (some c ∷ slots) child (inl e) =
      (k, inl (ap (λ (c : Candidate S A B). (k, c.bound)) (some-injective _ _ e)))
  live_from-mem k (some c ∷ slots) child (inr m) =
      let (i, n) = live_from-mem (k + 1) slots child m in (i, inr n)

  pub length-live_from :
      (k : ℕ) (slots : List (Option (Candidate S A B)))
      → length (live_from w k slots) ≡ filled slots
  unfolding live_from
  length-live_from k [] = refl
  length-live_from k (none ∷ slots) = length-live_from (k + 1) slots
  length-live_from k (some c ∷ slots) = ap suc (length-live_from (k + 1) slots)
