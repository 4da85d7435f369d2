-- ===== src/Tests/Rollouts.antt =====
-- Runs and instances for the rollouts, on a tree of one decision: the actions 1, 2 and 3 of the space 0,
-- of which the last is invalid. The bound of a space is its number.
use telamon.Prelude.{
  ℕ, zero, suc, ◌+◌, ◌-◌, ◌*◌, ◌/◌, ◌≤◌, ◌<◌, ltb, u32_mod, true, false, lt→ltb, length, ◌≡◌, refl,
  sym, ap, subst, inl, inr, Option, none, some, List, [], ◌∷◌, arith, ◌==◌, if◌then◌else◌, ◌∈◌,
}
use mathlib.Core.Option.{some-injective}
use telamon.Prelude.Order.{nat_ord}
use telamon.Explorer.Candidate.{Candidate, Space, apply_choice}
use telamon.Explorer.LocalSelection.{Rollout, descend_backtrack, descend_with_path}
use telamon.Explorer.NodeOrder.{
  weighted_random, bound_order, Floats, Generator, total_weight, weight_of, pick_index,
}
use telamon.Explorer.LocalSelection.Weights.{IsLight}
use telamon.Explorer.LocalSelection.Picking.{IsPick, IsBest, pick_index-IsPick}
use telamon.Explorer.LocalSelection.Backtracking.{
  IsWithin, AreLight, IsAnswer, descend_backtrack-IsAnswer,
}
use telamon.Explorer.LocalSelection.Paths.{Rolls, descend-IsTrail}

abbrev pub apply_to : ℕ → ℕ → Option ℕ
apply_to a s = if a == 3 then none else some (s * 10 + a)

abbrev pub tree : Space ℕ ℕ ℕ
tree = record { apply_to = apply_to; bound = λ s. s }

-- The state of the generator counts the draws. A draw of the crate is the lowest number or the first item.
abbrev first_item : List (ℕ × ℕ) → ℕ → Option (ℕ × ℕ)
first_item [] g = none
first_item ((weight, item) ∷ items) g = some (item, g + 1)

-- The documented panics of `WeightedChoice::new`.
abbrev weighted_choice : List (ℕ × ℕ) → ℕ → Option (ℕ × ℕ)
weighted_choice items g =
    if total_weight items == 0
    then none
    else (if ltb (total_weight items) u32_mod then first_item items g else none)

first_item-draws :
    (items : List (ℕ × ℕ)) (g : ℕ)
    → 0 < total_weight items
    → (item : ℕ) × (next : ℕ) × (first_item items g ≡ some (item, next))
      × (weight : ℕ) × ((weight, item) ∈ items)
first_item-draws [] g p = absurd (omega (arith, p))
first_item-draws ((weight, item) ∷ items) g p = (item, g + 1, refl, weight, inl refl)

weighted_choice-draws :
    (items : List (ℕ × ℕ)) (g : ℕ)
    → 0 < total_weight items
    → total_weight items < u32_mod
    → (item : ℕ) × (next : ℕ) × (weighted_choice items g ≡ some (item, next))
      × (weight : ℕ) × ((weight, item) ∈ items)
weighted_choice-draws items g p q =
    let (item, next, e, weight, m) = first_item-draws items g p in
    let filled : (total_weight items == 0) ≡ false = ground arith in
    let fits : ltb (total_weight items) u32_mod ≡ true = lt→ltb _ _ q in
    (item, next, rw (filled, fits) e, weight, m)

abbrev generator : Generator ℕ
generator = record {
  gen_range = λ low high g. (low, g + 1);
  weighted_choice = weighted_choice;
  gen_range-within = λ low high g l. (omega arith, l);
  weighted_choice-draws = weighted_choice-draws;
}

-- The floats are numbers, none of them infinite.
abbrev floats : Floats ℕ
floats = record {
  of_nat = λ n. n;
  mul = λ a b. a * b;
  div = λ a b. a / b;
  sub = λ a b. a - b;
  floor_u32 = λ a. if ltb a 4_294_967_295 then a else 4_294_967_295;
  is_infinite = λ a. false;
}

-- The same with an infinite cut, and the division by 0 that is greater than any `u32`.
abbrev infinite_floats : Floats ℕ
infinite_floats = record {
  of_nat = λ n. n;
  mul = λ a b. a * b;
  div = λ a b. if b == 0 then 5_000_000_000 else a / b;
  sub = λ a b. a - b;
  floor_u32 = λ a. if ltb a 4_294_967_295 then a else 4_294_967_295;
  is_infinite = λ a. true;
}

-- The weight of a bound of 0 beside a greater one is 0 in a release build.
zero_weight : weight_of infinite_floats 1_000_000_000 5 0 ≡ 0
unfolding weight_of
zero_weight = refl

-- The total of these weights is not a `u32`.
total_overflow :
    pick_index generator infinite_floats weighted_random
      ((0, 1) ∷ (1, 1) ∷ (2, 300_000_000) ∷ [])
      1_000_000_000
      0
    ≡ none
unfolding pick_index
total_overflow = refl

best_run :
    pick_index generator floats bound_order ((0, 4) ∷ (1, 3) ∷ (2, 3) ∷ (3, 9) ∷ []) 5 0
    ≡ some (some 1, 0)
unfolding pick_index
best_run = refl

abbrev next_choice : ℕ → Option (List ℕ)
next_choice s = if s == 0 then some (1 ∷ 2 ∷ 3 ∷ []) else none

abbrev rollout : Rollout ℕ ℕ ℕ ℕ
rollout = record {
  world = tree;
  next_choice = next_choice;
  node_order = weighted_random;
  floats = floats;
  generator = generator;
  cut = 2;
}

abbrev root : Candidate ℕ ℕ ℕ
root = record { space = 0; bound = 0; depth = 0; actions = [] }

abbrev leaf_one : Candidate ℕ ℕ ℕ
leaf_one = record { space = 1; bound = 1; depth = 1; actions = 1 ∷ [] }

backtrack_run : descend_backtrack rollout 2 root 0 ≡ some (some leaf_one, 1)
unfolding descend_backtrack
backtrack_run = refl

path_run : descend_with_path rollout 2 root [] 0 ≡ some ((some leaf_one, 1), root ∷ [])
unfolding descend_with_path
path_run = refl

abbrev nodes : List (ℕ × ℕ)
nodes = (0, 5) ∷ (1, 3) ∷ (2, 4) ∷ []

-- With these floats a weight is 1000 at a bound below the cut, and 1 elsewhere.
weight-within : (cut y x : ℕ) → (1 ≤ weight_of floats cut y x) × (weight_of floats cut y x ≤ 1000)
unfolding weight_of
weight-within cut y x = at (1 - x / cut) (omega arith)
  where
    at :
        (z : ℕ)
        → z ≤ 1
        → (1 ≤ (if ltb (floats.floor_u32 (1000 * z)) 1 then 1 else floats.floor_u32 (1000 * z)))
          × ((if ltb (floats.floor_u32 (1000 * z)) 1 then 1 else floats.floor_u32 (1000 * z))
              ≤ 1000)
    at zero l = (omega arith, omega arith)
    at (suc zero) l = (omega arith, omega arith)
    at (suc (suc z)) l = absurd (omega (arith, l))

three-IsLight : (cut n : ℕ) (P : ℕ → Type 0) → n ≤ 3 → IsLight floats weighted_random cut n P
three-IsLight cut n P l e = (1000, omega (arith, l), λ x y p q. weight-within cut y x)

pick_index-IsPick_example :
    (picked : Option ℕ) × (next : ℕ) × (pick_index generator floats weighted_random nodes 5 0
      ≡ some (picked, next))
    × IsPick nodes 5 picked
    × IsBest weighted_random nodes picked
pick_index-IsPick_example =
    pick_index-IsPick generator floats weighted_random nodes 5 0
      (three-IsLight 5 3 (λ x. (i : ℕ) × ((i, x) ∈ nodes)) (omega arith))

child_spaces :
    (child : Candidate ℕ ℕ ℕ) → child ∈ apply_choice tree root (1 ∷ 2 ∷ 3 ∷ []) → 0 < child.space
unfolding apply_choice
child_spaces child (inl e) = omega (arith, ap (λ (c : Candidate ℕ ℕ ℕ). c.space) e)
child_spaces child (inr (inl e)) = omega (arith, ap (λ (c : Candidate ℕ ℕ ℕ). c.space) e)
child_spaces child (inr (inr m)) = absurd m

root-IsWithin : IsWithin rollout 2 root
root-IsWithin choice e child m other f =
    let same = some-injective _ _ e in
    let deep = child_spaces child (subst (λ ch. child ∈ apply_choice tree root ch) (sym same) m) in
    ground arith

root_choice : (choice : List ℕ) → rollout.next_choice root.space ≡ some choice → length choice ≤ 3
root_choice choice e = subst (λ ch. length ch ≤ 3) (some-injective _ _ e) (omega arith)

child_choice : (s : ℕ) → 0 < s → (choice : List ℕ) → rollout.next_choice s ≡ some choice → ⊥
child_choice s l choice e = ground arith

root-AreLight : AreLight rollout 2 root
root-AreLight choice e = (
  three-IsLight 2 (length choice)
      (λ x. (child : Candidate ℕ ℕ ℕ) × (child ∈ apply_choice tree root choice) × (x ≡ child.bound))
      (root_choice choice e),
  λ child m other f.
      let same = some-injective _ _ e in
      absurd (
        child_choice child.space
          (child_spaces child (subst (λ ch. child ∈ apply_choice tree root ch) (sym same) m)) other
          f),
)

descend_backtrack-IsAnswer_example :
    (r : Option (Candidate ℕ ℕ ℕ)) × (next : ℕ) × (descend_backtrack rollout 2 root 0
      ≡ some (r, next))
    × IsAnswer rollout root r
descend_backtrack-IsAnswer_example =
    descend_backtrack-IsAnswer rollout 2 root 0 root-IsWithin root-AreLight

descend-IsTrail_example : Rolls rollout 2 root 0
descend-IsTrail_example = descend-IsTrail rollout 2 root 0 root-IsWithin root-AreLight
