-- ===== src/Tests/Permutations.antt =====
-- Runs and instances for the partial permutations.
use telamon.Prelude.{ℕ, zero, suc, ◌≡◌, refl, false, Option, none, some, List, [], ◌∷◌, arith}
use telamon.Prelude.Order.{nat_ord}
use telamon.Utils.Permutations.{PartialPermutations, new, next}
use telamon.Utils.Permutations.Bounds.{AreDistinct, Yields, next-Yields}

-- What `fuel` calls of `next` yield; `none` is a panic.
abbrev collected : ℕ → PartialPermutations ℕ → Option (List (List ℕ))
collected zero s = some []
collected (suc fuel) s = elim (next s) [
  | none ↦ none
  | some (none, _) ↦ some []
  | some (some xs, after) ↦ elim (collected fuel after) [
    | none ↦ none
    | some rest ↦ some (xs ∷ rest)
  ]
]

pairs_of_three :
    collected 9 (new (3 ∷ 1 ∷ 2 ∷ []) 2)
    ≡ some (
        (1 ∷ 2 ∷ [])
        ∷ (1 ∷ 3 ∷ [])
        ∷ (2 ∷ 1 ∷ [])
        ∷ (2 ∷ 3 ∷ [])
        ∷ (3 ∷ 1 ∷ [])
        ∷ (3 ∷ 2 ∷ [])
        ∷ [])
unfolding new next
pairs_of_three = refl

-- A value that is given twice: the position of a greater one is not found.
repeated_values : collected 9 (new (1 ∷ 1 ∷ []) 1) ≡ none
unfolding new next
repeated_values = refl

abbrev two_values : PartialPermutations ℕ
two_values = record { permutation = 1 ∷ 2 ∷ []; finished = false; k = 1 }

two_values-AreDistinct : AreDistinct two_values.permutation
two_values-AreDistinct zero zero x p q = refl
two_values-AreDistinct zero (suc zero) x p q = ground arith
two_values-AreDistinct zero (suc (suc j)) x p q = ground arith
two_values-AreDistinct (suc zero) zero x p q = ground arith
two_values-AreDistinct (suc zero) (suc zero) x p q = refl
two_values-AreDistinct (suc zero) (suc (suc j)) x p q = ground arith
two_values-AreDistinct (suc (suc i)) j x p q = ground arith

next-Yields_example : Yields two_values
next-Yields_example = next-Yields two_values two_values-AreDistinct refl (omega arith)
