-- ===== src/Tests/VecSets.antt =====
-- Runs and instances for `VecSet`, over numbers.
use telamon.Prelude.{ℕ, ◌≡◌, refl, ◌↔◌, ◌⊎◌, Bool, true, none, some, List, [], ◌∷◌, arith, ltb, ◌∈◌}
use telamon.Prelude.Order.{nat_ord, IsAscending}
use telamon.Utils.VecSet
use telamon.Utils.VecSet.{VecSet}
use telamon.Utils.VecSet.Members.{IsValid, ◌∈ₛ◌, insert-IsValid, operations-IsValid}
use telamon.Utils.VecSet.Sorting.{new-IsValid}
use telamon.Utils.VecSet.Compare.{Means, partial_cmp-Means}
use telamon.Utils.VecSet.Iterators.{iterators-visit}
use telamon.Utils.VecSet.InPlace.{relative_difference}
use telamon.Utils.VecSet.InPlace.Refines.{relative_difference-IsValid}

abbrev left : VecSet ℕ
left = record { items = 0 ∷ 2 ∷ 3 ∷ 5 ∷ [] }

abbrev right : VecSet ℕ
right = record { items = 0 ∷ 1 ∷ 2 ∷ 4 ∷ 6 ∷ [] }

left-IsValid : IsValid left
left-IsValid = ground arith

right-IsValid : IsValid right
right-IsValid = ground arith

-- The test of the source.
differences :
    relative_difference left right
    ≡ some (record { items = 3 ∷ 5 ∷ [] }, record { items = 1 ∷ 4 ∷ 6 ∷ [] })
unfolding relative_difference
differences = refl

abbrev unsorted : List ℕ
unsorted = 5 ∷ 3 ∷ 5 ∷ 0 ∷ 2 ∷ 3 ∷ []

sorted : VecSet.new unsorted ≡ left
unfolding VecSet.new
sorted = refl

new-IsValid_example :
    IsValid (VecSet.new unsorted) × ((a : ℕ) → (a ∈ₛ VecSet.new unsorted) ↔ (a ∈ unsorted))
new-IsValid_example = new-IsValid unsorted

insert-IsValid_example :
    IsValid (VecSet.insert left 4).0
    × ((a : ℕ) → (a ∈ₛ (VecSet.insert left 4).0) ↔ ((a ≡ 4) ⊎ (a ∈ₛ left)))
    × (((VecSet.insert left 4).1 ≡ true) ↔ ¬ (4 ∈ₛ left))
insert-IsValid_example = insert-IsValid left 4 left-IsValid

abbrev is_small : ℕ → Bool
is_small a = ltb a 3

operations-IsValid_example :
    IsValid (VecSet.union left right)
    × IsValid (VecSet.intersect left right)
    × IsValid (VecSet.filter left is_small)
    × ((a : ℕ)
        → ((a ∈ₛ VecSet.union left right) ↔ ((a ∈ₛ left) ⊎ (a ∈ₛ right)))
          × ((a ∈ₛ VecSet.intersect left right) ↔ (a ∈ₛ left) × (a ∈ₛ right))
          × ((a ∈ₛ VecSet.filter left is_small) ↔ (a ∈ₛ left) × (is_small a ≡ true)))
operations-IsValid_example = operations-IsValid left right is_small left-IsValid right-IsValid

partial_cmp-Means_example : Means left right (VecSet.partial_cmp left right)
partial_cmp-Means_example = partial_cmp-Means left right left-IsValid right-IsValid

unordered : VecSet.partial_cmp left right ≡ none
unfolding VecSet.partial_cmp
unordered = refl

iterators-visit_example :
    IsAscending (VecSet.difference left right)
    × IsAscending (VecSet.intersection left right)
    × ((a : ℕ)
        → ((a ∈ VecSet.difference left right) ↔ (a ∈ₛ left) × ¬ (a ∈ₛ right))
          × ((a ∈ VecSet.intersection left right) ↔ (a ∈ₛ left) × (a ∈ₛ right)))
iterators-visit_example = iterators-visit left right left-IsValid right-IsValid

relative_difference-IsValid_example :
    (s' t' : VecSet ℕ) × (relative_difference left right ≡ some (s', t'))
    × IsValid s'
    × IsValid t'
    × ((a : ℕ)
        → ((a ∈ₛ s') ↔ (a ∈ₛ left) × ¬ (a ∈ₛ right)) × ((a ∈ₛ t') ↔ (a ∈ₛ right) × ¬ (a ∈ₛ left)))
relative_difference-IsValid_example =
    relative_difference-IsValid left right left-IsValid right-IsValid
