-- ===== src/Tests/Runtime.antt =====
-- Runs and instances for the integer domains of the runtime.
use telamon.Prelude.{
  ℕ, ◌≤◌, ◌<◌, ◌≡◌, refl, ◌≢◌, ◌↔◌, ◌⊎◌, true, false, some, List, [], ◌∷◌, arith, ◌∈◌,
}
use telamon.Runtime.NumSet.{u32_num_set, is_lt, is_gt, is_leq, is_geq, is_eq, is_neq}
use telamon.Runtime.NumSet.Order.{u32_lawful, comparisons_sound}
use telamon.Runtime.Range
use telamon.Runtime.Range.{Range, range_num_set}
use telamon.Runtime.Range.Lattice
use telamon.Runtime.Range.Lattice.{range_lawful, contains-Holds_iff}
use telamon.Runtime.Range.Diff.{apply_diff_add-get_diff_add, apply_diff_mul-get_diff_mul}
use telamon.Runtime.Range.Bounds.{new_bounds_sound}
use telamon.Runtime.HalfRange
use telamon.Runtime.HalfRange.{HalfRange}
use telamon.Runtime.HalfRange.Laws.{half_range_lawful, half_bounds_sound}
use telamon.Runtime.HalfRange.Laws as HalfLaws
use telamon.Runtime.NumericSet
use telamon.Runtime.NumericSet.{NumericSet}
use telamon.Runtime.NumericSet.Meaning as Values
use telamon.Runtime.NumericSet.Meaning.{list_values_iff}
use telamon.Runtime.NumericSet.Lattice.{restrict-insert_iff, all_of_sixteen}
use telamon.Runtime.NumericSet.Lattice.{complement_iff, contains_values_iff}
use telamon.Runtime.NumericSet.Ends.{ends}
use telamon.Runtime.NumericSet.Bounds.{new_bounds_exact}

abbrev tile : Range
tile = record { min = 2; max = 9 }

abbrev inner : Range
inner = record { min = 4; max = 8 }

abbrev nine : ℕ
nine = 9

comparisons_sound_example :
    (is_lt inner tt nine tt ≡ true → 5 < 9)
    × (is_gt inner tt nine tt ≡ true → 9 < 5)
    × (is_leq inner tt nine tt ≡ true → 5 ≤ 9)
    × (is_geq inner tt nine tt ≡ true → 9 ≤ 5)
    × (is_eq inner tt nine tt ≡ true → 5 ≡ nine)
    × (is_neq inner tt nine tt ≡ true → 5 ≢ nine)
comparisons_sound_example =
    comparisons_sound range_lawful u32_lawful inner tt nine tt 5 9 (omega arith) refl

below_nine : is_lt inner tt nine tt ≡ true
unfolding is_lt
below_nine = refl

inner_live : Range.is_failed inner ≡ false
unfolding Range.is_failed
inner_live = refl

contains-Holds_iff_example :
    (Range.contains tile inner ≡ true) ↔ ((a : ℕ) → Lattice.Holds inner a → Lattice.Holds tile a)
contains-Holds_iff_example = contains-Holds_iff tile inner inner_live

tile-contains : Range.contains tile inner ≡ true
unfolding Range.contains
tile-contains = refl

apply_diff_add-get_diff_add_example :
    Range.apply_diff_add tile (Range.get_diff_add tile inner) ≡ inner
apply_diff_add-get_diff_add_example =
    apply_diff_add-get_diff_add tile inner
      (record { min_word = omega arith; max_word = omega arith })
      (record { min_word = omega arith; max_word = omega arith }) tile-contains

abbrev wide : Range
wide = record { min = 2; max = 24 }

apply_diff_mul-get_diff_mul_example :
    (d : Range) × (Range.get_diff_mul wide inner ≡ some d)
    × (Range.apply_diff_mul wide d ≡ some inner)
apply_diff_mul-get_diff_mul_example =
    apply_diff_mul-get_diff_mul wide inner 2 3
      (record { min_word = omega arith; max_word = omega arith })
      (record { min_word = omega arith; max_word = omega arith }) (omega arith) (omega arith)
      (omega arith) refl refl

new_bounds_sound_example :
    (5 < 7 → Lattice.Holds (Range.new_gt inner tt) 7)
    × (7 < 5 → Lattice.Holds (Range.new_lt inner tt) 7)
    × (5 ≤ 7 → Lattice.Holds (Range.new_geq inner tt) 7)
    × (7 ≤ 5 → Lattice.Holds (Range.new_leq inner tt) 7)
    × (◌≡◌ {A = ℕ} 7 5 → Lattice.Holds (Range.new_eq inner tt) 7)
new_bounds_sound_example = new_bounds_sound range_lawful inner tt 7 5 (omega arith) (omega arith)

abbrev open_tile : HalfRange
open_tile = record { min = 2 }

abbrev open_inner : HalfRange
open_inner = record { min = 4 }

-- A universe of tile sizes, and the set of its first and third value.
abbrev sizes : List ℕ
sizes = 2 ∷ 4 ∷ 8 ∷ 16 ∷ []

abbrev picked : NumericSet
picked = record { enabled_values = 5 }

abbrev other : NumericSet
other = record { enabled_values = 4 }

picked_values : NumericSet.list_values picked sizes ≡ 2 ∷ 8 ∷ []
unfolding NumericSet.list_values
picked_values = refl

sizes-IsSorted : Values.IsSorted sizes
sizes-IsSorted = omega arith

restrict-insert_iff_example :
    (Values.Holds (NumericSet.restrict picked other) sizes 8
      ↔ Values.Holds picked sizes 8 × Values.Holds other sizes 8)
    × (Values.Holds (NumericSet.insert picked other) sizes 8
        ↔ (Values.Holds picked sizes 8 ⊎ Values.Holds other sizes 8))
restrict-insert_iff_example = restrict-insert_iff picked other sizes 8 sizes-IsSorted

all_of_sixteen_example :
    NumericSet.all (1 ∷ 2 ∷ 3 ∷ 4 ∷ 5 ∷ 6 ∷ 7 ∷ 8 ∷ 9 ∷ 10 ∷ 11 ∷ 12 ∷ 13 ∷ 14 ∷ 15 ∷ 16 ∷ [])
    ≡ NumericSet.failed
all_of_sixteen_example =
    all_of_sixteen (1 ∷ 2 ∷ 3 ∷ 4 ∷ 5 ∷ 6 ∷ 7 ∷ 8 ∷ 9 ∷ 10 ∷ 11 ∷ 12 ∷ 13 ∷ 14 ∷ 15 ∷ 16 ∷ []) refl

complement_iff_example :
    Values.Holds (NumericSet.complement picked sizes) sizes 4
    ↔ (4 ∈ sizes) × ¬ Values.Holds picked sizes 4
complement_iff_example = complement_iff picked sizes 4 sizes-IsSorted (omega arith) (omega arith)

contains_values_iff_example :
    (NumericSet.contains picked other ≡ true)
    ↔ ((v : ℕ) → Values.Holds other sizes v → Values.Holds picked sizes v)
contains_values_iff_example = contains_values_iff picked other sizes sizes-IsSorted (omega arith)

ends_example :
    (low high : ℕ) × (NumericSet.min_value picked sizes ≡ some low)
    × (NumericSet.max_value picked sizes ≡ some high)
    × Values.Holds picked sizes low
    × Values.Holds picked sizes high
    × ((v : ℕ) → Values.Holds picked sizes v → (low ≤ v) × (v ≤ high))
ends_example = ends picked sizes sizes-IsSorted (omega arith) (omega arith) (omega arith)

new_bounds_exact_example :
    (Values.Holds (NumericSet.new_gt sizes inner tt) sizes 8 ↔ (8 ∈ sizes) × (4 < 8))
    × (Values.Holds (NumericSet.new_lt sizes inner tt) sizes 8 ↔ (8 ∈ sizes) × (8 < 8))
    × (Values.Holds (NumericSet.new_geq sizes inner tt) sizes 8 ↔ (8 ∈ sizes) × (4 ≤ 8))
    × (Values.Holds (NumericSet.new_leq sizes inner tt) sizes 8 ↔ (8 ∈ sizes) × (8 ≤ 8))
new_bounds_exact_example = new_bounds_exact sizes inner tt 8 sizes-IsSorted (omega arith)

greater : NumericSet.new_gt sizes inner tt ≡ record { enabled_values = 12 }
unfolding NumericSet.new_gt
greater = refl
