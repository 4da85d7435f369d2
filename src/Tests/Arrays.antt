-- ===== src/Tests/Arrays.antt =====
-- Runs and instances for arrays, on the sizes that the tests of the source use.
use telamon.Prelude.{ℕ, ◌<◌, ◌≡◌, refl, some, List, [], ◌∷◌, map, arith, length, get_elem?, All}
use telamon.Utils.NdArray
use telamon.Utils.NdArray.{
  NdArray, product, fold_index, range_new, range_next, ViewMut, view_mut, split, flat_index,
}
use telamon.Utils.NdArray.Enumeration.{IsWithin, visit, count, visit-range_new}
use telamon.Utils.NdArray.Views.{IsPart, split-IsPart}

abbrev sizes : List ℕ
sizes = 2 ∷ 3 ∷ []

-- The test of the source.
visited :
    visit 7 (range_new sizes)
    ≡ (0 ∷ 0 ∷ []) ∷ (0 ∷ 1 ∷ []) ∷ (0 ∷ 2 ∷ []) ∷ (1 ∷ 0 ∷ []) ∷ (1 ∷ 1 ∷ []) ∷ (1 ∷ 2 ∷ []) ∷ []
unfolding range_new range_next
visited = refl

visit-range_new_example :
    All (IsWithin sizes) (visit 7 (range_new sizes))
    × (map (fold_index 0 sizes) (visit 7 (range_new sizes)) ≡ count 0 (product sizes))
visit-range_new_example = visit-range_new sizes 7 (omega arith)

abbrev array : NdArray ℕ
array = record { dims = sizes; cells = 10 ∷ 11 ∷ 12 ∷ 13 ∷ 14 ∷ 15 ∷ [] }

read_run : NdArray.index array (1 ∷ 1 ∷ []) ≡ some 14
unfolding NdArray.index
read_run = refl

-- A view of a cube with its middle dimension fixed.
abbrev cube : List ℕ
cube = 2 ∷ 3 ∷ 4 ∷ []

abbrev slice : ViewMut
slice = record { bounds = 2 ∷ 4 ∷ []; fixed_indexes = (1, 2) ∷ [] }

slice_run : flat_index cube slice (1 ∷ 3 ∷ []) ≡ some 23
unfolding flat_index
slice_run = refl

split-IsPart_example :
    (views : List ViewMut) × (split slice 1 ≡ some views)
    × (length views ≡ 4)
    × ((idx : ℕ)
        → idx < 4
        → (w : ViewMut) × (get_elem? views idx ≡ some w) × IsPart cube slice w 1 idx)
split-IsPart_example = split-IsPart cube slice 1 4 (omega arith, tt) refl refl
