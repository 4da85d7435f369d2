-- ===== src/Runtime/Conversions.antt =====
-- telamon-gen/src/print/runtime: the conversions of a domain into a `NumericSet` of another universe, and
-- the divisors and multiples of a set. `gcd` and `lcm` of the crate num are parameters.
use telamon.Prelude.{
  ℕ, ◌+◌, ◌-◌, ◌%◌, bit_and, bit_or, Bool, ◌||◌, Option, none, some, List, [], ◌∷◌, ltb, ◌==◌,
  if◌then◌else◌, shl16_one,
}
use telamon.Runtime.NumSet.{NumSet}
use telamon.Runtime.NumericSet
use telamon.Runtime.NumericSet.{NumericSet, binary_search, place, ones, shl16}

abbrev usize_mod : ℕ
usize_mod = 18_446_744_073_709_551_616

-- The default method of `NumSet`, in integer_domain.rs.
module _ {D U : Type 0} ⦃n : NumSet D U⦄ where
  unfoldable pub into_num_set : D → U → List ℕ → NumericSet
  unfolding binary_search
  into_num_set d u universe =
      let start = place (binary_search (n.min_value d u) universe) in
      let len =
        (place (binary_search (n.max_value d u) universe) + usize_mod - start + 1) % usize_mod in
      record { enabled_values = shl16 (ones len) start }

-- The loop over the values of a slice: the place `idx` of the new universe, of which `rest` is left.
unfoldable pub slice_from : ℕ → List ℕ → List ℕ → ℕ → ℕ
slice_from idx rest [] enabled = enabled
slice_from idx [] (v ∷ values) enabled = enabled
slice_from idx (x ∷ rest) (v ∷ values) enabled =
    let skip = slice_from (idx + 1) rest (v ∷ values) enabled in
    let hit = slice_from idx (x ∷ rest) values (bit_or enabled (shl16_one idx)) in
    let miss = slice_from idx (x ∷ rest) values enabled in
    if ltb x v then skip else if x == v then hit else miss

-- `into_num_set` of a slice, in integer_domain.rs.
unfoldable pub slice_into_num_set : List ℕ → List ℕ → NumericSet
unfolding slice_from
slice_into_num_set values universe = record { enabled_values = slice_from 0 universe values 0 }

-- The loop over the new universe, from place `idx` of it on: the place `self_idx` of the universe of the
-- set, of which `rest` is left.
unfoldable pub set_from : ℕ → ℕ → List ℕ → ℕ → List ℕ → ℕ → ℕ
set_from bits self_idx rest idx [] enabled = enabled
set_from bits self_idx [] idx (v ∷ values) enabled = enabled
set_from bits self_idx (x ∷ rest) idx (v ∷ values) enabled =
    let skip = set_from bits (self_idx + 1) rest idx (v ∷ values) enabled in
    let hit = set_from bits self_idx (x ∷ rest) (idx + 1) values (bit_or enabled (shl16_one idx)) in
    let miss = set_from bits self_idx (x ∷ rest) (idx + 1) values enabled in
    if bit_and bits (shl16_one self_idx) == 0 || ltb x v then skip else if x == v then hit else miss

-- `into_num_set` of a `NumericSet`, in integer_set.rs.
unfoldable pub set_into_num_set : NumericSet → List ℕ → List ℕ → NumericSet
unfolding set_from
set_into_num_set s universe new_universe = record {
  enabled_values = set_from s.enabled_values 0 universe 0 new_universe 0;
}

-- `is_neq` of a `NumericSet`, with another `NumericSet`. `none` is a set that is not in its universe.
unfoldable pub is_neq : NumericSet → List ℕ → NumericSet → List ℕ → Option Bool
unfolding set_into_num_set
is_neq s universe other other_universe =
    answer (NumericSet.min_value s universe) (NumericSet.max_value s universe)
      (NumericSet.min_value other other_universe) (NumericSet.max_value other other_universe)
  where
    answer : Option ℕ → Option ℕ → Option ℕ → Option ℕ → Option Bool
    answer (some low) (some high) (some other_low) (some other_high) = some (
        ltb other_high low
        || ltb high other_low
        || NumericSet.is_failed (set_into_num_set other other_universe universe))
    answer low high other_low other_high = none

-- `new_eq` of a `NumericSet`, from another `NumericSet`.
unfoldable pub new_eq : List ℕ → NumericSet → List ℕ → NumericSet
unfolding set_into_num_set
new_eq universe eq eq_universe = set_into_num_set eq eq_universe universe

-- `fold1` of itertools, and `unwrap_or`.
abbrev pub fold_from : (ℕ → ℕ → ℕ) → ℕ → List ℕ → ℕ
fold_from f acc [] = acc
fold_from f acc (x ∷ xs) = fold_from f (f acc x) xs

abbrev pub fold1_or : (ℕ → ℕ → ℕ) → ℕ → List ℕ → ℕ
fold1_or f default [] = default
fold1_or f default (x ∷ xs) = fold_from f x xs

unfoldable pub gcd : (ℕ → ℕ → ℕ) → NumericSet → List ℕ → ℕ
unfolding NumericSet.list_values
gcd num_gcd s universe = fold1_or num_gcd 1 (NumericSet.list_values s universe)

unfoldable pub lcm : (ℕ → ℕ → ℕ) → NumericSet → List ℕ → ℕ
unfolding NumericSet.list_values
lcm num_lcm s universe = fold1_or num_lcm 1 (NumericSet.list_values s universe)
