-- ===== src/Tests/Models.antt =====
-- Runs and instances for the bounds of sizes and for the conversions of domains.
use telamon.Prelude.{ℕ, ◌*◌, ◌≤◌, ◌≡◌, refl, ap, some, List, [], ◌∷◌, arith}
use Prim.Native.Nat.{min}
use mathlib.Core.Option.{some-injective}
use telamon.Ir.Size.{PartialSize}
use telamon.Ir.Size.Value.{product_of}
use telamon.Runtime.NumSet.{u32_num_set}
use telamon.Runtime.NumericSet
use telamon.Runtime.NumericSet.{NumericSet}
use telamon.Runtime.Conversions.{into_num_set, slice_into_num_set, set_into_num_set}
use telamon.Model.Size.{Range, Sizes, bounds, static_factor, dim_bounds}
use telamon.Model.Size.Bound.{IsWithin, bounds-max}

-- Every dimension has size 2 or 4. A parameter is its value.
abbrev space : Sizes ℕ
space = record {
  get_size = λ d. record { enabled_values = 3 };
  possible_sizes = λ d. 2 ∷ 4 ∷ [];
  param_as_size = λ p. p;
}

-- Of the numbers that occur one divides the other.
abbrev gcd : ℕ → ℕ → ℕ
gcd a b = min a b

abbrev size : PartialSize ℕ
size = record {
  static_factor = 3;
  param_factors = 8 ∷ [];
  dim_factors = record { items = 2 ∷ [] };
  divisors = record { items = 1 ∷ [] };
}

abbrev span : Range
span = record { min = 12; max = 48 }

bounds_run : bounds gcd gcd space size ≡ some span
unfolding bounds NumericSet.trailing_zeros NumericSet.bit_length
bounds_run = refl

abbrev two : ℕ → ℕ
two d = 2

two-IsWithin : IsWithin gcd gcd space two
unfolding dim_bounds NumericSet.trailing_zeros NumericSet.bit_length
two-IsWithin d r e =
    let same = some-injective _ _ e in
    (omega (arith, ap (λ (r : Range). r.min) same), omega (arith, ap (λ (r : Range). r.max) same))

factors_equal :
    24 * product_of two size.divisors.items
    ≡ static_factor gcd gcd space size * product_of two size.dim_factors.items
unfolding static_factor
factors_equal = refl

bounds-max_example : 24 ≤ span.max
bounds-max_example = bounds-max gcd gcd space two size span 24 two-IsWithin bounds_run factors_equal

-- The value 5 is not in the new universe, and the default conversion does not skip it: it enables 8.
abbrev sizes : List ℕ
sizes = 2 ∷ 4 ∷ 8 ∷ []

abbrev five : ℕ
five = 5

converted : NumericSet.list_values (into_num_set five tt sizes) sizes ≡ 8 ∷ []
unfolding into_num_set NumericSet.list_values
converted = refl

slice_converted :
    NumericSet.list_values (slice_into_num_set (4 ∷ 5 ∷ 8 ∷ []) sizes) sizes ≡ 4 ∷ 8 ∷ []
unfolding slice_into_num_set NumericSet.list_values
slice_converted = refl

set_converted :
    NumericSet.list_values
      (set_into_num_set (record { enabled_values = 6 }) (2 ∷ 4 ∷ 5 ∷ []) sizes)
      sizes
    ≡ 4 ∷ []
unfolding set_into_num_set NumericSet.list_values
set_converted = refl
