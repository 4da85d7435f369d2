-- ===== src/Tests/Sizes.antt =====
-- Runs and instances for the sizes of the intermediate representation. Dimensions are numbers, and a
-- parameter is its number too.
use telamon.Prelude.{ℕ, ◌*◌, ◌≡◌, refl, ◌↔◌, some, [], ◌∷◌, arith}
use telamon.Prelude.Order.{nat_ord}
use telamon.Utils.VecSet
use telamon.Utils.VecSet.{VecSet}
use telamon.Utils.VecSet.Members.{◌∈ₛ◌}
use telamon.Utils.VecSet.InPlace.{relative_difference}
use telamon.Ir.Size.{PartialSize, add_divisors, mul_assign, product, new_dim_size}
use telamon.Ir.Size.Value.{
  IsSound, IsReduced, IsFraction, numerator, denominator, product_of, add_divisors-IsFraction,
  mul_assign-IsFraction,
}
use telamon.Ir.Size.Product.{IsFactor, IsDivisor, product-IsReduced, mul_assign-repeated}

-- n * d1 * d2 / d3, and 4 * d3 / d1.
abbrev tiled : PartialSize ℕ
tiled = record {
  static_factor = 1;
  param_factors = 0 ∷ [];
  dim_factors = record { items = 1 ∷ 2 ∷ [] };
  divisors = record { items = 3 ∷ [] };
}

abbrev untiled : PartialSize ℕ
untiled = record {
  static_factor = 4;
  param_factors = [];
  dim_factors = record { items = 3 ∷ [] };
  divisors = record { items = 1 ∷ [] };
}

abbrev joined : PartialSize ℕ
joined = record {
  static_factor = 4;
  param_factors = 0 ∷ [];
  dim_factors = record { items = 2 ∷ [] };
  divisors = record { items = [] };
}

mul_assign_run : mul_assign tiled untiled ≡ some joined
unfolding mul_assign VecSet.union relative_difference
mul_assign_run = refl

abbrev thousand : ℕ → ℕ
thousand p = 1000

tiled-IsSound : IsSound tiled
tiled-IsSound = record { dim_factors_sound = ground arith; divisors_sound = ground arith }

untiled-IsSound : IsSound untiled
untiled-IsSound = record { dim_factors_sound = ground arith; divisors_sound = ground arith }

abbrev doubled : ℕ → ℕ
doubled d = d * 2

mul_assign-IsFraction_example :
    (r : PartialSize ℕ) × (mul_assign tiled untiled ≡ some r)
    × IsReduced r
    × IsFraction thousand doubled r
        (numerator thousand doubled tiled * numerator thousand doubled untiled)
        (denominator thousand doubled tiled * denominator thousand doubled untiled)
mul_assign-IsFraction_example =
    mul_assign-IsFraction thousand doubled tiled untiled tiled-IsSound untiled-IsSound (omega arith)
      (λ a. omega arith) (λ a. omega arith)

abbrev one : VecSet ℕ
one = record { items = 1 ∷ [] }

add_divisors-IsFraction_example :
    (r : PartialSize ℕ) × (add_divisors tiled one ≡ some r)
    × IsReduced r
    × IsFraction thousand doubled r
        (numerator thousand doubled tiled)
        (denominator thousand doubled tiled * product_of doubled one.items)
add_divisors-IsFraction_example =
    add_divisors-IsFraction thousand doubled tiled one tiled-IsSound (ground arith)
      (λ a. omega arith)

product-IsReduced_example :
    (r : PartialSize ℕ) × (product (tiled ∷ untiled ∷ []) ≡ some r)
    × IsReduced r
    × ((a : ℕ)
        → ((a ∈ₛ r.dim_factors)
            ↔ IsFactor a (tiled ∷ untiled ∷ []) × ¬ IsDivisor a (tiled ∷ untiled ∷ []))
          × ((a ∈ₛ r.divisors)
              ↔ IsDivisor a (tiled ∷ untiled ∷ []) × ¬ IsFactor a (tiled ∷ untiled ∷ [])))
product-IsReduced_example = product-IsReduced (tiled ∷ untiled ∷ [])

mul_assign-repeated_example :
    mul_assign (new_dim_size {P = ℕ} 5) (new_dim_size 5) ≡ some (new_dim_size 5)
mul_assign-repeated_example = mul_assign-repeated 5
