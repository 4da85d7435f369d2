-- ===== src/Model/Size.antt =====
-- src/model/size.rs: bounds and factors of a size whose dimensions are not decided. A `BigUint` is a
-- number; `gcd` of the crate num and what the search space says of a dimension are parameters. `none` is
-- a panic: a division by 0, an assertion, a value of 64 bits or more, or a set that is not in its universe.
pub mod Bound
use package.telamon.Prelude.{
  ℕ, zero, suc, ◌+◌, ◌-◌, ◌*◌, ◌/◌, ◌%◌, ◌^◌, ◌≤◌, ◌<◌, min, max, compare, Ordering, bit_and,
  bit_or, ◌≡◌, refl, sym, ap, ◌∙◌, subst, fun_ext, ◌≢◌, ◌↔◌, ◌⊎◌, inl, inr, Bool, true, false, not,
  ◌&&◌, ◌||◌, Option, none, some, List, [], ◌∷◌, ◌++◌, map, arith, ltb, leb, ◌==◌, if◌then◌else◌,
  ltb→lt, lt→ltb, leb→le, ==→≡, tests, Bool-cases, Option-cases, Ordering-cases, length, get_elem?,
  set, take, drop, replicate, ◌∈◌, All, length-append, length-replicate, length-set, take-append,
  drop-append, All-get_elem?, get_elem?-total, get_elem?-lt, mem-append_left, mem-append_right,
  mem-append_cases, u32_max, u32_mod, u16_mod, IsU32, add32, sub32, mul32, saturating_add,
  saturating_sub, saturating_mul, shl16_one, pred16,
}
use package.telamon.Utils.VecSet
use package.telamon.Utils.VecSet.{VecSet}
use package.telamon.Ir.Size.{PartialSize}
use package.telamon.Runtime.NumericSet
use package.telamon.Runtime.Conversions
use package.telamon.Runtime.NumericSet.{NumericSet}

pub record Range : Type 0 where
  pub min : ℕ
  pub max : ℕ

pub record FactorRange : Type 0 where
  pub gcd : ℕ
  pub lcm : ℕ

abbrev pub range_zero : Range
range_zero = record { min = 0; max = 0 }

abbrev pub range_one : Range
range_one = record { min = 1; max = 1 }

unfoldable pub range_fixed : ℕ → Range
range_fixed val = record { min = val; max = val }

unfoldable pub is_constrained : Range → Bool
is_constrained r = r.min == r.max

abbrev pub factor_zero : FactorRange
factor_zero = record { gcd = 0; lcm = 0 }

unfoldable pub factor_fixed : ℕ → FactorRange
factor_fixed val = record { gcd = val; lcm = val }

abbrev pub u64_mod : ℕ
u64_mod = 18_446_744_073_709_551_616

-- What a size needs of the search space and of its context: the domain of a dimension, its possible
-- sizes, and the value of a parameter.
pub record Sizes (P : Type 0) : Type 0 where
  pub get_size : ℕ → NumericSet
  pub possible_sizes : ℕ → List ℕ
  pub param_as_size : P → ℕ

abbrev pub range_of : Option ℕ → Option ℕ → Option Range
range_of none b = none
range_of (some a) none = none
range_of (some a) (some b) = some (record { min = a; max = b })

-- `/=` of a `BigUint`.
abbrev pub divided : ℕ → ℕ → Option ℕ
divided a b = if b == 0 then none else some (a / b)

abbrev pub both : Option ℕ → Option ℕ → Option (ℕ × ℕ)
both none b = none
both (some a) none = none
both (some a) (some b) = some (a, b)

-- The assertions and the conversions to `u64`.
unfoldable pub to_range : ℕ × ℕ → Option Range
to_range (total_min, total_max) =
    if total_min == 0 || total_max == 0
    then none
    else if leb u64_mod total_min || leb u64_mod total_max
    then none
    else some (record { min = total_min; max = total_max })

abbrev pub then_to : {A B : Type 0} → Option A → (A → Option B) → Option B
then_to none f = none
then_to (some a) f = f a

module _ {P : Type 0} (gcd : ℕ → ℕ → ℕ) (lcm : ℕ → ℕ → ℕ) (space : Sizes P) where
  unfoldable pub dim_bounds : ℕ → Option Range
  unfolding NumericSet.min_value NumericSet.max_value
  dim_bounds dim =
      let size = space.get_size dim in
      let universe = space.possible_sizes dim in
      range_of (NumericSet.min_value size universe) (NumericSet.max_value size universe)

  -- The product of the parameters and the static factor, on `u64`.
  unfoldable pub static_factor : PartialSize P → ℕ
  static_factor size = (params size.param_factors * size.static_factor) % u64_mod
    where
      params : List P → ℕ
      params [] = 1
      params (p ∷ ps) = (space.param_as_size p * params ps) % u64_mod

  -- The loop over the factors, on `total_min` and `total_max`.
  unfoldable pub multiply : List ℕ → ℕ × ℕ → Option (ℕ × ℕ)
  unfolding dim_bounds
  multiply [] totals = some totals
  multiply (dim ∷ dims) (total_min, total_max) =
      then_to (dim_bounds dim) (λ size. multiply dims (total_min * size.min, total_max * size.max))

  -- The loop over the divisors.
  unfoldable pub divide : List ℕ → ℕ × ℕ → Option (ℕ × ℕ)
  unfolding dim_bounds
  divide [] totals = some totals
  divide (dim ∷ dims) (total_min, total_max) = then_to (dim_bounds dim) (λ size.
      then_to (both (divided total_min (gcd size.max total_min)) (divided total_max size.min))
        (λ totals. divide dims totals))

  unfoldable pub bounds : PartialSize P → Option Range
  unfolding static_factor multiply divide to_range
  bounds size =
      let factor = static_factor size in
      then_to (multiply size.dim_factors.items (factor, factor))
        (λ totals. then_to (divide size.divisors.items totals) to_range)

  abbrev pub factor_range : ℕ → ℕ → FactorRange
  factor_range a b = record { gcd = a; lcm = b }

  unfoldable pub dim_factors : ℕ → FactorRange
  unfolding Conversions.gcd Conversions.lcm
  dim_factors dim =
      let size = space.get_size dim in
      let universe = space.possible_sizes dim in
      factor_range (Conversions.gcd gcd size universe) (Conversions.lcm lcm size universe)

  unfoldable pub multiply_factors : List ℕ → ℕ × ℕ → ℕ × ℕ
  unfolding dim_factors
  multiply_factors [] totals = totals
  multiply_factors (dim ∷ dims) (total_gcd, total_lcm) =
      let size = dim_factors dim in
      multiply_factors dims (total_gcd * size.gcd, total_lcm * size.lcm)

  unfoldable pub divide_factors : List ℕ → ℕ × ℕ → Option (ℕ × ℕ)
  unfolding dim_factors
  divide_factors [] totals = some totals
  divide_factors (dim ∷ dims) (total_gcd, total_lcm) =
      let size = dim_factors dim in
      elim (both (divided total_gcd (gcd size.lcm total_gcd)) (divided total_lcm size.gcd)) [
        | none ↦ none
        | some totals ↦ divide_factors dims totals
      ]

  abbrev pub to_factors : ℕ × ℕ → Option FactorRange
  to_factors (total_gcd, total_lcm) =
      if leb u64_mod total_gcd || leb u64_mod total_lcm
      then none
      else some (factor_range total_gcd total_lcm)

  unfoldable pub factors : PartialSize P → Option FactorRange
  unfolding static_factor multiply_factors divide_factors
  factors size =
      let factor = static_factor size in
      then_to
        (divide_factors size.divisors.items
          (multiply_factors size.dim_factors.items (factor, factor)))
        to_factors
