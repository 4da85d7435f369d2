-- ===== src/Ir/Size.antt =====
-- src/ir/size.rs: `Size`, a fully specified size, and `PartialSize`, a size that depends on dimensions
-- whose sizes are not decided. `P` stands for the parameters of a kernel, shared by `Arc`; a dimension
-- is its number. `+=` of factors is `u32` multiplication, which wraps.
pub mod Value
pub mod Product
use package.telamon.Prelude.{
  ℕ, zero, suc, ◌+◌, ◌-◌, ◌*◌, ◌/◌, ◌%◌, ◌^◌, ◌≤◌, ◌<◌, min, max, compare, Ordering, bit_and,
  bit_or, ◌≡◌, refl, sym, ap, ◌∙◌, subst, fun_ext, ◌≢◌, ◌↔◌, ◌⊎◌, inl, inr, Bool, true, false, not,
  ◌&&◌, ◌||◌, Option, none, some, List, [], ◌∷◌, ◌++◌, map, arith, ltb, leb, ◌==◌, if◌then◌else◌,
  ltb→lt, lt→ltb, leb→le, ==→≡, tests, Bool-cases, Option-cases, Ordering-cases, length, get_elem?,
  set, take, drop, replicate, ◌∈◌, All, length-append, length-replicate, length-set, take-append,
  drop-append, All-get_elem?, get_elem?-total, get_elem?-lt, mem-append_left, mem-append_right,
  mem-append_cases, u32_max, u32_mod, u16_mod, IsU32, add32, sub32, mul32, saturating_add,
  saturating_sub, saturating_mul, shl16_one, pred16,
}
use package.telamon.Prelude.Order.{nat_ord}
use package.telamon.Utils.VecSet
use package.telamon.Utils.VecSet.{VecSet, empty}
use package.telamon.Utils.VecSet.InPlace.{relative_difference}

pub record Size (P : Type 0) : Type 0 where
  pub factor : ℕ
  pub params : List P
  pub max_val : ℕ

pub record PartialSize (P : Type 0) : Type 0 where
  pub static_factor : ℕ
  pub param_factors : List P
  pub dim_factors : VecSet ℕ
  pub divisors : VecSet ℕ

module _ {P : Type 0} where
  abbrev pub new_size : ℕ → List P → ℕ → Size P
  new_size factor params max_val = record { factor = factor; params = params; max_val = max_val }

  abbrev pub default_size : Size P
  default_size = record { factor = 1; params = []; max_val = 1 }

  unfoldable pub new_const : ℕ → Size P
  new_const factor = record { factor = factor; params = default_size.params; max_val = factor }

  unfoldable pub new_param : P → ℕ → Size P
  new_param param max_val = record {
    factor = default_size.factor;
    params = param ∷ [];
    max_val = max_val;
  }

  unfoldable pub as_constant : Size P → Option ℕ
  as_constant s = elim s.params [ [] ↦ some s.factor | p ∷ ps ↦ none ]

  unfoldable pub max_size : Size P → ℕ
  max_size s = s.max_val

  -- `impl MulAssign for Size`
  unfoldable pub size_mul_assign : Size P → Size P → Size P
  size_mul_assign s rhs = record {
    factor = mul32 s.factor rhs.factor;
    params = s.params ++ rhs.params;
    max_val = saturating_mul s.max_val rhs.max_val;
  }

  abbrev pub default : PartialSize P
  default = record { static_factor = 1; param_factors = []; dim_factors = empty; divisors = empty }

  -- `none` is the panic of the assertion that the factor is not 0.
  unfoldable pub new : ℕ → List P → Option (PartialSize P)
  new factor params =
      if factor == 0
      then none
      else some record {
        static_factor = factor;
        param_factors = params;
        dim_factors = default.dim_factors;
        divisors = default.divisors;
      }

  unfoldable pub new_dim_size : ℕ → PartialSize P
  unfolding VecSet.new
  new_dim_size dim = record {
    static_factor = default.static_factor;
    param_factors = default.param_factors;
    dim_factors = VecSet.new (dim ∷ []);
    divisors = default.divisors;
  }

  abbrev pub with_fraction : PartialSize P → VecSet ℕ × VecSet ℕ → PartialSize P
  with_fraction s (dim_factors, divisors) = record {
    static_factor = s.static_factor;
    param_factors = s.param_factors;
    dim_factors = dim_factors;
    divisors = divisors;
  }

  -- `none` stands for a read out of bounds in `relative_difference`.
  unfoldable pub simplify : PartialSize P → Option (PartialSize P)
  simplify s = elim (relative_difference s.dim_factors s.divisors) [
    | none ↦ none
    | some sides ↦ some (with_fraction s sides)
  ]

  unfoldable pub add_divisors : PartialSize P → VecSet ℕ → Option (PartialSize P)
  unfolding simplify
  add_divisors s divisors =
      simplify (with_fraction s (s.dim_factors, VecSet.union s.divisors divisors))

  unfoldable pub as_int : PartialSize P → Option ℕ
  as_int s = elim s.param_factors [
    | [] ↦
        if VecSet.is_empty s.dim_factors && VecSet.is_empty s.divisors
        then some s.static_factor
        else none
    | p ∷ ps ↦ none
  ]

  -- `impl MulAssign for PartialSize`, which `Mul` calls.
  unfoldable pub mul_assign : PartialSize P → PartialSize P → Option (PartialSize P)
  unfolding simplify
  mul_assign s rhs = simplify record {
    static_factor = mul32 s.static_factor rhs.static_factor;
    param_factors = s.param_factors ++ rhs.param_factors;
    dim_factors = VecSet.union s.dim_factors rhs.dim_factors;
    divisors = VecSet.union s.divisors rhs.divisors;
  }

  -- The loop of `Product::product`, with the four vectors that it extends.
  unfoldable pub product_from :
      ℕ → List P → List ℕ → List ℕ → List (PartialSize P) → Option (PartialSize P)
  unfolding simplify
  product_from static_factor param_factors dim_factors divisors [] = simplify record {
    static_factor = static_factor;
    param_factors = param_factors;
    dim_factors = VecSet.new dim_factors;
    divisors = VecSet.new divisors;
  }
  product_from static_factor param_factors dim_factors divisors (s ∷ sizes) =
      product_from (mul32 static_factor s.static_factor) (param_factors ++ s.param_factors)
        (dim_factors ++ s.dim_factors.items) (divisors ++ s.divisors.items) sizes

  unfoldable pub product : List (PartialSize P) → Option (PartialSize P)
  unfolding product_from
  product sizes = product_from 1 [] [] [] sizes

  -- `impl From<Size> for PartialSize`
  unfoldable pub from_size : Size P → Option (PartialSize P)
  unfolding new
  from_size size = new size.factor size.params
