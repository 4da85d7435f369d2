-- ===== src/Runtime/HalfRange.antt =====
-- telamon-gen/src/print/runtime/range.rs: `HalfRange`, a range that stores its lower bound only.
pub mod Laws
use package.telamon.Prelude.{
  ℕ, zero, suc, ◌+◌, ◌-◌, ◌*◌, ◌/◌, ◌%◌, ◌^◌, ◌≤◌, ◌<◌, max, compare, Ordering, bit_and, bit_or,
  ◌≡◌, refl, sym, ap, ◌∙◌, subst, fun_ext, ◌≢◌, ◌↔◌, ◌⊎◌, inl, inr, Bool, true, false, not, ◌&&◌,
  ◌||◌, Option, none, some, List, [], ◌∷◌, ◌++◌, map, arith, ltb, leb, ◌==◌, if◌then◌else◌, ltb→lt,
  lt→ltb, leb→le, ==→≡, tests, Bool-cases, Option-cases, Ordering-cases, length, get_elem?, take,
  drop, replicate, ◌∈◌, All, length-append, length-replicate, length-set, take-append, drop-append,
  All-get_elem?, get_elem?-total, get_elem?-lt, mem-append_left, mem-append_right, mem-append_cases,
  u32_max, u32_mod, u16_mod, IsU32, add32, sub32, mul32, saturating_add, saturating_sub,
  saturating_mul, shl16_one, pred16,
}
use package.telamon.Runtime.NumSet.{NumSet}
use package.telamon.Runtime.Range.{div32}
use Prim.Native.Nat.{min as minimum}

pub record HalfRange : Type 0 where
  pub min : ℕ

abbrev pub all : HalfRange
all = record { min = 0 }

abbrev pub half_of : Option ℕ → Option HalfRange
half_of none = none
half_of (some a) = some (record { min = a })

unfoldable pub insert : HalfRange → HalfRange → HalfRange
insert r other = record { min = minimum r.min other.min }

unfoldable pub get_diff_add : HalfRange → HalfRange → HalfRange
get_diff_add r other = record { min = sub32 other.min r.min }

unfoldable pub apply_diff_add : HalfRange → HalfRange → HalfRange
apply_diff_add r diff = record { min = add32 r.min diff.min }

unfoldable pub get_diff_mul : HalfRange → HalfRange → Option HalfRange
get_diff_mul r other = half_of (div32 other.min r.min)

unfoldable pub apply_diff_mul : HalfRange → HalfRange → HalfRange
apply_diff_mul r diff = record { min = mul32 r.min diff.min }

unfoldable pub add_add : HalfRange → HalfRange → HalfRange
add_add r diff = record { min = add32 r.min diff.min }

unfoldable pub add_mul : HalfRange → HalfRange → HalfRange
add_mul r diff = record { min = mul32 r.min diff.min }

unfoldable pub sub_add : HalfRange → HalfRange → HalfRange
sub_add r diff = record { min = sub32 r.min diff.min }

unfoldable pub sub_mul : HalfRange → HalfRange → Option HalfRange
sub_mul r diff = half_of (div32 r.min diff.min)

-- `impl Domain for HalfRange`
unfoldable pub is_failed : HalfRange → Bool
is_failed r = false

unfoldable pub is_constrained : HalfRange → Bool
is_constrained r = false

unfoldable pub contains : HalfRange → HalfRange → Bool
contains r other = leb r.min other.min

unfoldable pub restrict : HalfRange → HalfRange → HalfRange
restrict r other = record { min = max r.min other.min }

-- `impl NumSet for HalfRange`
instance abbrev pub half_range_num_set : NumSet HalfRange (Unit {0})
half_range_num_set = record { min_value = λ r _. r.min; max_value = λ r _. u32_max }

-- `impl NumDomain for HalfRange`
module _ {D U : Type 0} ⦃n : NumSet D U⦄ where
  unfoldable pub new_gt : D → U → HalfRange
  new_gt d u = record { min = saturating_add (n.min_value d u) 1 }

  unfoldable pub new_lt : D → U → HalfRange
  new_lt d u = all

  unfoldable pub new_geq : D → U → HalfRange
  new_geq d u = record { min = n.min_value d u }

  unfoldable pub new_leq : D → U → HalfRange
  new_leq d u = all

  unfoldable pub new_eq : D → U → HalfRange
  new_eq d u = record { min = n.min_value d u }
