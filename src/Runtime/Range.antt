-- ===== src/Runtime/Range.antt =====
-- telamon-gen/src/print/runtime/range.rs: `Range`, a pair of bounds. The fields are `u32`: `+=`, `-=`
-- and `*=` wrap, and a division by zero is a panic, `none`.
pub mod Lattice
pub mod Diff
pub mod Bounds
use package.telamon.Prelude.{ℕ, ◌/◌, min, max, Bool, ◌&&◌, ltb, leb, ◌==◌, if◌then◌else◌}
use package.telamon.Prelude.{Option, none, some, u32_max, add32, sub32, mul32, saturating_add}
use package.telamon.Prelude.{saturating_sub}
use package.telamon.Runtime.NumSet.{NumSet}

pub record Range : Type 0 where
  pub min : ℕ
  pub max : ℕ

abbrev pub all : Range
all = record { min = 0; max = u32_max }

abbrev pub failed : Range
failed = record { min = 1; max = 0 }

unfoldable pub insert : Range → Range → Range
insert r other = record { min = min r.min other.min; max = max r.max other.max }

unfoldable pub get_diff_add : Range → Range → Range
get_diff_add r other = record { min = sub32 other.min r.min; max = sub32 r.max other.max }

unfoldable pub apply_diff_add : Range → Range → Range
apply_diff_add r diff = record { min = add32 r.min diff.min; max = sub32 r.max diff.max }

-- `a / b` on `u32`.
abbrev pub div32 : ℕ → ℕ → Option ℕ
div32 a b = if b == 0 then none else some (a / b)

abbrev pub range_of : Option ℕ → Option ℕ → Option Range
range_of none b = none
range_of (some a) none = none
range_of (some a) (some b) = some (record { min = a; max = b })

unfoldable pub get_diff_mul : Range → Range → Option Range
get_diff_mul r other = range_of (div32 other.min r.min) (div32 r.max other.max)

unfoldable pub apply_diff_mul : Range → Range → Option Range
apply_diff_mul r diff = range_of (some (mul32 r.min diff.min)) (div32 r.max diff.max)

unfoldable pub add_add : Range → Range → Range
add_add r diff = record { min = add32 r.min diff.min; max = add32 r.max diff.max }

unfoldable pub add_mul : Range → Range → Range
add_mul r diff = record { min = mul32 r.min diff.min; max = mul32 r.max diff.max }

unfoldable pub sub_add : Range → Range → Range
sub_add r diff = record { min = sub32 r.min diff.min; max = sub32 r.max diff.max }

unfoldable pub sub_mul : Range → Range → Option Range
sub_mul r diff = range_of (div32 r.min diff.min) (div32 r.max diff.max)

unfoldable pub as_fixed : Range → Option ℕ
as_fixed r = if r.min == r.max then some r.min else none

-- `impl Domain for Range`
unfoldable pub is_failed : Range → Bool
is_failed r = ltb r.max r.min

unfoldable pub is_constrained : Range → Bool
is_constrained r = r.min == r.max

unfoldable pub contains : Range → Range → Bool
contains r other = leb r.min other.min && leb other.max r.max

unfoldable pub restrict : Range → Range → Range
restrict r other = record { min = max r.min other.min; max = min r.max other.max }

-- `impl NumSet for Range`
instance abbrev pub range_num_set : NumSet Range (Unit {0})
range_num_set = record { min_value = λ r _. r.min; max_value = λ r _. r.max }

-- `impl NumDomain for Range`
module _ {D U : Type 0} ⦃n : NumSet D U⦄ where
  unfoldable pub new_gt : D → U → Range
  new_gt d u = record { min = saturating_add (n.min_value d u) 1; max = all.max }

  unfoldable pub new_lt : D → U → Range
  new_lt d u = record { min = all.min; max = saturating_sub (n.max_value d u) 1 }

  unfoldable pub new_geq : D → U → Range
  new_geq d u = record { min = n.min_value d u; max = all.max }

  unfoldable pub new_leq : D → U → Range
  new_leq d u = record { min = all.min; max = n.max_value d u }

  unfoldable pub new_eq : D → U → Range
  new_eq d u = record { min = n.min_value d u; max = n.max_value d u }
