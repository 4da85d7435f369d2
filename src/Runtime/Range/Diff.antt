-- ===== src/Runtime/Range/Diff.antt =====
-- telamon-gen/src/print/runtime/range.rs: `get_diff_*` and `apply_diff_*`.
use telamon.Prelude.{ℕ, ◌*◌, ◌<◌, ◌≡◌, refl, true, some, arith, IsU32}
use native.Mathlib.Nat.{mul-div_cancel, mul-div_cancel_left}
use telamon.Runtime.Range.{
  Range, contains, get_diff_add, apply_diff_add, add_add, sub_add, get_diff_mul, apply_diff_mul,
  div32,
}

-- Both bounds are `u32` values.
pub record IsWord (r : Range) : Type 0 where
  pub min_word : IsU32 r.min
  pub max_word : IsU32 r.max

-- Applying the difference to a contained range gives that range.
pub apply_diff_add-get_diff_add :
    (r s : Range)
    → IsWord r
    → IsWord s
    → contains r s ≡ true
    → apply_diff_add r (get_diff_add r s) ≡ s
unfolding contains get_diff_add apply_diff_add
apply_diff_add-get_diff_add r s hr hs e = ground arith

-- On `u32` values `sub_add` takes back what `add_add` added, also where the sum wrapped.
pub sub_add-add_add : (r d : Range) → IsWord r → IsWord d → sub_add (add_add r d) d ≡ r
unfolding sub_add add_add
sub_add-add_add r d hr hd = ground arith

pub div32-mul : (a b : ℕ) → 0 < b → div32 (b * a) b ≡ some a
div32-mul a b h = ground (arith, mul-div_cancel_left a h)

div32-factor : (a b : ℕ) → 0 < b → div32 (a * b) b ≡ some a
div32-factor a b h = ground (arith, mul-div_cancel a h)

-- Applying the quotient to a range that divides evenly gives that range.
pub apply_diff_mul-get_diff_mul :
    (r s : Range) (low high : ℕ)
    → IsWord r
    → IsWord s
    → 0 < r.min
    → 0 < s.max
    → 0 < high
    → s.min ≡ r.min * low
    → r.max ≡ high * s.max
    → (d : Range) × (get_diff_mul r s ≡ some d) × (apply_diff_mul r d ≡ some s)
unfolding get_diff_mul apply_diff_mul
apply_diff_mul-get_diff_mul r s low high hr hs p q h e f = (
  record { min = low; max = high },
  rw (e, f, div32-mul low r.min p, div32-factor high s.max q) refl,
  ground (arith, div32-mul s.max high h),
)
