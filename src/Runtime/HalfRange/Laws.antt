-- ===== src/Runtime/HalfRange/Laws.antt =====
-- telamon-gen/src/print/runtime/range.rs: `HalfRange` as a lattice, next to `Range`.
use telamon.Prelude.{ℕ, ◌≤◌, ◌<◌, ◌≡◌, refl, true, arith, IsU32}
use telamon.Runtime.NumSet.{NumSet}
use telamon.Runtime.NumSet.Order.{Lawful}
use telamon.Runtime.Range
use telamon.Runtime.Range.{Range}
use telamon.Runtime.HalfRange.{
  HalfRange, half_range_num_set, insert, restrict, contains, get_diff_add, apply_diff_add, add_add,
  sub_add, new_gt, new_lt, new_geq, new_leq, new_eq,
}

-- The `u32` values that a half range stands for.
abbrev pub Holds : HalfRange → ℕ → Type 0
Holds r a = (r.min ≤ a) × IsU32 a

abbrev pub half_range_lawful : Lawful half_range_num_set
half_range_lawful = record {
  Holds = λ r _ a. Holds r a;
  min_le = λ r _ a h. h.0;
  le_max = λ r _ a h. omega arith;
}

-- Forgetting the upper bound.
abbrev pub half : Range → HalfRange
half r = record { min = r.min }

-- Every operation on lower bounds is that of `Range` with the upper bound forgotten.
pub half_refines :
    (r s : Range)
    → (half (Range.insert r s) ≡ insert (half r) (half s))
      × (half (Range.restrict r s) ≡ restrict (half r) (half s))
      × (half (Range.get_diff_add r s) ≡ get_diff_add (half r) (half s))
      × (half (Range.apply_diff_add r s) ≡ apply_diff_add (half r) (half s))
      × (half (Range.add_add r s) ≡ add_add (half r) (half s))
      × (half (Range.sub_add r s) ≡ sub_add (half r) (half s))
      × (Range.contains r s ≡ true → contains (half r) (half s) ≡ true)
unfolding Range.insert Range.restrict Range.get_diff_add Range.apply_diff_add Range.add_add
    Range.sub_add Range.contains insert restrict get_diff_add apply_diff_add add_add sub_add
    contains
half_refines r s = (refl, refl, refl, refl, refl, refl, ground arith)

module _ {D U : Type 0} ⦃n : NumSet D U⦄ (l : Lawful n) where
  -- A `u32` value that stands in the relation to some value of the domain is in the new half range.
  pub half_bounds_sound :
      (d : D) (u : U) (a b : ℕ)
      → IsU32 a
      → l.Holds d u b
      → (b < a → Holds (new_gt d u) a)
        × (a < b → Holds (new_lt d u) a)
        × (b ≤ a → Holds (new_geq d u) a)
        × (a ≤ b → Holds (new_leq d u) a)
        × (a ≡ b → Holds (new_eq d u) a)
  unfolding new_gt new_lt new_geq new_leq new_eq
  half_bounds_sound d u a b w h = let low = l.min_le d u b h in omega arith
