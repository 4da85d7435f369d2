-- ===== src/Runtime/Range/Bounds.antt =====
-- telamon-gen/src/print/runtime/range.rs: the constructors of `NumDomain` for `Range`.
use telamon.Prelude.{ℕ, ◌≤◌, ◌<◌, ◌≡◌, IsU32, arith}
use telamon.Runtime.NumSet.{NumSet}
use telamon.Runtime.NumSet.Order.{Lawful}
use telamon.Runtime.Range.{new_gt, new_lt, new_geq, new_leq, new_eq}
use telamon.Runtime.Range.Lattice.{Holds}

module _ {D U : Type 0} ⦃n : NumSet D U⦄ (l : Lawful n) where
  -- A `u32` value that stands in the relation to some value of the domain is in the new range.
  pub new_bounds_sound :
      (d : D) (u : U) (a b : ℕ)
      → IsU32 a
      → l.Holds d u b
      → (b < a → Holds (new_gt d u) a)
        × (a < b → Holds (new_lt d u) a)
        × (b ≤ a → Holds (new_geq d u) a)
        × (a ≤ b → Holds (new_leq d u) a)
        × (a ≡ b → Holds (new_eq d u) a)
  unfolding new_gt new_lt new_geq new_leq new_eq
  new_bounds_sound d u a b w h =
      let low = l.min_le d u b h in let high = l.le_max d u b h in omega arith
