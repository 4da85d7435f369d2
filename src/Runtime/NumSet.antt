-- ===== src/Runtime/NumSet.antt =====
-- telamon-gen/src/print/runtime/integer_domain.rs: the trait `NumSet`, its default methods, and the
-- implementations for an integer and for a slice.
pub mod Order
use telamon.Prelude.{ℕ, zero, suc, ◌≡◌, Bool, ◌&&◌, ◌||◌, ltb, leb, ◌==◌, if◌then◌else◌}
use telamon.Prelude.{Option, none, some, List, [], ◌∷◌}

-- The methods that every implementation gives. `U` is the associated type `Universe`.
pub record NumSet (D U : Type 0) : Type 0 where
  pub min_value : D → U → ℕ
  pub max_value : D → U → ℕ

module _ {D U : Type 0} ⦃n : NumSet D U⦄ where
  abbrev pub min_value : D → U → ℕ
  min_value d u = n.min_value d u

  abbrev pub max_value : D → U → ℕ
  max_value d u = n.max_value d u

  unfoldable pub as_constrained : D → U → Option ℕ
  as_constrained d u = if min_value d u == max_value d u then some (min_value d u) else none

module _ {D U E V : Type 0} ⦃n : NumSet D U⦄ ⦃m : NumSet E V⦄ where
  unfoldable pub is_lt : D → U → E → V → Bool
  is_lt d u e v = ltb (n.max_value d u) (m.min_value e v)

  unfoldable pub is_gt : D → U → E → V → Bool
  is_gt d u e v = ltb (m.max_value e v) (n.min_value d u)

  unfoldable pub is_leq : D → U → E → V → Bool
  is_leq d u e v = leb (n.max_value d u) (m.min_value e v)

  unfoldable pub is_geq : D → U → E → V → Bool
  is_geq d u e v = leb (m.max_value e v) (n.min_value d u)

  unfoldable pub is_eq : D → U → E → V → Bool
  is_eq d u e v = n.min_value d u == m.max_value e v && n.max_value d u == m.min_value e v

  unfoldable pub is_neq : D → U → E → V → Bool
  is_neq d u e v =
      ltb (m.max_value e v) (n.min_value d u) || ltb (n.max_value d u) (m.min_value e v)

-- An integer is the domain of that integer alone.
instance abbrev pub u32_num_set : NumSet ℕ (Unit {0})
u32_num_set = record { min_value = λ a _. a; max_value = λ a _. a }

abbrev pub first_or : ℕ → List ℕ → ℕ
first_or d [] = d
first_or d (x ∷ xs) = x

abbrev pub last_or : ℕ → List ℕ → ℕ
last_or d [] = d
last_or d (x ∷ xs) = last_or x xs

-- A slice is read from its ends, and is sorted; an empty one is the failed interval [1, 0].
instance abbrev pub slice_num_set : NumSet (List ℕ) (Unit {0})
slice_num_set = record { min_value = λ xs _. first_or 1 xs; max_value = λ xs _. last_or 0 xs }
