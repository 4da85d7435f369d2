-- ===== src/Utils/Iterators/Copies.antt =====
-- telamon-utils/src/iterator.rs: `ZipCopy`.
use telamon.Prelude.{
  ℕ, zero, suc, ◌≤◌, ◌<◌, ◌≡◌, refl, ap, Option, none, some, List, [], ◌∷◌, map, arith, length,
}
use telamon.Utils.Iterators.{ZipCopy, zip_copy, zip_next}

module _ {I T : Type 0} where
  -- The items of the iterator, `rounds` of them at most.
  abbrev pub collect : ℕ → ZipCopy I T → List (Option (I × T))
  collect zero z = []
  collect (suc rounds) z = elim (zip_next z).0 [
    | none ↦ []
    | some item ↦ item ∷ collect rounds (zip_next z).1
  ]

  collect-rest :
      (n : ℕ) (x : I) (items : List I) (object : T)
      → length items < n
      → collect n (record { it = x ∷ items; object = some object })
        ≡ map (λ x. some (x, object)) (x ∷ items)
  unfolding zip_next
  collect-rest zero x items object h = absurd (omega arith)
  collect-rest (suc zero) x [] object h = refl
  collect-rest (suc (suc n)) x [] object h = refl
  collect-rest (suc n) x (y ∷ items) object h =
      ap (λ t. some (x, object) ∷ t) (collect-rest n y items object (omega arith))

  -- The iterator yields each item with the object, in order, and ends; no `unwrap` meets a missing object.
  pub collect-zip_copy :
      (items : List I) (object : T) (n : ℕ)
      → length items ≤ n
      → collect n (zip_copy items object) ≡ map (λ x. some (x, object)) items
  unfolding zip_copy zip_next
  collect-zip_copy [] object zero h = refl
  collect-zip_copy [] object (suc n) h = refl
  collect-zip_copy (x ∷ items) object n h = collect-rest n x items object (omega arith)
