-- ===== src/Utils/Iterators.antt =====
-- telamon-utils/src/iterator.rs: extensions of the iterators. An iterator is the list of the items that it
-- still has; a hash map is the list of its entries.
pub mod Copies
use package.telamon.Prelude.{
  ℕ, zero, suc, ◌+◌, ◌-◌, ◌*◌, ◌/◌, ◌%◌, ◌^◌, ◌≤◌, ◌<◌, min, max, compare, Ordering, bit_and,
  bit_or, ◌≡◌, refl, sym, ap, ◌∙◌, subst, fun_ext, ◌≢◌, ◌↔◌, ◌⊎◌, inl, inr, Bool, true, false, not,
  ◌&&◌, ◌||◌, Option, none, some, List, [], ◌∷◌, ◌++◌, map, arith, ltb, leb, ◌==◌, if◌then◌else◌,
  ltb→lt, lt→ltb, leb→le, ==→≡, tests, Bool-cases, Option-cases, Ordering-cases, length, get_elem?,
  set, take, drop, replicate, ◌∈◌, All, length-append, length-replicate, length-set, take-append,
  drop-append, All-get_elem?, get_elem?-total, get_elem?-lt, mem-append_left, mem-append_right,
  mem-append_cases, u32_max, u32_mod, u16_mod, IsU32, add32, sub32, mul32, saturating_add,
  saturating_sub, saturating_mul, shl16_one, pred16,
}

module _ {T : Type 0} where
  -- `FilterList::next`: the cursor splits the list into the items that were passed, the last one first,
  -- and those that are left.
  unfoldable pub filter_next : (T → Bool) → List T → List T → Option T × (List T × List T)
  filter_next p passed [] = (none, (passed, []))
  filter_next p passed (x ∷ rest) =
      let further = filter_next p (x ∷ passed) rest in
      if p x then (some x, (passed, rest)) else further

  -- `at_most_one`; the outer `none` is the panic of the assertion.
  unfoldable pub at_most_one : List T → Option (Option T)
  at_most_one [] = some none
  at_most_one (x ∷ []) = some (some x)
  at_most_one (x ∷ y ∷ rest) = none

-- `ZipCopy`, with the object as long as there are items.
pub record ZipCopy (I T : Type 0) : Type 0 where
  pub it : List I
  pub object : Option T

module _ {I T : Type 0} where
  unfoldable pub zip_copy : List I → T → ZipCopy I T
  zip_copy [] object = record { it = []; object = none }
  zip_copy (x ∷ it) object = record { it = x ∷ it; object = some object }

  -- `ZipCopy::next`: the object is moved out with the last item, and copied before. The inner `none` is
  -- the panic of `unwrap`.
  unfoldable pub zip_next : ZipCopy I T → Option (Option (I × T)) × ZipCopy I T
  zip_next z = elim z.it [
    | [] ↦ (none, z)
    | lhs ∷ it ↦ (
      some (elim z.object [ none ↦ none | some rhs ↦ some (lhs, rhs) ]),
      record { it = it; object = elim it [ [] ↦ none | x ∷ xs ↦ z.object ] },
    )
  ]

module _ {K V : Type 0} (same : K → K → Bool) where
  abbrev pub take_entry : K → List (K × V) → Option V × List (K × V)
  take_entry k [] = (none, [])
  take_entry k ((j, v) ∷ entries) =
      let (found, rest) = take_entry k entries in
      if same k j then (some v, entries) else (found, (j, v) ∷ rest)

  abbrev pub merged : (V → V → V) → Option V → V → V
  merged merge none v = v
  merged merge (some old) v = merge old v

  -- The loop of `to_map`.
  unfoldable pub to_map_from : (V → V → V) → List (K × V) → List (K × V) → List (K × V)
  to_map_from merge entries [] = entries
  to_map_from merge entries ((k, v) ∷ items) =
      let (old, rest) = take_entry k entries in
      to_map_from merge ((k, merged merge old v) ∷ rest) items

  unfoldable pub to_map : (V → V → V) → List (K × V) → List (K × V)
  unfolding to_map_from
  to_map merge items = to_map_from merge [] items
