-- ===== src/Utils/VecSet.antt =====
-- telamon-utils/src/vec_set.rs: a set kept as a sorted vector. A cursor into a vector is the list that
-- is left from it on, and an iterator is the state that its `next` reads.
pub mod Members
pub mod Sorting
pub mod Iterators
pub mod InPlace
pub mod Compare
use package.telamon.Prelude.{
  ℕ, zero, suc, ◌+◌, ◌-◌, ◌*◌, ◌/◌, ◌%◌, ◌^◌, ◌≤◌, ◌<◌, min, max, compare, Ordering, bit_and,
  bit_or, ◌≡◌, refl, sym, ap, ◌∙◌, subst, fun_ext, ◌≢◌, ◌↔◌, ◌⊎◌, inl, inr, Bool, true, false, not,
  ◌&&◌, ◌||◌, Option, none, some, List, [], ◌∷◌, ◌++◌, map, arith, ltb, leb, ◌==◌, if◌then◌else◌,
  ltb→lt, lt→ltb, leb→le, ==→≡, tests, Bool-cases, Option-cases, Ordering-cases, length, get_elem?,
  take, drop, replicate, ◌∈◌, All, length-append, length-replicate, length-set, take-append,
  drop-append, All-get_elem?, get_elem?-total, get_elem?-lt, mem-append_left, mem-append_right,
  mem-append_cases, u32_max, u32_mod, u16_mod, IsU32, add32, sub32, mul32, saturating_add,
  saturating_sub, saturating_mul, shl16_one, pred16,
}
use Prim.Native.Nat.Ordering.{lt, eq, gt}
use package.telamon.Prelude.Order.{Ord}

pub record VecSet (T : Type 0) : Type 0 where
  pub items : List T

-- `default`, the empty set.
abbrev pub empty : {T : Type 0} → VecSet T
empty = record { items = [] }

module _ {T : Type 0} ⦃o : Ord T⦄ where
  -- `slice::sort`: the list in ascending order, equal items in their old order.
  unfoldable pub insert_sorted : T → List T → List T
  insert_sorted a [] = a ∷ []
  insert_sorted a (x ∷ xs) = elim (o.cmp x a) [ gt ↦ a ∷ x ∷ xs | _ ↦ x ∷ insert_sorted a xs ]

  unfoldable pub sort_onto : List T → List T → List T
  unfolding insert_sorted
  sort_onto done [] = done
  sort_onto done (x ∷ xs) = sort_onto (insert_sorted x done) xs

  -- `Vec::dedup` keeps the first of a run of equal items.
  unfoldable pub dedup_after : T → List T → List T
  dedup_after a [] = []
  dedup_after a (x ∷ xs) = elim (o.cmp a x) [ eq ↦ dedup_after a xs | _ ↦ x ∷ dedup_after x xs ]

  unfoldable pub dedup : List T → List T
  unfolding dedup_after
  dedup [] = []
  dedup (x ∷ xs) = x ∷ dedup_after x xs

  unfoldable pub new : List T → VecSet T
  unfolding sort_onto dedup
  new values = record { items = dedup (sort_onto [] values) }

  abbrev pub is_empty : VecSet T → Bool
  is_empty s = elim s.items [ [] ↦ true | x ∷ xs ↦ false ]

  -- The loop of `Difference::next`: the items of `rhs` that are passed, and whether `item` is met.
  unfoldable pub pass : T → List T → Bool × List T
  pass item [] = (false, [])
  pass item (y ∷ ys) = elim (o.cmp y item) [
    | lt ↦ pass item ys
    | gt ↦ (false, y ∷ ys)
    | eq ↦ (true, y ∷ ys)
  ]

  -- `Difference::next`
  unfoldable pub difference_next : List T → List T → Option (T × (List T × List T))
  unfolding pass
  difference_next [] rhs = none
  difference_next (item ∷ lhs) rhs =
      let (met, rest) = pass item rhs in
      let again = difference_next lhs rest in if met then again else some (item, (lhs, rest))

  -- `Intersection::next`
  unfoldable pub intersection_next : List T → List T → Option (T × (List T × List T))
  intersection_next [] rhs = none
  intersection_next (x ∷ lhs) [] = none
  intersection_next (x ∷ lhs) (y ∷ rhs) = elim (o.cmp x y) [
    | lt ↦ intersection_next lhs (y ∷ rhs)
    | eq ↦ some (x, (lhs, rhs))
    | gt ↦ intersection_next (x ∷ lhs) rhs
  ]

  -- The closure that `intersect` passes to `retain`: the new cursor, and whether the item is kept.
  unfoldable pub intersect_retain : List T → List T → List T
  intersect_retain [] other = []
  intersect_retain (x ∷ xs) [] = intersect_retain xs []
  intersect_retain (x ∷ xs) (y ∷ other) = elim (o.cmp x y) [
    | lt ↦ intersect_retain xs (y ∷ other)
    | eq ↦ x ∷ intersect_retain xs (y ∷ other)
    | gt ↦ intersect_retain (x ∷ xs) other
  ]

  unfoldable pub intersect : VecSet T → VecSet T → VecSet T
  unfolding intersect_retain
  intersect s other = record { items = intersect_retain s.items other.items }

  unfoldable pub union_from : List T → List T → List T
  union_from [] other = other
  union_from (x ∷ xs) [] = x ∷ xs
  union_from (x ∷ xs) (y ∷ other) = elim (o.cmp x y) [
    | eq ↦ x ∷ union_from xs other
    | lt ↦ x ∷ union_from xs (y ∷ other)
    | gt ↦ y ∷ union_from (x ∷ xs) other
  ]

  unfoldable pub union : VecSet T → VecSet T → VecSet T
  unfolding union_from
  union s other = record { items = union_from s.items other.items }

  unfoldable pub keep : (T → Bool) → List T → List T
  keep p [] = []
  keep p (x ∷ xs) = let rest = keep p xs in if p x then x ∷ rest else rest

  -- `filter`, and `retain` in place.
  unfoldable pub filter : VecSet T → (T → Bool) → VecSet T
  unfolding keep
  filter s p = record { items = keep p s.items }

  -- `binary_search` finds the item, or the place where it would stand; `insert` puts it there.
  unfoldable pub insert_at : T → List T → List T × Bool
  insert_at item [] = (item ∷ [], true)
  insert_at item (x ∷ xs) = elim (o.cmp x item) [
    | lt ↦ let (rest, added) = insert_at item xs in (x ∷ rest, added)
    | eq ↦ (x ∷ xs, false)
    | gt ↦ (item ∷ x ∷ xs, true)
  ]

  unfoldable pub insert : VecSet T → T → VecSet T × Bool
  unfolding insert_at
  insert s item = let (rest, added) = insert_at item s.items in (record { items = rest }, added)

  unfoldable pub contains_in : T → List T → Bool
  contains_in item [] = false
  contains_in item (x ∷ xs) = elim (o.cmp x item) [
    | lt ↦ contains_in item xs
    | eq ↦ true
    | gt ↦ false
  ]

  unfoldable pub contains : VecSet T → T → Bool
  unfolding contains_in
  contains s item = contains_in item s.items

  -- The loop of `partial_cmp`, with `prev_ord`.
  unfoldable pub partial_cmp_from : Ordering → List T → List T → Option Ordering
  partial_cmp_from prev [] [] = some prev
  partial_cmp_from prev [] (y ∷ other) = elim prev [ gt ↦ none | _ ↦ some lt ]
  partial_cmp_from prev (x ∷ xs) [] = elim prev [ lt ↦ none | _ ↦ some gt ]
  partial_cmp_from prev (x ∷ xs) (y ∷ other) = elim (o.cmp x y) [
    | eq ↦ partial_cmp_from prev xs other
    | lt ↦ let rest = partial_cmp_from gt xs (y ∷ other) in elim prev [ lt ↦ none | _ ↦ rest ]
    | gt ↦ let rest = partial_cmp_from lt (x ∷ xs) other in elim prev [ gt ↦ none | _ ↦ rest ]
  ]

  unfoldable pub partial_cmp : VecSet T → VecSet T → Option Ordering
  unfolding partial_cmp_from
  partial_cmp s other = partial_cmp_from eq s.items other.items

-- `collect` of an iterator whose `next` reads two cursors. Each call passes an item of `lhs`, so one
-- round more than `lhs` has items is enough.
module _ {T : Type 0} where
  unfoldable pub drain :
      (List T → List T → Option (T × (List T × List T))) → ℕ → List T → List T → List T
  drain next zero lhs rhs = []
  drain next (suc fuel) lhs rhs = elim (next lhs rhs) [
    | none ↦ []
    | some (item, (l, r)) ↦ item ∷ drain next fuel l r
  ]

module _ {T : Type 0} ⦃o : Ord T⦄ where
  unfoldable pub difference : VecSet T → VecSet T → List T
  unfolding difference_next drain
  difference s other = drain difference_next (suc (length s.items)) s.items other.items

  unfoldable pub intersection : VecSet T → VecSet T → List T
  unfolding intersection_next drain
  intersection s other = drain intersection_next (suc (length s.items)) s.items other.items
