-- ===== src/Utils/VecSet/Members.antt =====
-- telamon-utils/src/vec_set.rs: the members of a set, and each operation on them.
use telamon.Prelude.{
  ◌≡◌, refl, sym, ap, ◌∙◌, ◌↔◌, ◌⊎◌, inl, inr, Bool, true, false, List, [], ◌∷◌, arith, Bool-cases,
  ◌∈◌,
}
use Prim.Native.Nat.Ordering.{lt}
use telamon.Prelude.Order.{Ord, Above, IsAscending, Above-mem, Above-lt, Above-of_mem}
use telamon.Utils.VecSet
use telamon.Utils.VecSet.{VecSet, contains_in, union_from, intersect_retain, insert_at, keep}
use telamon.Utils.VecSet.{insert_sorted, sort_onto, dedup, dedup_after}

module _ {T : Type 0} ⦃o : Ord T⦄ where
  -- The invariant of the type.
  abbrev pub IsValid : VecSet T → Type 0
  IsValid s = IsAscending s.items

  infix 40 ◌∈ₛ◌
  abbrev pub ◌∈ₛ◌ : T → VecSet T → Type 0
  a ∈ₛ s = a ∈ s.items

  contains_in_iff : (a : T) (xs : List T) → IsAscending xs → (contains_in a xs ≡ true) ↔ (a ∈ xs)
  unfolding contains_in
  contains_in_iff a [] h = (λ e. cc, λ m. absurd m)
  contains_in_iff a (x ∷ xs) h =
      let rest = contains_in_iff a xs h.1 in
      (
        ground (arith, rest.0, (o.same x a).0),
        ground (arith, rest.1, (o.same x a).1, Above-mem x a xs h.0),
      )

  union_from_iff : (xs ys : List T) (a : T) → (a ∈ union_from xs ys) ↔ ((a ∈ xs) ⊎ (a ∈ ys))
  unfolding union_from
  union_from_iff [] ys a = (inr, λ h. elim h [ inl m ↦ absurd m | inr m ↦ m ])
  union_from_iff (x ∷ xs) [] a = (inl, λ h. elim h [ inl m ↦ m | inr m ↦ absurd m ])
  union_from_iff (x ∷ xs) (y ∷ ys) a =
      let both = union_from_iff xs ys a in
      let left = union_from_iff xs (y ∷ ys) a in
      let right = union_from_iff (x ∷ xs) ys a in
      (
        ground (arith, both.0, left.0, right.0),
        ground (arith, both.1, left.1, right.1, (o.same x y).0),
      )

  Above-union_from : (a : T) (xs ys : List T) → Above a xs → Above a ys → Above a (union_from xs ys)
  Above-union_from a xs ys p q = Above-of_mem a (union_from xs ys) λ b m.
      elim ((union_from_iff xs ys b).0 m) [
        | inl h ↦ Above-mem a b xs p h
        | inr h ↦ Above-mem a b ys q h
      ]

  union_from-IsAscending :
      (xs ys : List T) → IsAscending xs → IsAscending ys → IsAscending (union_from xs ys)
  unfolding union_from
  union_from-IsAscending [] ys p q = q
  union_from-IsAscending (x ∷ xs) [] p q = p
  union_from-IsAscending (x ∷ xs) (y ∷ ys) p q = ground (
    arith,
    union_from-IsAscending xs ys p.1 q.1,
    union_from-IsAscending xs (y ∷ ys) p.1 q,
    union_from-IsAscending (x ∷ xs) ys p q.1,
    Above-union_from x xs ys p.0,
    Above-union_from x xs (y ∷ ys) p.0,
    Above-union_from y (x ∷ xs) ys,
    (o.same x y).0,
    o.turned x y,
    Above-lt x y ys,
    Above-lt y x xs,
  )

  intersect_retain_iff :
      (xs ys : List T) (a : T)
      → IsAscending xs
      → IsAscending ys
      → (a ∈ intersect_retain xs ys) ↔ (a ∈ xs) × (a ∈ ys)
  unfolding intersect_retain
  intersect_retain_iff [] ys a p q = (λ m. absurd m, λ m. m.0)
  intersect_retain_iff (x ∷ xs) [] a p q =
      let rest = intersect_retain_iff xs [] a p.1 q in (λ m. absurd (rest.0 m).1, λ m. absurd m.1)
  intersect_retain_iff (x ∷ xs) (y ∷ ys) a p q =
      let left = intersect_retain_iff xs (y ∷ ys) a p.1 q in
      let right = intersect_retain_iff (x ∷ xs) ys a p q.1 in
      (
        ground (arith, left.0, right.0, (o.same x y).0),
        ground (
          arith,
          left.1,
          right.1,
          (o.same x y).0,
          o.turned x y,
          o.turned x a,
          Above-mem x a xs p.0,
          Above-mem y a ys q.0,
          o.lt_trans x y a,
          o.lt_trans y x a,
          (o.same x a).1,
          (o.same y a).1,
        ),
      )

  Above-intersect_retain : (a : T) (xs ys : List T) → Above a xs → Above a (intersect_retain xs ys)
  unfolding intersect_retain
  Above-intersect_retain a [] ys p = tt
  Above-intersect_retain a (x ∷ xs) [] p = Above-intersect_retain a xs [] p.1
  Above-intersect_retain a (x ∷ xs) (y ∷ ys) p =
      ground
        (arith, Above-intersect_retain a xs (y ∷ ys) p.1, Above-intersect_retain a (x ∷ xs) ys p)

  intersect_retain-IsAscending :
      (xs ys : List T) → IsAscending xs → IsAscending (intersect_retain xs ys)
  unfolding intersect_retain
  intersect_retain-IsAscending [] ys p = tt
  intersect_retain-IsAscending (x ∷ xs) [] p = intersect_retain-IsAscending xs [] p.1
  intersect_retain-IsAscending (x ∷ xs) (y ∷ ys) p = ground (
    arith,
    intersect_retain-IsAscending xs (y ∷ ys) p.1,
    intersect_retain-IsAscending (x ∷ xs) ys p,
    Above-intersect_retain x xs (y ∷ ys) p.0,
  )

  insert_at_iff : (b : T) (xs : List T) (a : T) → (a ∈ (insert_at b xs).0) ↔ ((a ≡ b) ⊎ (a ∈ xs))
  unfolding insert_at
  insert_at_iff b [] a = (λ h. h, λ h. h)
  insert_at_iff b (x ∷ xs) a =
      let rest = insert_at_iff b xs a in
      (ground (arith, rest.0), ground (arith, rest.1, (o.same x b).0))

  -- The flag of `insert` says that the item is new.
  insert_at-flag : (b : T) (xs : List T) → IsAscending xs → ((insert_at b xs).1 ≡ true) ↔ ¬ (b ∈ xs)
  unfolding insert_at
  insert_at-flag b [] h = (λ e m. m, λ n. refl)
  insert_at-flag b (x ∷ xs) h =
      let rest = insert_at-flag b xs h.1 in
      (
        λ e m. ground (arith, rest.0, Above-mem x b xs h.0, (o.same x b).1),
        λ n. ground (arith, rest.1, n, (o.same x b).0),
      )

  Above-insert_at :
      (a b : T) (xs : List T) → Above a xs → o.cmp a b ≡ lt → Above a (insert_at b xs).0
  Above-insert_at a b xs h l =
      Above-of_mem a (insert_at b xs).0
        λ c m. elim ((insert_at_iff b xs c).0 m) [ inl e ↦ rw e l | inr k ↦ Above-mem a c xs h k ]

  insert_at-IsAscending : (b : T) (xs : List T) → IsAscending xs → IsAscending (insert_at b xs).0
  unfolding insert_at
  insert_at-IsAscending b [] h = (tt, tt)
  insert_at-IsAscending b (x ∷ xs) h = ground (
    arith,
    insert_at-IsAscending b xs h.1,
    Above-insert_at x b xs h.0,
    o.turned x b,
    Above-lt b x xs,
  )

  keep_iff : (p : T → Bool) (xs : List T) (a : T) → (a ∈ keep p xs) ↔ (a ∈ xs) × (p a ≡ true)
  unfolding keep
  keep_iff p [] a = (λ m. absurd m, λ m. m.0)
  keep_iff p (x ∷ xs) a =
      let rest = keep_iff p xs a in
      elim (Bool-cases (p x)) [
        | inl e ↦ rw e (
          elim [ inl q ↦ (inl q, rw q e) | inr m ↦ (inr (rest.0 m).0, (rest.0 m).1) ],
          λ (m, t). elim m [ inl q ↦ inl q | inr n ↦ inr (rest.1 (n, t)) ],
        )
        | inr e ↦ rw e (
          λ m. (inr (rest.0 m).0, (rest.0 m).1),
          λ (m, t). elim m [
            | inl q ↦ absurd (true_not_false (sym t ∙ ap p q ∙ e))
            | inr n ↦ rest.1 (n, t)
          ],
        )
      ]
    where
      true_not_false : ¬ (true ≡ false)
      true_not_false e = cc

  keep-IsAscending : (p : T → Bool) (xs : List T) → IsAscending xs → IsAscending (keep p xs)
  unfolding keep
  keep-IsAscending p [] h = tt
  keep-IsAscending p (x ∷ xs) h = ground (
    arith,
    keep-IsAscending p xs h.1,
    Above-of_mem x (keep p xs) (λ b m. Above-mem x b xs h.0 ((keep_iff p xs b).0 m).0),
  )

  -- `contains` decides membership of a valid set.
  pub contains-mem_iff :
      (s : VecSet T) (a : T) → IsValid s → (VecSet.contains s a ≡ true) ↔ (a ∈ₛ s)
  unfolding VecSet.contains
  contains-mem_iff s a h = contains_in_iff a s.items h

  -- `insert` keeps the set valid and adds the item alone; its flag says that the item is new.
  pub insert-IsValid :
      (s : VecSet T) (b : T)
      → IsValid s
      → IsValid (VecSet.insert s b).0
        × ((a : T) → (a ∈ₛ (VecSet.insert s b).0) ↔ ((a ≡ b) ⊎ (a ∈ₛ s)))
        × (((VecSet.insert s b).1 ≡ true) ↔ ¬ (b ∈ₛ s))
  unfolding VecSet.insert
  insert-IsValid s b h =
      (insert_at-IsAscending b s.items h, insert_at_iff b s.items, insert_at-flag b s.items h)

  -- `union`, `intersect` and `filter` keep sets valid, and are the set operations they are named for.
  pub operations-IsValid :
      (s t : VecSet T) (p : T → Bool)
      → IsValid s
      → IsValid t
      → IsValid (VecSet.union s t)
        × IsValid (VecSet.intersect s t)
        × IsValid (VecSet.filter s p)
        × ((a : T)
            → ((a ∈ₛ VecSet.union s t) ↔ ((a ∈ₛ s) ⊎ (a ∈ₛ t)))
              × ((a ∈ₛ VecSet.intersect s t) ↔ (a ∈ₛ s) × (a ∈ₛ t))
              × ((a ∈ₛ VecSet.filter s p) ↔ (a ∈ₛ s) × (p a ≡ true)))
  unfolding VecSet.union VecSet.intersect VecSet.filter
  operations-IsValid s t p hs ht = (
    union_from-IsAscending s.items t.items hs ht,
    intersect_retain-IsAscending s.items t.items hs,
    keep-IsAscending p s.items hs,
    λ a. (
      union_from_iff s.items t.items a,
      intersect_retain_iff s.items t.items a hs ht,
      keep_iff p s.items a,
    ),
  )
