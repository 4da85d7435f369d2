-- ===== src/Utils/VecSet/Sorting.antt =====
-- telamon-utils/src/vec_set.rs: `VecSet::new`, sorting and dropping duplicates.
use telamon.Prelude.{◌≡◌, ◌≢◌, ◌↔◌, ◌⊎◌, inl, inr, List, [], ◌∷◌, arith, Ordering-cases, ◌∈◌, All}
use Prim.Native.Nat.Ordering.{gt}
use telamon.Prelude.Order.{Ord, Above, IsAscending, Above-lt}
use telamon.Utils.VecSet.{insert_sorted, sort_onto, dedup, dedup_after, new}
use telamon.Utils.VecSet.Members.{IsValid, ◌∈ₛ◌}

module _ {T : Type 0} ⦃o : Ord T⦄ where
  abbrev NotBelow : T → List T → Type 0
  NotBelow a xs = All (λ x. o.cmp a x ≢ gt) xs

  abbrev IsOrdered : List T → Type 0
  IsOrdered [] = Unit
  IsOrdered (x ∷ xs) = NotBelow x xs × IsOrdered xs

  not-gt_trans : (a b c : T) → o.cmp a b ≢ gt → o.cmp b c ≢ gt → o.cmp a c ≢ gt
  not-gt_trans a b c p q r = elim (Ordering-cases (o.cmp a b)) [
    | inl less ↦ elim (Ordering-cases (o.cmp b c)) [
      | inl less' ↦ ground (arith, o.lt_trans a b c less less')
      | inr (inl e) ↦ ground (arith, (o.same b c).0 e)
      | inr (inr more) ↦ q more
    ]
    | inr (inl e) ↦ q (rw (← (o.same a b).0 e) r)
    | inr (inr more) ↦ p more
  ]

  NotBelow-le : (a b : T) (xs : List T) → o.cmp a b ≢ gt → NotBelow b xs → NotBelow a xs
  NotBelow-le a b [] h k = tt
  NotBelow-le a b (x ∷ xs) h k = (not-gt_trans a b x h k.0, NotBelow-le a b xs h k.1)

  insert_sorted_iff :
      (a : T) (xs : List T) (b : T) → (b ∈ insert_sorted a xs) ↔ ((b ≡ a) ⊎ (b ∈ xs))
  unfolding insert_sorted
  insert_sorted_iff a [] b = (λ m. m, λ m. m)
  insert_sorted_iff a (x ∷ xs) b =
      let rest = insert_sorted_iff a xs b in (ground (arith, rest.0), ground (arith, rest.1))

  NotBelow-insert_sorted :
      (c a : T) (xs : List T) → o.cmp c a ≢ gt → NotBelow c xs → NotBelow c (insert_sorted a xs)
  unfolding insert_sorted
  NotBelow-insert_sorted c a [] h k = (h, tt)
  NotBelow-insert_sorted c a (x ∷ xs) h k =
      ground (arith, NotBelow-insert_sorted c a xs h k.1, h, k.0, k.1)

  insert_sorted-IsOrdered : (a : T) (xs : List T) → IsOrdered xs → IsOrdered (insert_sorted a xs)
  unfolding insert_sorted
  insert_sorted-IsOrdered a [] h = (tt, tt)
  insert_sorted-IsOrdered a (x ∷ xs) h = elim (Ordering-cases (o.cmp x a)) [
    | inl less ↦
        rw (less, insert_sorted)
          (NotBelow-insert_sorted x a xs (λ g. cc) h.0, insert_sorted-IsOrdered a xs h.1)
    | inr (inl e) ↦
        rw (e, insert_sorted)
          (NotBelow-insert_sorted x a xs (λ g. cc) h.0, insert_sorted-IsOrdered a xs h.1)
    | inr (inr more) ↦
        let le : o.cmp a x ≢ gt = λ g. ground (arith, o.turned x a) in
        rw (more, insert_sorted) ((le, NotBelow-le a x xs le h.0), h)
  ]

  sort_onto-IsOrdered : (done xs : List T) → IsOrdered done → IsOrdered (sort_onto done xs)
  unfolding sort_onto
  sort_onto-IsOrdered done [] h = h
  sort_onto-IsOrdered done (x ∷ xs) h =
      sort_onto-IsOrdered (insert_sorted x done) xs (insert_sorted-IsOrdered x done h)

  sort_onto_iff : (done xs : List T) (b : T) → (b ∈ sort_onto done xs) ↔ ((b ∈ done) ⊎ (b ∈ xs))
  unfolding sort_onto
  sort_onto_iff done [] b = (inl, λ h. elim h [ inl m ↦ m | inr m ↦ absurd m ])
  sort_onto_iff done (x ∷ xs) b =
      let rest = sort_onto_iff (insert_sorted x done) xs b in
      let placed = insert_sorted_iff x done b in
      (ground (arith, rest.0, placed.0), ground (arith, rest.1, placed.1))

  dedup_after_iff :
      (a : T) (xs : List T) (b : T) → ((b ≡ a) ⊎ (b ∈ dedup_after a xs)) ↔ ((b ≡ a) ⊎ (b ∈ xs))
  unfolding dedup_after
  dedup_after_iff a [] b = (λ h. h, λ h. h)
  dedup_after_iff a (x ∷ xs) b =
      let same = dedup_after_iff a xs b in
      let next = dedup_after_iff x xs b in
      (ground (arith, same.0, next.0), ground (arith, same.1, next.1, (o.same a x).0))

  dedup_after-IsAscending :
      (a : T) (xs : List T)
      → NotBelow a xs
      → IsOrdered xs
      → Above a (dedup_after a xs) × IsAscending (dedup_after a xs)
  unfolding dedup_after
  dedup_after-IsAscending a [] p q = (tt, tt)
  dedup_after-IsAscending a (x ∷ xs) p q =
      let next = dedup_after-IsAscending x xs q.0 q.1 in
      ground (
        arith,
        dedup_after-IsAscending a xs p.1 q.1,
        next.0,
        next.1,
        p.0,
        Above-lt a x (dedup_after x xs),
      )

  dedup-IsAscending : (xs : List T) → IsOrdered xs → IsAscending (dedup xs)
  unfolding dedup
  dedup-IsAscending [] h = tt
  dedup-IsAscending (x ∷ xs) h = dedup_after-IsAscending x xs h.0 h.1

  dedup_iff : (xs : List T) (b : T) → (b ∈ dedup xs) ↔ (b ∈ xs)
  unfolding dedup
  dedup_iff [] b = (λ m. m, λ m. m)
  dedup_iff (x ∷ xs) b = dedup_after_iff x xs b

  -- `new` makes a valid set of exactly the values given, in whatever order and however often.
  pub new-IsValid :
      (values : List T) → IsValid (new values) × ((a : T) → (a ∈ₛ new values) ↔ (a ∈ values))
  unfolding new
  new-IsValid values = (
    dedup-IsAscending (sort_onto [] values) (sort_onto-IsOrdered [] values tt),
    λ a.
        let unique = dedup_iff (sort_onto [] values) a in
        let sorted = sort_onto_iff [] values a in
        (
          λ m. elim (sorted.0 (unique.0 m)) [ inl n ↦ absurd n | inr n ↦ n ],
          λ m. unique.1 (sorted.1 (inr m)),
        ),
  )
