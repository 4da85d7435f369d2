-- ===== src/Utils/VecSet/Iterators.antt =====
-- telamon-utils/src/vec_set.rs: the iterators `Difference` and `Intersection`.
use telamon.Prelude.{
  ℕ, zero, suc, ◌≤◌, ◌<◌, ◌≡◌, refl, sym, ap, ◌∙◌, ◌↔◌, inl, inr, Option, none, some, List, [], ◌∷◌,
  arith, if◌then◌else◌, Bool-cases, Ordering-cases, length, ◌∈◌,
}
use Prim.Native.Nat.Ordering.{lt, eq, gt}
use telamon.Prelude.Order.{Ord, Above, IsAscending, Above-mem, Above-lt, swap}
use telamon.Utils.VecSet
use telamon.Utils.VecSet.{VecSet, pass, difference_next, intersection_next, drain}
use telamon.Utils.VecSet.Members.{IsValid, ◌∈ₛ◌}

module _ {T : Type 0} ⦃o : Ord T⦄ where
  -- The merges that the two iterators walk.
  differ : List T → List T → List T
  differ [] ys = []
  differ (x ∷ xs) [] = x ∷ differ xs []
  differ (x ∷ xs) (y ∷ ys) = elim (o.cmp y x) [
    | lt ↦ differ (x ∷ xs) ys
    | gt ↦ x ∷ differ xs (y ∷ ys)
    | eq ↦ differ xs (y ∷ ys)
  ]

  meet : List T → List T → List T
  meet [] ys = []
  meet (x ∷ xs) [] = []
  meet (x ∷ xs) (y ∷ ys) = elim (o.cmp x y) [
    | lt ↦ meet xs (y ∷ ys)
    | eq ↦ x ∷ meet xs ys
    | gt ↦ meet (x ∷ xs) ys
  ]

  -- What is left after one item.
  abbrev rest_of : (List T → List T → List T) → Option (T × (List T × List T)) → List T
  rest_of merge none = []
  rest_of merge (some (a, (l, r))) = a ∷ merge l r

  abbrev Shrinks : List T → Option (T × (List T × List T)) → Type 0
  Shrinks xs none = Unit
  Shrinks xs (some (a, (l, r))) = length l < length xs

  Shrinks-cons :
      (x : T) (xs : List T) (r : Option (T × (List T × List T))) → Shrinks xs r → Shrinks (x ∷ xs) r
  Shrinks-cons x xs none h = tt
  Shrinks-cons x xs (some (a, (l, r))) h = omega arith

  differ-pass :
      (x : T) (xs ys : List T)
      → differ (x ∷ xs) ys
        ≡ (if (pass x ys).0 then differ xs (pass x ys).1 else x ∷ differ xs (pass x ys).1)
  unfolding differ pass
  differ-pass x xs [] = refl
  differ-pass x xs (y ∷ ys) = ground (arith, differ-pass x xs ys)

  difference_next-step :
      (xs ys : List T)
      → (differ xs ys ≡ rest_of differ (difference_next xs ys)) × Shrinks xs (difference_next xs ys)
  unfolding differ difference_next
  difference_next-step [] ys = (refl, tt)
  difference_next-step (x ∷ xs) ys =
      let later = difference_next-step xs (pass x ys).1 in
      elim (Bool-cases (pass x ys).0) [
        | inl met ↦ (
          differ-pass x xs ys ∙ (rw met later.0),
          rw met (Shrinks-cons x xs (difference_next xs (pass x ys).1) later.1),
        )
        | inr new ↦ (differ-pass x xs ys ∙ (rw new refl), rw new (omega arith))
      ]

  intersection_next-step :
      (xs ys : List T)
      → (meet xs ys ≡ rest_of meet (intersection_next xs ys)) × Shrinks xs (intersection_next xs ys)
  unfolding meet intersection_next
  intersection_next-step [] ys = (refl, tt)
  intersection_next-step (x ∷ xs) [] = (refl, tt)
  intersection_next-step (x ∷ xs) (y ∷ ys) =
      let left = intersection_next-step xs (y ∷ ys) in
      let right = intersection_next-step (x ∷ xs) ys in
      elim (Ordering-cases (o.cmp x y)) [
        | inl less ↦
            rw (less, meet, intersection_next)
              (left.0, Shrinks-cons x xs (intersection_next xs (y ∷ ys)) left.1)
        | inr (inl same) ↦ rw (same, meet, intersection_next) (refl, omega arith)
        | inr (inr more) ↦ rw (more, meet, intersection_next) right
      ]

  drain_after :
      (merge : List T → List T → List T) (next : List T → List T → Option (T × (List T × List T)))
      (fuel : ℕ) (xs ys : List T) (r : Option (T × (List T × List T)))
      → ((l m : List T) → length l < fuel → drain next fuel l m ≡ merge l m)
      → length xs ≤ fuel
      → (merge xs ys ≡ rest_of merge r) × Shrinks xs r
      → elim r [ none ↦ [] | some (item, (l, m)) ↦ item ∷ drain next fuel l m ] ≡ merge xs ys
  drain_after merge next fuel xs ys none ih f h = sym h.0
  drain_after merge next fuel xs ys (some (a, (l, m))) ih f h =
      ap (λ t. a ∷ t) (ih l m (omega (arith, h.1))) ∙ sym h.0

  drain-merge :
      (merge : List T → List T → List T) (next : List T → List T → Option (T × (List T × List T)))
      → ((xs ys : List T) → (merge xs ys ≡ rest_of merge (next xs ys)) × Shrinks xs (next xs ys))
      → (fuel : ℕ) (xs ys : List T) → length xs < fuel
      → drain next fuel xs ys ≡ merge xs ys
  unfolding drain
  drain-merge merge next step zero xs ys h = absurd (omega arith)
  drain-merge merge next step (suc fuel) xs ys h =
      drain_after merge next fuel xs ys (next xs ys)
        (λ l m k. drain-merge merge next step fuel l m k) (omega arith) (step xs ys)

  past :
      (b x : T) (xs : List T) (a : T)
      → o.cmp b x ≡ lt
      → IsAscending (x ∷ xs)
      → a ∈ x ∷ xs
      → o.cmp b a ≡ lt
  past b x xs a l p (inl e) = rw e l
  past b x xs a l p (inr m) = Above-mem b a xs (Above-lt b x xs l p.0) m

  fresh : (b a : T) → o.cmp b a ≡ lt → ¬ (a ≡ b)
  fresh b a l e = ground (arith, (o.same b a).1 (sym e))

  differ_iff :
      (xs ys : List T) (a : T)
      → IsAscending xs
      → IsAscending ys
      → (a ∈ differ xs ys) ↔ (a ∈ xs) × ¬ (a ∈ ys)
  unfolding differ
  differ_iff [] ys a p q = (λ m. absurd m, λ m. m.0)
  differ_iff (x ∷ xs) [] a p q =
      let rest = differ_iff xs [] a p.1 q in
      (
        elim [ inl e ↦ (inl e, λ n. n) | inr m ↦ (inr (rest.0 m).0, λ n. n) ],
        λ (m, n). elim m [ inl e ↦ inl e | inr k ↦ inr (rest.1 (k, n)) ],
      )
  differ_iff (x ∷ xs) (y ∷ ys) a p q =
      let left = differ_iff (x ∷ xs) ys a p q.1 in
      let right = differ_iff xs (y ∷ ys) a p.1 q in
      elim (Ordering-cases (o.cmp y x)) [
        | inl less ↦
            rw (less, differ)
              (
                λ m.
                    let (k, n) = left.0 m in
                    (k, elim [ inl e ↦ fresh y a (past y x xs a less p k) e | inr j ↦ n j ]),
                λ (k, n). left.1 (k, λ j. n (inr j)),
              )
        | inr (inl same) ↦
            rw (same, differ)
              (
                λ m. (inr (right.0 m).0, (right.0 m).1),
                λ (m, n). elim m [
                  | inl e ↦ absurd (n (inl (e ∙ sym ((o.same y x).0 same))))
                  | inr k ↦ right.1 (k, n)
                ],
              )
        | inr (inr more) ↦
            let less : o.cmp x y ≡ lt = o.turned y x ∙ ap swap more in
            rw (more, differ)
              (
                elim [
                  | inl e ↦ (inl e, λ j. fresh x a (past x y ys a less q j) e)
                  | inr m ↦ (inr (right.0 m).0, (right.0 m).1)
                ],
                λ (m, n). elim m [ inl e ↦ inl e | inr k ↦ inr (right.1 (k, n)) ],
              )
      ]

  Above-differ : (a : T) (xs ys : List T) → Above a xs → Above a (differ xs ys)
  unfolding differ
  Above-differ a [] ys p = tt
  Above-differ a (x ∷ xs) [] p = (p.0, Above-differ a xs [] p.1)
  Above-differ a (x ∷ xs) (y ∷ ys) p =
      ground (arith, Above-differ a (x ∷ xs) ys p, Above-differ a xs (y ∷ ys) p.1)

  differ-IsAscending : (xs ys : List T) → IsAscending xs → IsAscending (differ xs ys)
  unfolding differ
  differ-IsAscending [] ys p = tt
  differ-IsAscending (x ∷ xs) [] p = (Above-differ x xs [] p.0, differ-IsAscending xs [] p.1)
  differ-IsAscending (x ∷ xs) (y ∷ ys) p = ground (
    arith,
    differ-IsAscending (x ∷ xs) ys p,
    differ-IsAscending xs (y ∷ ys) p.1,
    Above-differ x xs (y ∷ ys) p.0,
  )

  meet_iff :
      (xs ys : List T) (a : T)
      → IsAscending xs
      → IsAscending ys
      → (a ∈ meet xs ys) ↔ (a ∈ xs) × (a ∈ ys)
  unfolding meet
  meet_iff [] ys a p q = (λ m. absurd m, λ m. m.0)
  meet_iff (x ∷ xs) [] a p q = (λ m. absurd m, λ m. m.1)
  meet_iff (x ∷ xs) (y ∷ ys) a p q =
      let left = meet_iff xs (y ∷ ys) a p.1 q in
      let right = meet_iff (x ∷ xs) ys a p q.1 in
      let both = meet_iff xs ys a p.1 q.1 in
      (
        ground (arith, left.0, right.0, both.0, (o.same x y).0),
        ground (
          arith,
          left.1,
          right.1,
          both.1,
          (o.same x y).0,
          o.turned x y,
          o.turned x a,
          Above-mem x a xs p.0,
          Above-mem y a ys q.0,
          o.lt_trans x y a,
          o.lt_trans y x a,
          (o.same x a).1,
          (o.same y a).1,
        ),
      )

  Above-meet : (a : T) (xs ys : List T) → Above a xs → Above a (meet xs ys)
  unfolding meet
  Above-meet a [] ys p = tt
  Above-meet a (x ∷ xs) [] p = tt
  Above-meet a (x ∷ xs) (y ∷ ys) p =
      ground
        (arith, Above-meet a xs (y ∷ ys) p.1, Above-meet a (x ∷ xs) ys p, Above-meet a xs ys p.1)

  meet-IsAscending : (xs ys : List T) → IsAscending xs → IsAscending (meet xs ys)
  unfolding meet
  meet-IsAscending [] ys p = tt
  meet-IsAscending (x ∷ xs) [] p = tt
  meet-IsAscending (x ∷ xs) (y ∷ ys) p = ground (
    arith,
    meet-IsAscending xs (y ∷ ys) p.1,
    meet-IsAscending (x ∷ xs) ys p,
    meet-IsAscending xs ys p.1,
    Above-meet x xs ys p.0,
  )

  -- On valid sets the two iterators end, and visit in ascending order the items of `s` that are not
  -- in `t`, and those that are in both.
  pub iterators-visit :
      (s t : VecSet T)
      → IsValid s
      → IsValid t
      → IsAscending (VecSet.difference s t)
        × IsAscending (VecSet.intersection s t)
        × ((a : T)
            → ((a ∈ VecSet.difference s t) ↔ (a ∈ₛ s) × ¬ (a ∈ₛ t))
              × ((a ∈ VecSet.intersection s t) ↔ (a ∈ₛ s) × (a ∈ₛ t)))
  unfolding VecSet.difference VecSet.intersection
  iterators-visit s t p q =
      let n = suc (length s.items) in
      let walk_d =
        drain-merge differ difference_next difference_next-step n s.items t.items (omega arith) in
      let walk_m =
        drain-merge meet intersection_next intersection_next-step n s.items t.items (omega arith) in
      rw (walk_d, walk_m)
        (
          differ-IsAscending s.items t.items p,
          meet-IsAscending s.items t.items p,
          λ a. (differ_iff s.items t.items a p q, meet_iff s.items t.items a p q),
        )
