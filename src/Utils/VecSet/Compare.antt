-- ===== src/Utils/VecSet/Compare.antt =====
-- telamon-utils/src/vec_set.rs: `partial_cmp`.
use telamon.Prelude.{
  Ordering, ◌≡◌, refl, sym, ap, ◌∙◌, ◌≢◌, ◌↔◌, ◌⊎◌, inl, inr, Option, none, some, List, [], ◌∷◌,
  arith, Ordering-cases, ◌∈◌,
}
use Prim.Native.Nat.Ordering.{lt, eq, gt}
use telamon.Prelude.Order.{Ord, swap, IsAscending, Above-mem, not-mem_Above, Above-lt}
use telamon.Utils.VecSet
use telamon.Utils.VecSet.{VecSet, partial_cmp_from}
use telamon.Utils.VecSet.Members.{IsValid, ◌∈ₛ◌}

flip_extra : {P A B : Type 0} → P ⊎ ¬ A → (B → A) → P ⊎ ¬ B
flip_extra (inl p) f = inl p
flip_extra (inr n) f = inr (λ b. n (f b))

gt_not_lt : ¬ (◌≡◌ {A = Ordering} gt lt)
gt_not_lt e = cc

lt_not_gt : ¬ (◌≡◌ {A = Ordering} lt gt)
lt_not_gt e = cc

eq_not_lt : ¬ (◌≡◌ {A = Ordering} eq lt)
eq_not_lt e = cc

eq_not_gt : ¬ (◌≡◌ {A = Ordering} eq gt)
eq_not_gt e = cc

module _ {T : Type 0} where
  abbrev Sub : List T → List T → Type 0
  Sub xs ys = (a : T) → a ∈ xs → a ∈ ys

  -- `prev` remembers that `self` (gt) or `other` (lt) had an item of its own before these rests.
  abbrev Extra : Ordering → List T → List T → Type 0
  Extra prev xs ys = (prev ≡ gt) ⊎ ¬ Sub xs ys

  abbrev Extra' : Ordering → List T → List T → Type 0
  Extra' prev xs ys = (prev ≡ lt) ⊎ ¬ Sub ys xs

  -- What an answer says of the two sets that the rests belong to.
  abbrev Says : Ordering → List T → List T → Option Ordering → Type 0
  Says prev xs ys none = Extra prev xs ys × Extra' prev xs ys
  Says prev xs ys (some lt) = ((prev ≢ gt) × Sub xs ys) × Extra' prev xs ys
  Says prev xs ys (some gt) = Extra prev xs ys × ((prev ≢ lt) × Sub ys xs)
  Says prev xs ys (some eq) = ((prev ≢ gt) × Sub xs ys) × ((prev ≢ lt) × Sub ys xs)

  -- A step over one item each, over an item of `self`, and over an item of `other`.
  step_both :
      (prev : Ordering) (xs ys xs' ys' : List T) (r : Option Ordering)
      → Sub xs ys ↔ Sub xs' ys'
      → Sub ys xs ↔ Sub ys' xs'
      → Says prev xs ys r
      → Says prev xs' ys' r
  step_both prev xs ys xs' ys' none f g h = (flip_extra h.0 f.1, flip_extra h.1 g.1)
  step_both prev xs ys xs' ys' (some lt) f g h = ((h.0.0, f.0 h.0.1), flip_extra h.1 g.1)
  step_both prev xs ys xs' ys' (some gt) f g h = (flip_extra h.0 f.1, (h.1.0, g.0 h.1.1))
  step_both prev xs ys xs' ys' (some eq) f g h = ((h.0.0, f.0 h.0.1), (h.1.0, g.0 h.1.1))

  step_self :
      (prev : Ordering) (xs ys xs' : List T) (r : Option Ordering)
      → prev ≢ lt
      → ¬ Sub xs' ys
      → Sub ys xs ↔ Sub ys xs'
      → Says gt xs ys r
      → Says prev xs' ys r
  step_self prev xs ys xs' none p n g h =
      (inr n, elim h.1 [ inl e ↦ absurd (gt_not_lt e) | inr m ↦ inr (λ k. m (g.1 k)) ])
  step_self prev xs ys xs' (some lt) p n g h = absurd (h.0.0 refl)
  step_self prev xs ys xs' (some gt) p n g h = (inr n, (p, g.0 h.1.1))
  step_self prev xs ys xs' (some eq) p n g h = absurd (h.0.0 refl)

  step_other :
      (prev : Ordering) (xs ys ys' : List T) (r : Option Ordering)
      → prev ≢ gt
      → ¬ Sub ys' xs
      → Sub xs ys ↔ Sub xs ys'
      → Says lt xs ys r
      → Says prev xs ys' r
  step_other prev xs ys ys' none p n g h =
      (elim h.0 [ inl e ↦ absurd (gt_not_lt (sym e)) | inr m ↦ inr (λ k. m (g.1 k)) ], inr n)
  step_other prev xs ys ys' (some lt) p n g h = ((p, g.0 h.0.1), inr n)
  step_other prev xs ys ys' (some gt) p n g h = absurd (h.1.0 refl)
  step_other prev xs ys ys' (some eq) p n g h = absurd (h.1.0 refl)

  on_self :
      (prev : Ordering) (xs ys xs' : List T) (rest : Option Ordering)
      → ¬ Sub xs' ys
      → Sub ys xs ↔ Sub ys xs'
      → Says gt xs ys rest
      → Says prev xs' ys (elim prev [ lt ↦ none | _ ↦ rest ])
  on_self lt xs ys xs' rest n g h = (inr n, inl refl)
  on_self eq xs ys xs' rest n g h = step_self eq xs ys xs' rest eq_not_lt n g h
  on_self gt xs ys xs' rest n g h = step_self gt xs ys xs' rest gt_not_lt n g h

  on_other :
      (prev : Ordering) (xs ys ys' : List T) (rest : Option Ordering)
      → ¬ Sub ys' xs
      → Sub xs ys ↔ Sub xs ys'
      → Says lt xs ys rest
      → Says prev xs ys' (elim prev [ gt ↦ none | _ ↦ rest ])
  on_other gt xs ys ys' rest n g h = (inl refl, inr n)
  on_other eq xs ys ys' rest n g h = step_other eq xs ys ys' rest eq_not_gt n g h
  on_other lt xs ys ys' rest n g h = step_other lt xs ys ys' rest lt_not_gt n g h

module _ {T : Type 0} ⦃o : Ord T⦄ where
  Sub-tails :
      (x y : T) (xs ys : List T) → x ≡ y → IsAscending (x ∷ xs) → Sub xs ys ↔ Sub (x ∷ xs) (y ∷ ys)
  Sub-tails x y xs ys e p = (
    λ f a. elim [ inl q ↦ inl (q ∙ e) | inr m ↦ inr (f a m) ],
    λ f a m. elim (f a (inr m)) [
      | inl q ↦ absurd (not-mem_Above x xs p.0 (rw (q ∙ sym e) at m))
      | inr n ↦ n
    ],
  )

  -- An item before all of the other set is not in it, and does not help to include the other.
  not-Sub_head :
      (x y : T) (xs ys : List T) → o.cmp x y ≡ lt → IsAscending (y ∷ ys) → ¬ Sub (x ∷ xs) (y ∷ ys)
  not-Sub_head x y xs ys l q f = elim (f x (inl refl)) [
    | inl e ↦ ground (arith, (o.same x y).1 e)
    | inr m ↦ not-mem_Above x ys (Above-lt x y ys l q.0) m
  ]

  Sub-past :
      (x y : T) (xs ys : List T)
      → o.cmp x y ≡ lt
      → IsAscending (y ∷ ys)
      → Sub (y ∷ ys) xs ↔ Sub (y ∷ ys) (x ∷ xs)
  Sub-past x y xs ys l q = (
    λ f a m. inr (f a m),
    λ f a m. elim (f a m) [
      | inl e ↦ absurd (ground (arith, (o.same x a).1 (sym e), below a m))
      | inr n ↦ n
    ],
  )
    where
      below : (a : T) → a ∈ y ∷ ys → o.cmp x a ≡ lt
      below a (inl e) = rw e l
      below a (inr m) = Above-mem x a ys (Above-lt x y ys l q.0) m

  partial_cmp_from-Says :
      (prev : Ordering) (xs ys : List T)
      → IsAscending xs
      → IsAscending ys
      → Says prev xs ys (partial_cmp_from prev xs ys)
  unfolding partial_cmp_from
  partial_cmp_from-Says lt [] [] p q = ((lt_not_gt, λ a m. m), inl refl)
  partial_cmp_from-Says eq [] [] p q = ((eq_not_gt, λ a m. m), (eq_not_lt, λ a m. m))
  partial_cmp_from-Says gt [] [] p q = (inl refl, (gt_not_lt, λ a m. m))
  partial_cmp_from-Says lt [] (y ∷ ys) p q = ((lt_not_gt, λ a m. absurd m), inl refl)
  partial_cmp_from-Says eq [] (y ∷ ys) p q =
      ((eq_not_gt, λ a m. absurd m), inr (λ f. f y (inl refl)))
  partial_cmp_from-Says gt [] (y ∷ ys) p q = (inl refl, inr (λ f. f y (inl refl)))
  partial_cmp_from-Says lt (x ∷ xs) [] p q = (inr (λ f. f x (inl refl)), inl refl)
  partial_cmp_from-Says eq (x ∷ xs) [] p q =
      (inr (λ f. f x (inl refl)), (eq_not_lt, λ a m. absurd m))
  partial_cmp_from-Says gt (x ∷ xs) [] p q = (inl refl, (gt_not_lt, λ a m. absurd m))
  partial_cmp_from-Says prev (x ∷ xs) (y ∷ ys) p q =
      let both = partial_cmp_from-Says prev xs ys p.1 q.1 in
      let self = partial_cmp_from-Says gt xs (y ∷ ys) p.1 q in
      let other = partial_cmp_from-Says lt (x ∷ xs) ys p q.1 in
      elim (Ordering-cases (o.cmp x y)) [
        | inl less ↦
            rw (less, partial_cmp_from)
              (on_self prev xs (y ∷ ys) (x ∷ xs) (partial_cmp_from gt xs (y ∷ ys))
                (not-Sub_head x y xs ys less q) (Sub-past x y xs ys less q) self)
        | inr (inl same) ↦
            let e = (o.same x y).0 same in
            rw (same, partial_cmp_from)
              (step_both prev xs ys (x ∷ xs) (y ∷ ys) (partial_cmp_from prev xs ys)
                (Sub-tails x y xs ys e p) (Sub-tails y x ys xs (sym e) q) both)
        | inr (inr more) ↦
            let less : o.cmp y x ≡ lt = o.turned x y ∙ ap swap more in
            rw (more, partial_cmp_from)
              (on_other prev (x ∷ xs) ys (y ∷ ys) (partial_cmp_from lt (x ∷ xs) ys)
                (not-Sub_head y x ys xs less p) (Sub-past y x ys xs less p) other)
      ]

  -- Every item of the one set is in the other.
  abbrev pub IsSubset : VecSet T → VecSet T → Type 0
  IsSubset s t = (a : T) → a ∈ₛ s → a ∈ₛ t

  -- What an answer of `partial_cmp` means for the two sets.
  abbrev pub Means : VecSet T → VecSet T → Option Ordering → Type 0
  Means s t none = ¬ IsSubset s t × ¬ IsSubset t s
  Means s t (some lt) = IsSubset s t × ¬ IsSubset t s
  Means s t (some gt) = ¬ IsSubset s t × IsSubset t s
  Means s t (some eq) = IsSubset s t × IsSubset t s

  Means-of_Says : (s t : VecSet T) (r : Option Ordering) → Says eq s.items t.items r → Means s t r
  Means-of_Says s t none h = (extra h.0, extra' h.1)
    where
      extra : {P : Type 0} → (◌≡◌ {A = Ordering} eq gt) ⊎ ¬ P → ¬ P
      extra = elim [ inl e ↦ absurd (eq_not_gt e) | inr n ↦ n ]

      extra' : {P : Type 0} → (◌≡◌ {A = Ordering} eq lt) ⊎ ¬ P → ¬ P
      extra' = elim [ inl e ↦ absurd (eq_not_lt e) | inr n ↦ n ]
  Means-of_Says s t (some lt) h = (h.0.1, elim h.1 [ inl e ↦ absurd (eq_not_lt e) | inr n ↦ n ])
  Means-of_Says s t (some gt) h = (elim h.0 [ inl e ↦ absurd (eq_not_gt e) | inr n ↦ n ], h.1.1)
  Means-of_Says s t (some eq) h = (h.0.1, h.1.1)

  -- On valid sets `partial_cmp` answers by inclusion: `Equal` if each is a subset of the other,
  -- `Less` and `Greater` for a strict subset, and no order if neither is a subset.
  pub partial_cmp-Means :
      (s t : VecSet T) → IsValid s → IsValid t → Means s t (VecSet.partial_cmp s t)
  unfolding VecSet.partial_cmp
  partial_cmp-Means s t p q =
      Means-of_Says s t (partial_cmp_from eq s.items t.items)
        (partial_cmp_from-Says eq s.items t.items p q)
