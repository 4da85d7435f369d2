-- ===== src/Ir/Size/Product.antt =====
-- src/ir/size.rs: the dimensions of a product of several sizes.
use telamon.Prelude.{
  ℕ, ◌≡◌, refl, ◌↔◌, ◌⊎◌, inl, inr, some, List, [], ◌∷◌, ◌++◌, ◌∈◌, mem-append_left,
  mem-append_right, mem-append_cases, mul32,
}
use telamon.Prelude.Order.{nat_ord, compare-same}
use telamon.Utils.VecSet
use telamon.Utils.VecSet.{VecSet, union_from}
use telamon.Utils.VecSet.Members.{◌∈ₛ◌}
use telamon.Utils.VecSet.Sorting.{new-IsValid}
use telamon.Utils.VecSet.InPlace.Refines.{minus, relative_difference-minus}
use telamon.Ir.Size.{PartialSize, simplify, mul_assign, product, product_from, new_dim_size}
use telamon.Ir.Size.Value.{IsReduced, simplify_lem}

shift :
    (a : ℕ) (xs ys : List ℕ) (Rest : Type 0)
    → ((a ∈ xs ++ ys) ⊎ Rest) ↔ ((a ∈ xs) ⊎ ((a ∈ ys) ⊎ Rest))
shift a xs ys Rest = (
  elim [
    | inl m ↦ elim (mem-append_cases a xs ys m) [ inl l ↦ inl l | inr l ↦ inr (inl l) ]
    | inr m ↦ inr (inr m)
  ],
  elim [
    | inl m ↦ inl (mem-append_left a xs ys m)
    | inr (inl m) ↦ inl (mem-append_right a xs ys m)
    | inr (inr m) ↦ inr m
  ],
)

at_end : (a : ℕ) (values xs : List ℕ) → ((a ∈ xs) ↔ (a ∈ values)) → (a ∈ xs) ↔ ((a ∈ values) ⊎ ⊥)
at_end a values xs h = (λ m. inl (h.0 m), elim [ inl m ↦ h.1 m | inr m ↦ absurd m ])

drop_left : (A : Type 0) → (⊥ ⊎ A) ↔ A
drop_left A = (elim [ inl m ↦ absurd m | inr m ↦ m ], λ m. inr m)

swap_sides : (C A B A' B' : Type 0) → (C ↔ A × ¬ B) → (A ↔ A') → (B ↔ B') → C ↔ A' × ¬ B'
swap_sides C A B A' B' h p q =
    (λ c. (p.0 (h.0 c).0, λ b. (h.0 c).1 (q.1 b)), λ (a, n). h.1 (p.1 a, λ b. n (q.0 b)))

union_self :
    (d : ℕ)
    → VecSet.union (record { items = d ∷ [] }) (record { items = d ∷ [] })
      ≡ record { items = d ∷ [] }
unfolding VecSet.union
union_self d = let same = (compare-same d d).1 refl in rw (same, union_from) refl

module _ {P : Type 0} where
  -- Some size of the list has the dimension as a factor, or as a divisor.
  abbrev pub IsFactor : ℕ → List (PartialSize P) → Type 0
  IsFactor a [] = ⊥
  IsFactor a (s ∷ sizes) = (a ∈ₛ s.dim_factors) ⊎ IsFactor a sizes

  abbrev pub IsDivisor : ℕ → List (PartialSize P) → Type 0
  IsDivisor a [] = ⊥
  IsDivisor a (s ∷ sizes) = (a ∈ₛ s.divisors) ⊎ IsDivisor a sizes

  -- What the loop returns for the vectors it has.
  abbrev Keeps : List ℕ → List ℕ → List (PartialSize P) → PartialSize P → ℕ → Type 0
  Keeps factors divisors sizes r a =
      ((a ∈ₛ r.dim_factors)
        ↔ ((a ∈ factors) ⊎ IsFactor a sizes) × ¬ ((a ∈ divisors) ⊎ IsDivisor a sizes))
      × ((a ∈ₛ r.divisors)
          ↔ ((a ∈ divisors) ⊎ IsDivisor a sizes) × ¬ ((a ∈ factors) ⊎ IsFactor a sizes))

  product_from-IsReduced :
      (factor : ℕ) (params : List P) (factors divisors : List ℕ) (sizes : List (PartialSize P))
      → (r : PartialSize P) × (product_from factor params factors divisors sizes ≡ some r)
        × IsReduced r
        × ((a : ℕ) → Keeps factors divisors sizes r a)
  unfolding product_from
  product_from-IsReduced factor params factors divisors [] =
      let (valid, mem) = new-IsValid factors in
      let (valid', mem') = new-IsValid divisors in
      let (r, e, reduced, value, sides) =
        simplify_lem {P = P} (λ p. 1) (λ a. 1)
          record {
            static_factor = factor;
            param_factors = params;
            dim_factors = VecSet.new factors;
            divisors = VecSet.new divisors;
          }
          record { dim_factors_sound = valid; divisors_sound = valid' } in
      (
        r,
        e,
        reduced,
        λ a.
            let top = at_end a factors (VecSet.new factors).items (mem a) in
            let bottom = at_end a divisors (VecSet.new divisors).items (mem' a) in
            (
              swap_sides _ _ _ _ _ (sides a).0 top bottom,
              swap_sides _ _ _ _ _ (sides a).1 bottom top,
            ),
      )
  product_from-IsReduced factor params factors divisors (s ∷ sizes) =
      let (r, e, reduced, keeps) =
        product_from-IsReduced (mul32 factor s.static_factor) (params ++ s.param_factors)
          (factors ++ s.dim_factors.items) (divisors ++ s.divisors.items) sizes in
      (
        r,
        e,
        reduced,
        λ a.
            let top = shift a factors s.dim_factors.items (IsFactor a sizes) in
            let bottom = shift a divisors s.divisors.items (IsDivisor a sizes) in
            (
              swap_sides _ _ _ _ _ (keeps a).0 top bottom,
              swap_sides _ _ _ _ _ (keeps a).1 bottom top,
            ),
      )

  -- `product` returns a simplified fraction: its dimension factors are the factors of the sizes that are
  -- a divisor of none of them, and its divisors the divisors that are a factor of none.
  pub product-IsReduced :
      (sizes : List (PartialSize P))
      → (r : PartialSize P) × (product sizes ≡ some r)
        × IsReduced r
        × ((a : ℕ)
            → ((a ∈ₛ r.dim_factors) ↔ IsFactor a sizes × ¬ IsDivisor a sizes)
              × ((a ∈ₛ r.divisors) ↔ IsDivisor a sizes × ¬ IsFactor a sizes))
  unfolding product
  product-IsReduced sizes =
      let (r, e, reduced, keeps) = product_from-IsReduced 1 [] [] [] sizes in
      (
        r,
        e,
        reduced,
        λ a. (
          swap_sides _ _ _ _ _ (keeps a).0 (drop_left (IsFactor a sizes))
              (drop_left (IsDivisor a sizes)),
          swap_sides _ _ _ _ _ (keeps a).1 (drop_left (IsDivisor a sizes))
              (drop_left (IsFactor a sizes)),
        ),
      )

  -- The size of a dimension times itself is that size once, not its square.
  pub mul_assign-repeated :
      (d : ℕ) → mul_assign (new_dim_size {P = P} d) (new_dim_size d) ≡ some (new_dim_size d)
  unfolding mul_assign new_dim_size VecSet.new minus VecSet.union
  mul_assign-repeated d =
      let once : VecSet ℕ = record { items = d ∷ [] } in
      let joined : VecSet.union once once ≡ once = union_self d in
      rw (joined, relative_difference-minus once (record { items = [] }), simplify) refl
