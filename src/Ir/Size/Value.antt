-- ===== src/Ir/Size/Value.antt =====
-- src/ir/size.rs: the fraction that a `PartialSize` stands for, once every parameter and dimension has a
-- value.
use telamon.Prelude.{
  ℕ, ◌*◌, ◌<◌, compare, ◌≡◌, refl, ap, ◌↔◌, inl, inr, Bool, true, some, List, [], ◌∷◌, ◌++◌, arith,
  Ordering-cases, ◌∈◌, u32_mod, mul32,
}
use telamon.Prelude.Order.{nat_ord, compare-same, compare-turned}
use telamon.Utils.VecSet
use telamon.Utils.VecSet.{VecSet, union_from}
use telamon.Utils.VecSet.Members.{IsValid, ◌∈ₛ◌, operations-IsValid}
use telamon.Utils.VecSet.InPlace.Refines.{
  minus, minus-nil, relative_difference-minus, minus-IsAscending, minus_iff,
}
use telamon.Ir.Size.{PartialSize, simplify, add_divisors, mul_assign, with_fraction}

abbrev pub product_of : {A : Type 0} → (A → ℕ) → List A → ℕ
product_of f [] = 1
product_of f (x ∷ xs) = f x * product_of f xs

module _ (f : ℕ → ℕ) where
  -- What a difference drops is common to both sides.
  product-minus :
      (xs ys : List ℕ)
      → product_of f (minus xs ys) * product_of f ys ≡ product_of f xs * product_of f (minus ys xs)
  unfolding minus
  product-minus [] ys = rw (minus-nil ys) refl
  product-minus (x ∷ xs) [] = omega arith
  product-minus (x ∷ xs) (y ∷ ys) = elim (Ordering-cases (compare x y)) [
    | inl less ↦
        rw (less, compare-turned x y, less, minus, product_of)
          (omega (arith, ap (λ (t : ℕ). f x * t) (product-minus xs (y ∷ ys))))
    | inr (inl same) ↦
        let e : x ≡ y = (compare-same x y).0 same in
        rw (same, compare-turned x y, same, e, minus, product_of)
          (omega (arith, ap (λ (t : ℕ). f y * t) (product-minus xs ys)))
    | inr (inr more) ↦
        rw (more, compare-turned x y, more, minus, product_of)
          (omega (arith, ap (λ (t : ℕ). f y * t) (product-minus (x ∷ xs) ys)))
  ]

  product-union :
      (xs ys : List ℕ)
      → ((a : ℕ) → a ∈ xs → ¬ (a ∈ ys))
      → product_of f (union_from xs ys) ≡ product_of f xs * product_of f ys
  unfolding union_from
  product-union [] ys h = omega arith
  product-union (x ∷ xs) [] h = omega arith
  product-union (x ∷ xs) (y ∷ ys) h = elim (Ordering-cases (compare x y)) [
    | inl less ↦
        rw (less, union_from, product_of)
          (omega (arith, ap (λ (t : ℕ). f x * t) (product-union xs (y ∷ ys) (λ a m. h a (inr m)))))
    | inr (inl same) ↦ absurd (h x (inl refl) (inl ((compare-same x y).0 same)))
    | inr (inr more) ↦
        rw (more, union_from, product_of)
          (omega
            (arith, ap (λ (t : ℕ). f y * t) (product-union (x ∷ xs) ys (λ a m n. h a m (inr n)))))
  ]

  product-append :
      {A : Type 0} (g : A → ℕ) (xs ys : List A)
      → product_of g (xs ++ ys) ≡ product_of g xs * product_of g ys
  product-append g [] ys = omega arith
  product-append g (x ∷ xs) ys = omega (arith, ap (λ (t : ℕ). g x * t) (product-append g xs ys))

-- No set of the fraction has an item twice or out of order.
pub record IsSound {P : Type 0} (s : PartialSize P) : Type 0 where
  pub dim_factors_sound : IsValid s.dim_factors
  pub divisors_sound : IsValid s.divisors

-- The fraction is simplified.
pub record IsReduced {P : Type 0} (s : PartialSize P) : Type 0 where
  pub sound : IsSound s
  pub apart : (a : ℕ) → a ∈ₛ s.dim_factors → ¬ (a ∈ₛ s.divisors)

abbrev pub Disjoint : VecSet ℕ → VecSet ℕ → Type 0
Disjoint s t = (a : ℕ) → a ∈ₛ s → ¬ (a ∈ₛ t)

module _ {P : Type 0} (param : P → ℕ) (dim : ℕ → ℕ) where
  abbrev pub numerator : PartialSize P → ℕ
  numerator s =
      s.static_factor * product_of param s.param_factors * product_of dim s.dim_factors.items

  abbrev pub denominator : PartialSize P → ℕ
  denominator s = product_of dim s.divisors.items

  -- `s` and `n / d` are one fraction.
  abbrev pub IsFraction : PartialSize P → ℕ → ℕ → Type 0
  IsFraction s n d = numerator s * d ≡ n * denominator s

  pub simplify_lem :
      (s : PartialSize P)
      → IsSound s
      → (r : PartialSize P) × (simplify s ≡ some r)
        × IsReduced r
        × IsFraction r (numerator s) (denominator s)
        × ((a : ℕ)
            → ((a ∈ₛ r.dim_factors) ↔ (a ∈ₛ s.dim_factors) × ¬ (a ∈ₛ s.divisors))
              × ((a ∈ₛ r.divisors) ↔ (a ∈ₛ s.divisors) × ¬ (a ∈ₛ s.dim_factors)))
  unfolding simplify
  simplify_lem s h =
      let xs = s.dim_factors.items in
      let ys = s.divisors.items in
      let sides : (x : ℕ) → (x ∈ minus xs ys) ↔ (x ∈ xs) × ¬ (x ∈ ys) =
        λ x. minus_iff xs ys x h.dim_factors_sound h.divisors_sound in
      let sides' : (x : ℕ) → (x ∈ minus ys xs) ↔ (x ∈ ys) × ¬ (x ∈ xs) =
        λ x. minus_iff ys xs x h.divisors_sound h.dim_factors_sound in
      (
        with_fraction s (record { items = minus xs ys }, record { items = minus ys xs }),
        rw (relative_difference-minus s.dim_factors s.divisors, simplify) refl,
        record {
          sound = record {
            dim_factors_sound = minus-IsAscending xs ys h.dim_factors_sound;
            divisors_sound = minus-IsAscending ys xs h.divisors_sound;
          };
          apart = λ a m n. ((sides a).0 m).1 ((sides' a).0 n).0;
        },
        omega (
          arith,
          ap (λ (t : ℕ). s.static_factor * product_of param s.param_factors * t)
              (product-minus dim xs ys),
        ),
        λ a. (sides a, sides' a),
      )

  -- If the sets of a size are valid, and the new divisors are a valid set that has no divisor in common
  -- with the old one, then `add_divisors` returns without a panic a simplified fraction: the old one
  -- divided by the sizes of the new divisors.
  pub add_divisors-IsFraction :
      (s : PartialSize P) (d : VecSet ℕ)
      → IsSound s
      → IsValid d
      → Disjoint s.divisors d
      → (r : PartialSize P) × (add_divisors s d ≡ some r)
        × IsReduced r
        × IsFraction r (numerator s) (denominator s * product_of dim d.items)
  unfolding add_divisors VecSet.union
  add_divisors-IsFraction s d h v apart =
      let divisors = VecSet.union s.divisors d in
      let valid = (operations-IsValid s.divisors d (λ a. true) h.divisors_sound v).0 in
      let (r, e, reduced, value, mem) =
        simplify_lem (with_fraction s (s.dim_factors, divisors))
          record { dim_factors_sound = h.dim_factors_sound; divisors_sound = valid } in
      (r, e, reduced, rw (product-union dim s.divisors.items d.items apart) at value)

  -- If two sizes have valid sets of factors and divisors, static factors whose product does not overflow
  -- a `u32`, and no dimension factor and no divisor in common, then `mul_assign` returns without a panic a
  -- simplified fraction that is the product of the two.
  pub mul_assign-IsFraction :
      (s t : PartialSize P)
      → IsSound s
      → IsSound t
      → s.static_factor * t.static_factor < u32_mod
      → Disjoint s.dim_factors t.dim_factors
      → Disjoint s.divisors t.divisors
      → (r : PartialSize P) × (mul_assign s t ≡ some r)
        × IsReduced r
        × IsFraction r (numerator s * numerator t) (denominator s * denominator t)
  unfolding mul_assign VecSet.union
  mul_assign-IsFraction s t hs ht small apart apart' =
      let factors = VecSet.union s.dim_factors t.dim_factors in
      let divisors = VecSet.union s.divisors t.divisors in
      let keep_all : ℕ → Bool = λ a. true in
      let joined : PartialSize P = record {
        static_factor = mul32 s.static_factor t.static_factor;
        param_factors = s.param_factors ++ t.param_factors;
        dim_factors = factors;
        divisors = divisors;
      } in
      let (r, e, reduced, value, mem) = simplify_lem joined record {
        dim_factors_sound =
            (operations-IsValid s.dim_factors t.dim_factors keep_all hs.dim_factors_sound
              ht.dim_factors_sound).0;
        divisors_sound =
            (operations-IsValid s.divisors t.divisors keep_all hs.divisors_sound
              ht.divisors_sound).0;
      } in
      let static : mul32 s.static_factor t.static_factor ≡ s.static_factor * t.static_factor =
        omega arith in
      let top : numerator joined ≡ numerator s * numerator t =
        rw
          (
            static,
            product-append dim param s.param_factors t.param_factors,
            product-union dim s.dim_factors.items t.dim_factors.items apart,
          )
          (omega arith) in
      let bottom = product-union dim s.divisors.items t.divisors.items apart' in
      (r, e, reduced, rw (top, bottom) at value)
