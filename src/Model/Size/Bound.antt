-- ===== src/Model/Size/Bound.antt =====
-- src/model/size.rs: the range of a size against the values that it can take.
use telamon.Prelude.{
  ℕ, zero, suc, ◌*◌, ◌/◌, ◌≤◌, ◌<◌, ◌≡◌, refl, ap, inl, inr, ◌||◌, Option, none, some, List, [],
  ◌∷◌, arith, leb, ◌==◌, Bool-cases,
}
use telamon.Ir.Size.{PartialSize}
use telamon.Ir.Size.Value.{product_of}
use telamon.Model.Size.{
  Range, Sizes, dim_bounds, multiply, divide, divided, both, to_range, then_to, bounds,
  static_factor, u64_mod,
}
use native.Mathlib.Nat.{mul-le-mul, mul-le-mul_left, le-div_iff_mul-le}
use mathlib.Core.Option.{some-injective}

then_to-some :
    {A B : Type 0} (o : Option A) (f : A → Option B) (b : B)
    → then_to o f ≡ some b
    → (a : A) × (o ≡ some a) × (f a ≡ some b)
then_to-some none f b h = ground arith
then_to-some (some a) f b h = (a, refl, h)

both-some : (p q : Option ℕ) (t : ℕ × ℕ) → both p q ≡ some t → (p ≡ some t.0) × (q ≡ some t.1)
both-some none q t h = ground arith
both-some (some a) none t h = ground arith
both-some (some a) (some b) t h = (
  ap (λ (t : ℕ × ℕ). some t.0) (some-injective _ _ h),
  ap (λ (t : ℕ × ℕ). some t.1) (some-injective _ _ h),
)

divided-some : (a b c : ℕ) → divided a b ≡ some c → (0 < b) × (c ≡ a / b)
divided-some a zero c h = ground arith
divided-some a (suc b) c h = ground arith

to_range-max : (t : ℕ × ℕ) (r : Range) → to_range t ≡ some r → r.max ≡ t.1
unfolding to_range
to_range-max (a, b) r h = elim (Bool-cases (a == 0 || b == 0)) [
  | inl z ↦ ground arith
  | inr p ↦ elim (Bool-cases (leb u64_mod a || leb u64_mod b)) [
    | inl z ↦ ground arith
    | inr q ↦ ground (arith, ap (λ (o : Option Range). max_or o) h)
  ]
]
  where
    max_or : Option Range → ℕ
    max_or none = 0
    max_or (some r) = r.max

module _ {P : Type 0} (gcd lcm : ℕ → ℕ → ℕ) (space : Sizes P) (value : ℕ → ℕ) where
  -- Every dimension has a value between its bounds.
  abbrev pub IsWithin : Type 0
  IsWithin =
      (d : ℕ) (r : Range)
      → dim_bounds gcd lcm space d ≡ some r
      → (r.min ≤ value d) × (value d ≤ r.max)

  multiply-le :
      (dims : List ℕ) (a b x : ℕ) (t : ℕ × ℕ)
      → IsWithin
      → multiply gcd lcm space dims (a, b) ≡ some t
      → x ≤ b
      → x * product_of value dims ≤ t.1
  unfolding multiply
  multiply-le [] a b x t w h l = omega (arith, ap (λ (t : ℕ × ℕ). t.1) (some-injective _ _ h))
  multiply-le (d ∷ dims) a b x t w h l =
      let (r, e, more) = then_to-some _ _ t h in
      let grown : x * value d ≤ b * r.max = mul-le-mul l (w d r e).1 in
      omega (arith, multiply-le dims (a * r.min) (b * r.max) (x * value d) t w more grown)

  divide-le :
      (dims : List ℕ) (a b n : ℕ) (t : ℕ × ℕ)
      → IsWithin
      → divide gcd lcm space dims (a, b) ≡ some t
      → n * product_of value dims ≤ b
      → n ≤ t.1
  unfolding divide
  divide-le [] a b n t w h l = omega (arith, ap (λ (t : ℕ × ℕ). t.1) (some-injective _ _ h))
  divide-le (d ∷ dims) a b n t w h l =
      let (r, e, more) =
        then_to-some (dim_bounds gcd lcm space d)
          (λ size.
            then_to (both (divided a (gcd size.max a)) (divided b size.min))
              (λ totals. divide gcd lcm space dims totals))
          t h in
      let (totals, e', again) =
        then_to-some (both (divided a (gcd r.max a)) (divided b r.min))
          (λ totals. divide gcd lcm space dims totals) t more in
      let (pos, quotient) =
        divided-some b r.min totals.1
          (both-some (divided a (gcd r.max a)) (divided b r.min) totals e').1 in
      let smaller : (n * product_of value dims) * r.min ≤ (n * product_of value dims) * value d =
        mul-le-mul_left (n * product_of value dims) (w d r e).0 in
      let fits : n * product_of value dims ≤ b / r.min =
        (le-div_iff_mul-le pos).1 (omega (arith, smaller)) in
      divide-le dims totals.0 totals.1 n t w again (omega (arith, quotient))

  -- Where `bounds` does not panic and every dimension has a value between its bounds, a whole number that
  -- times the divisors is the static factor times the dimension factors is at most `max`.
  pub bounds-max :
      (s : PartialSize P) (r : Range) (n : ℕ)
      → IsWithin
      → bounds gcd lcm space s ≡ some r
      → n * product_of value s.divisors.items
        ≡ static_factor gcd lcm space s * product_of value s.dim_factors.items
      → n ≤ r.max
  unfolding bounds
  bounds-max s r n w h e =
      let (multiplied, m, rest) = then_to-some _ _ r h in
      let (divided, d, last) = then_to-some _ _ r rest in
      let top =
        multiply-le s.dim_factors.items (static_factor gcd lcm space s)
          (static_factor gcd lcm space s) (static_factor gcd lcm space s) multiplied w m
          (omega arith) in
      let bound =
        divide-le s.divisors.items multiplied.0 multiplied.1 n divided w d
          (omega (arith, e, top)) in
      omega (arith, bound, to_range-max divided r last)
