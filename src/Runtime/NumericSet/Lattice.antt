-- ===== src/Runtime/NumericSet/Lattice.antt =====
-- telamon-gen/src/print/runtime/integer_set.rs: `contains`, `restrict`, `insert`, `complement`.
use telamon.Prelude.{
  ℕ, zero, suc, ◌-◌, ◌/◌, ◌%◌, ◌^◌, ◌≤◌, ◌<◌, min, bit_and, bit_or, ◌≡◌, refl, sym, ap, ◌∙◌, ◌≢◌,
  ◌↔◌, ◌⊎◌, inl, inr, true, List, [], ◌∷◌, arith, ◌==◌, ==→≡, Bool-cases, length, ◌∈◌, u16_mod,
}
use native.Mathlib.Nat.{pow-suc, pow-le-pow_right, le-pred_of_lt}
use telamon.Prelude.Bits.{bit-bit_and, bit-bit_or, half_and, half_or, pow_pos}
use telamon.Prelude.Bits.{bit_and-zero, half_ones, half_complement, bit-complement}
use telamon.Runtime.NumericSet.{
  NumericSet, failed, all, insert, complement, is_failed, contains, restrict, ones,
}
use telamon.Runtime.NumericSet.Meaning.{
  HoldsIn, Holds, IsSorted, IsWithin, HoldsIn-mem, HoldsIn-gt, HoldsIn-zero,
}

HoldsIn-and :
    (a b : ℕ) (us : List ℕ) (v : ℕ)
    → IsSorted us
    → HoldsIn (bit_and a b) us v ↔ HoldsIn a us v × HoldsIn b us v
HoldsIn-and a b [] v s = (λ h. (h, h), λ h. h.0)
HoldsIn-and a b (u ∷ us) v s =
    let rest = HoldsIn-and (a / 2) (b / 2) us v s.1 in
    let low = bit-bit_and 0 a b in
    let apart_a = HoldsIn-gt (a / 2) u us v s.0 in
    let apart_b = HoldsIn-gt (b / 2) u us v s.0 in
    rw (half_and a b) (ground (arith, rest.0), ground (arith, rest.1, apart_a, apart_b))

HoldsIn-or :
    (a b : ℕ) (us : List ℕ) (v : ℕ) → HoldsIn (bit_or a b) us v ↔ (HoldsIn a us v ⊎ HoldsIn b us v)
HoldsIn-or a b [] v = (inl, λ h. elim h [ inl x ↦ x | inr x ↦ x ])
HoldsIn-or a b (u ∷ us) v =
    let rest = HoldsIn-or (a / 2) (b / 2) us v in
    let low = bit-bit_or 0 a b in rw (half_or a b) (ground (arith, rest.0), ground (arith, rest.1))

-- `restrict` is the intersection and `insert` the union, over a sorted universe.
pub restrict-insert_iff :
    (s t : NumericSet) (universe : List ℕ) (v : ℕ)
    → IsSorted universe
    → (Holds (restrict s t) universe v ↔ Holds s universe v × Holds t universe v)
      × (Holds (insert s t) universe v ↔ (Holds s universe v ⊎ Holds t universe v))
unfolding restrict insert
restrict-insert_iff s t universe v h = (
  HoldsIn-and s.enabled_values t.enabled_values universe v h,
  HoldsIn-or s.enabled_values t.enabled_values universe v,
)

pub pow-le_of_lt : (n : ℕ) → n < 16 → 2 ^ n ≤ 32_768
pow-le_of_lt n h = pow-le-pow_right {n = 2} (omega arith) (le-pred_of_lt h)

pub ones-pow : (n : ℕ) → n < 16 → ones n ≡ 2 ^ n - 1
ones-pow n h =
    let small : n % 16 ≡ n = omega arith in rw small (omega (arith, pow_pos n, pow-le_of_lt n h))

pub HoldsIn-ones : (us : List ℕ) (v : ℕ) → v ∈ us → HoldsIn (2 ^ length us - 1) us v
HoldsIn-ones [] v m = m
HoldsIn-ones (u ∷ us) v m =
    rw (half_ones (length us))
      (ground (arith, HoldsIn-ones us v, pow-suc 2 (length us), pow_pos (length us)))

-- Of a universe of fewer than 16 values, `all` holds each.
pub all_iff :
    (universe : List ℕ) (v : ℕ)
    → length universe < 16
    → Holds (all universe) universe v ↔ (v ∈ universe)
unfolding all
all_iff universe v h =
    rw (ones-pow (length universe) h)
      (HoldsIn-mem (2 ^ length universe - 1) universe v, HoldsIn-ones universe v)

-- A universe of 16 values, which the type is said to allow, has `all` equal to the failed set.
pub all_of_sixteen : (universe : List ℕ) → length universe ≡ 16 → all universe ≡ failed
unfolding all
all_of_sixteen universe h = rw h refl

HoldsIn-complement :
    (k a : ℕ) (us : List ℕ) (v : ℕ)
    → length us ≤ k
    → a < 2 ^ k
    → IsSorted us
    → HoldsIn (2 ^ k - 1 - a) us v ↔ (v ∈ us) × ¬ HoldsIn a us v
HoldsIn-complement k a [] v l w s = (λ h. absurd h, λ h. h.0)
HoldsIn-complement zero a (u ∷ us) v l w s = absurd (omega arith)
HoldsIn-complement (suc k) a (u ∷ us) v l w s =
    let rest = HoldsIn-complement k (a / 2) us v (omega arith) (omega (arith, pow-suc 2 k)) s.1 in
    let flipped : (2 ^ suc k - 1 - a) % 2 ≡ 1 - a % 2 =
      bit-complement 0 (suc k) a (omega arith) w in
    let out = HoldsIn-gt (2 ^ k - 1 - a / 2) u us v s.0 in
    let kept = HoldsIn-gt (a / 2) u us v s.0 in
    rw (half_complement k a w) (
      elim [
        | inl (e, b) ↦ (
          inl e,
          elim [ inl (_, c) ↦ absurd (omega arith) | inr h ↦ absurd (omega (arith, kept h)) ],
        )
        | inr h ↦ (
          inr (rest.0 h).0,
          elim [ inl (e, _) ↦ absurd (omega (arith, out h)) | inr k ↦ absurd ((rest.0 h).1 k) ],
        )
      ],
      λ (m, unset). elim m [
        | inl e ↦ inl (e, omega (arith, even a (λ b. unset (inl (e, b)))))
        | inr m' ↦ inr (rest.1 (m', λ k. unset (inr k)))
      ],
    )
  where
    even : (a : ℕ) → a % 2 ≢ 1 → a % 2 ≡ 0
    even a h = omega arith

-- Over a sorted universe of fewer than 16 values `complement` holds those that the set does not.
pub complement_iff :
    (s : NumericSet) (universe : List ℕ) (v : ℕ)
    → IsSorted universe
    → length universe < 16
    → s.enabled_values < u16_mod
    → Holds (complement s universe) universe v ↔ (v ∈ universe) × ¬ Holds s universe v
unfolding complement all
complement_iff s universe v h len w =
    let mask = ones-pow (length universe) len in
    let both = HoldsIn-and (65_535 - s.enabled_values) (2 ^ length universe - 1) universe v h in
    let flipped = HoldsIn-complement 16 s.enabled_values universe v (omega arith) w h in
    rw mask (λ x. flipped.0 (both.0 x).0, λ x. both.1 (flipped.1 x, HoldsIn-ones universe v x.0))

and-eq_right :
    (a b : ℕ) (us : List ℕ)
    → b < 2 ^ length us
    → IsSorted us
    → (bit_and a b ≡ b) ↔ ((v : ℕ) → HoldsIn b us v → HoldsIn a us v)
and-eq_right a b [] w s =
    let none_set : b ≡ 0 = omega arith in (λ e v h. h, λ sub. rw none_set (bit_and-zero a))
and-eq_right a b (u ∷ us) w s =
    let rest = and-eq_right (a / 2) (b / 2) us (omega (arith, pow-suc 2 (length us))) s.1 in
    let low : bit_and a b % 2 ≡ min (a % 2) (b % 2) = bit-bit_and 0 a b in
    (
      λ e v. elim [
        | inl (q, c) ↦ inl (q, omega (arith, e, low))
        | inr h ↦ inr (rest.0 (sym (half_and a b) ∙ ap (λ (t : ℕ). t / 2) e) v h)
      ],
      λ sub.
          let high = half_and a b ∙ rest.1 (λ v h. later v h (sub v (inr h))) in
          let lowest = first (λ c. head (sub u (inl (refl, c)))) in
          omega (arith, high, lowest, low),
    )
  where
    later : (v : ℕ) → HoldsIn (b / 2) us v → HoldsIn a (u ∷ us) v → HoldsIn (a / 2) us v
    later v h = elim [
      | inl (q, c) ↦ absurd (omega (arith, HoldsIn-gt (b / 2) u us v s.0 h))
      | inr k ↦ k
    ]

    head : HoldsIn a (u ∷ us) u → a % 2 ≡ 1
    head = elim [ inl (q, c) ↦ c | inr k ↦ absurd (omega (arith, HoldsIn-gt (a / 2) u us u s.0 k)) ]

    first : (b % 2 ≡ 1 → a % 2 ≡ 1) → min (a % 2) (b % 2) ≡ b % 2
    first f = ground (arith, f)

-- Over a sorted universe that a set lies within, `contains` is inclusion of the values.
pub contains_values_iff :
    (s t : NumericSet) (universe : List ℕ)
    → IsSorted universe
    → IsWithin t universe
    → (contains s t ≡ true) ↔ ((v : ℕ) → Holds t universe v → Holds s universe v)
unfolding contains
contains_values_iff s t universe h w =
    let both = and-eq_right s.enabled_values t.enabled_values universe w h in
    (λ e. both.0 (==→≡ _ _ e), λ sub. ground (arith, both.1 sub))

no_bits : (n : ℕ) (us : List ℕ) → n < 2 ^ length us → n ≢ 0 → (v : ℕ) × HoldsIn n us v
no_bits n [] w h = absurd (omega arith)
no_bits n (u ∷ us) w h = elim (odd_or_half n h) [
  | inl odd ↦ (u, inl (refl, odd))
  | inr more ↦
      let (v, k) = no_bits (n / 2) us (omega (arith, pow-suc 2 (length us))) more in (v, inr k)
]
  where
    odd_or_half : (n : ℕ) → n ≢ 0 → (n % 2 ≡ 1) ⊎ (n / 2 ≢ 0)
    odd_or_half n h = ground arith

-- A set within its universe is failed exactly when it holds no value.
pub is_failed_iff :
    (s : NumericSet) (universe : List ℕ)
    → IsWithin s universe
    → (is_failed s ≡ true) ↔ ((v : ℕ) → ¬ Holds s universe v)
unfolding is_failed
is_failed_iff s universe w = (
  λ e v h. HoldsIn-zero universe v (rw (==→≡ _ _ e) at h),
  λ empty. elim (Bool-cases (s.enabled_values == 0)) [
    | inl e ↦ e
    | inr e ↦ let (v, h) = no_bits s.enabled_values universe w (ground arith) in absurd (empty v h)
  ],
)
