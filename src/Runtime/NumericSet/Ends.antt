-- ===== src/Runtime/NumericSet/Ends.antt =====
-- telamon-gen/src/print/runtime/integer_set.rs: `min_value` and `max_value`.
use telamon.Prelude.{
  ℕ, zero, suc, ◌-◌, ◌/◌, ◌%◌, ◌^◌, ◌≤◌, ◌<◌, ◌≡◌, refl, ap, ◌∙◌, ◌≢◌, inl, inr, false, some, List,
  [], ◌∷◌, arith, ◌==◌, ==→≡, Bool-cases, length, get_elem?,
}
use native.Mathlib.Nat.{pow-suc}
use telamon.Runtime.NumericSet.{
  NumericSet, trailing_zeros, bit_length, leading_zeros, min_value, max_value,
}
use telamon.Runtime.NumericSet.Meaning.{
  HoldsIn, Holds, IsSorted, IsWithin, HoldsIn-gt, HoldsIn-zero,
}

-- The place of the lowest set bit holds the least value.
lowest :
    (w n : ℕ) (us : List ℕ)
    → length us ≤ w
    → n < 2 ^ length us
    → n ≢ 0
    → IsSorted us
    → (m : ℕ) × (get_elem? us (trailing_zeros w n) ≡ some m)
      × HoldsIn n us m
      × ((v : ℕ) → HoldsIn n us v → m ≤ v)
unfolding trailing_zeros
lowest w n [] l b z s = absurd (omega arith)
lowest zero n (u ∷ us) l b z s = absurd (omega arith)
lowest (suc w) n (u ∷ us) l b z s = elim (Bool-cases (n % 2 == 1)) [
  | inl odd ↦ (
    u,
    rw odd refl,
    inl (refl, ==→≡ _ _ odd),
    λ v. elim [
      | inl (e, _) ↦ omega (arith, e)
      | inr h ↦ omega (arith, HoldsIn-gt (n / 2) u us v s.0 h)
    ],
  )
  | inr even ↦
      let e : n % 2 ≡ 0 = ground arith in
      let (m, place, held, least) =
        lowest w (n / 2) us (omega arith) (omega (arith, pow-suc 2 (length us))) (omega arith)
          s.1 in
      (
        m,
        rw even place,
        inr held,
        λ v. elim [ inl (_, o) ↦ absurd (omega arith) | inr h ↦ least v h ],
      )
]

bit_length-zero : (w : ℕ) → bit_length w 0 ≡ 0
unfolding bit_length
bit_length-zero zero = refl
bit_length-zero (suc w) = refl

-- The place below the bit length holds the greatest value.
highest :
    (w n : ℕ) (us : List ℕ)
    → length us ≤ w
    → n < 2 ^ length us
    → n ≢ 0
    → IsSorted us
    → (m : ℕ) × (get_elem? us (bit_length w n - 1) ≡ some m)
      × HoldsIn n us m
      × ((v : ℕ) → HoldsIn n us v → v ≤ m)
      × (0 < bit_length w n)
      × (bit_length w n ≤ w)
unfolding bit_length
highest w n [] l b z s = absurd (omega arith)
highest zero n (u ∷ us) l b z s = absurd (omega arith)
highest (suc w) n (u ∷ us) l b z s =
    let live : (n == 0) ≡ false = ground arith in
    elim (Bool-cases (n / 2 == 0)) [
      | inl done ↦
          let e : n / 2 ≡ 0 = ==→≡ _ _ done in
          let short : bit_length w (n / 2) ≡ 0 = ap (bit_length w) e ∙ bit_length-zero w in
          (
            u,
            rw (live, short) refl,
            inl (refl, omega arith),
            λ v. elim [
              | inl (q, _) ↦ omega (arith, q)
              | inr h ↦ absurd (HoldsIn-zero us v (rw e at h))
            ],
            rw live (omega arith),
            rw live (omega (arith, short)),
          )
      | inr more ↦
          let (m, place, held, most, pos, le) =
            highest w (n / 2) us (omega arith) (omega (arith, pow-suc 2 (length us))) (ground arith)
              s.1 in
          (
            m,
            rw live (climb u us (bit_length w (n / 2)) pos place),
            inr held,
            λ v. elim [
              | inl (q, _) ↦ omega (arith, q, HoldsIn-gt (n / 2) u us m s.0 held)
              | inr h ↦ most v h
            ],
            rw live (omega arith),
            rw live (omega (arith, le)),
          )
    ]
  where
    climb :
        (u : ℕ) (us : List ℕ) (k : ℕ) {m : ℕ}
        → 0 < k
        → get_elem? us (k - 1) ≡ some m
        → get_elem? (u ∷ us) (suc k - 1) ≡ some m
    climb u us zero h e = absurd (omega arith)
    climb u us (suc k) h e =
        let up : suc (suc k) - 1 ≡ suc k = omega arith in
        let down : suc k - 1 ≡ k = omega arith in rw up (rw down at e)

-- A live set within a sorted universe of 16 values at most has its ends: `min_value` and
-- `max_value` return values of the set, without a panic, and every value lies between them.
pub ends :
    (s : NumericSet) (universe : List ℕ)
    → IsSorted universe
    → length universe ≤ 16
    → IsWithin s universe
    → s.enabled_values ≢ 0
    → (low high : ℕ) × (min_value s universe ≡ some low)
      × (max_value s universe ≡ some high)
      × Holds s universe low
      × Holds s universe high
      × ((v : ℕ) → Holds s universe v → (low ≤ v) × (v ≤ high))
unfolding min_value max_value
ends s universe h len w z =
    let live : (s.enabled_values == 0) ≡ false = ground arith in
    let (low, at_low, held_low, least) = lowest 16 s.enabled_values universe len w z h in
    let (high, at_high, held_high, most, pos, le) =
      highest 16 s.enabled_values universe len w z h in
    let place : 16 - leading_zeros 16 s.enabled_values - 1 ≡ bit_length 16 s.enabled_values - 1 =
      omega (arith, le) in
    (
      low,
      high,
      rw live at_low,
      rw (live, place) at_high,
      held_low,
      held_high,
      λ v k. (least v k, most v k),
    )
