-- ===== src/Runtime/NumericSet/Bounds.antt =====
-- telamon-gen/src/print/runtime/integer_set.rs: the constructors of `NumDomain` for `NumericSet`.
use telamon.Prelude.{
  ℕ, zero, suc, ◌+◌, ◌-◌, ◌*◌, ◌/◌, ◌%◌, ◌^◌, ◌≤◌, ◌<◌, compare, ◌≡◌, refl, ap, ◌↔◌, ◌⊎◌, inl, inr,
  List, [], ◌∷◌, arith, Ordering-cases, length, take, drop, ◌∈◌, All,
}
use native.Mathlib.Nat.{pow-suc, mul-one, sub-zero}
use telamon.Prelude.Bits.{pow_pos, half_ones}
use telamon.Runtime.NumSet.{NumSet}
use telamon.Runtime.NumericSet.{
  Search, ok, err, next, binary_search, place, place_after, ones, shl16, new_gt, new_lt, new_geq,
  new_leq,
}
use telamon.Runtime.NumericSet.Meaning.{HoldsIn, Holds, IsSorted, HoldsIn-mem, HoldsIn-zero}
use telamon.Runtime.NumericSet.Lattice.{ones-pow, pow-le_of_lt, HoldsIn-ones}

place-next : (r : Search) → place (next r) ≡ suc (place r)
place-next (ok i) = refl
place-next (err i) = refl

place_after-next : (r : Search) → place_after (next r) ≡ suc (place_after r)
place_after-next (ok i) = refl
place_after-next (err i) = refl

mem_gt : (u x : ℕ) (us : List ℕ) → All (λ y. u < y) us → x ∈ us → u < x
mem_gt u x [] a m = absurd m
mem_gt u x (y ∷ us) a m = ground (arith, mem_gt u x us)

-- What a search of a sorted slice promises: the values before the place are those that are smaller.
below_place :
    (v : ℕ) (us : List ℕ)
    → IsSorted us
    → (x : ℕ)
    → ((x ∈ take (place (binary_search v us)) us) ↔ (x ∈ us) × (x < v))
      × ((x ∈ take (place_after (binary_search v us)) us) ↔ (x ∈ us) × (x ≤ v))
unfolding binary_search
below_place v [] s x = ((λ h. absurd h, λ h. h.0), (λ h. absurd h, λ h. h.0))
below_place v (u ∷ us) s x =
    let rest = below_place v us s.1 x in
    let above = mem_gt u x us s.0 in
    elim (Ordering-cases (compare u v)) [
      | inl less ↦
          rw
            (
              less,
              binary_search,
              place-next (binary_search v us),
              place_after-next (binary_search v us),
            )
            (
              (ground (arith, rest.0.0), ground (arith, rest.0.1)),
              (ground (arith, rest.1.0), ground (arith, rest.1.1)),
            )
      | inr (inl same) ↦
          rw (same, binary_search)
            ((λ h. absurd h, ground (arith, above)), (ground (arith, above), ground (arith, above)))
      | inr (inr more) ↦
          rw (more, binary_search)
            ((λ h. absurd h, ground (arith, above)), (λ h. absurd h, ground (arith, above)))
    ]

take_or_drop : (k x : ℕ) (us : List ℕ) → x ∈ us → (x ∈ take k us) ⊎ (x ∈ drop k us)
take_or_drop k x [] m = absurd m
take_or_drop zero x (u ∷ us) m = inr m
take_or_drop (suc k) x (u ∷ us) m = ground (arith, take_or_drop k x us)

mem-drop : (k x : ℕ) (us : List ℕ) → x ∈ drop k us → x ∈ us
mem-drop zero x us m = m
mem-drop (suc k) x [] m = absurd m
mem-drop (suc k) x (u ∷ us) m = inr (mem-drop k x us m)

take-drop_apart : (k x : ℕ) (us : List ℕ) → IsSorted us → x ∈ take k us → x ∈ drop k us → ⊥
take-drop_apart zero x us s m d = m
take-drop_apart (suc k) x [] s m d = m
take-drop_apart (suc k) x (u ∷ us) s m d = elim m [
  | inl e ↦ absurd (omega (arith, e, mem_gt u x us s.0 (mem-drop k x us d)))
  | inr m' ↦ take-drop_apart k x us s.1 m' d
]

-- The first `k` bits select the first `k` values, and the others the rest.
HoldsIn-low :
    (k : ℕ) (us : List ℕ) (x : ℕ) → k ≤ length us → HoldsIn (2 ^ k - 1) us x ↔ (x ∈ take k us)
HoldsIn-low zero us x l = (λ h. absurd (HoldsIn-zero us x h), λ m. absurd m)
HoldsIn-low (suc k) [] x l = absurd (omega arith)
HoldsIn-low (suc k) (u ∷ us) x l =
    let rest = HoldsIn-low k us x (omega arith) in
    let odd : (2 ^ suc k - 1) % 2 ≡ 1 = omega (arith, pow-suc 2 k, pow_pos k) in
    rw (half_ones k) (ground (arith, rest.0), ground (arith, rest.1, odd))

HoldsIn-high :
    (k : ℕ) (us : List ℕ) (x : ℕ)
    → k ≤ length us
    → HoldsIn ((2 ^ (length us - k) - 1) * 2 ^ k) us x ↔ (x ∈ drop k us)
HoldsIn-high zero us x l =
    rw (mul-one (2 ^ (length us - 0) - 1), sub-zero (length us))
      (HoldsIn-mem (2 ^ length us - 1) us x, HoldsIn-ones us x)
HoldsIn-high (suc k) [] x l = absurd (omega arith)
HoldsIn-high (suc k) (u ∷ us) x l =
    let rest = HoldsIn-high k us x (omega arith) in
    let m = 2 ^ (length us - k) - 1 in
    let split = ap (λ (t : ℕ). m * t) (pow-suc 2 k) in
    let even : m * 2 ^ suc k % 2 ≡ 0 = omega (arith, split) in
    let half : m * 2 ^ suc k / 2 ≡ m * 2 ^ k = omega (arith, split) in
    let fewer : suc (length us) - suc k ≡ length us - k = omega arith in
    rw (fewer, half) (ground (arith, rest.0, even), ground (arith, rest.1))

place_after-le : (v : ℕ) (us : List ℕ) → place_after (binary_search v us) ≤ length us
unfolding binary_search
place_after-le v [] = omega arith
place_after-le v (u ∷ us) = elim (Ordering-cases (compare u v)) [
  | inl less ↦
      rw (less, binary_search, place_after-next (binary_search v us))
        (omega (arith, place_after-le v us))
  | inr (inl same) ↦ rw (same, binary_search) (omega arith)
  | inr (inr more) ↦ rw (more, binary_search) (omega arith)
]

place-le-place_after : (r : Search) → place r ≤ place_after r
place-le-place_after (ok i) = omega arith
place-le-place_after (err i) = omega arith

pred_mul : (a p : ℕ) → 0 < a → (a - 1) * p + p ≡ a * p
pred_mul zero p h = absurd (omega arith)
pred_mul (suc a) p h = let e : suc a - 1 ≡ a = omega arith in rw e (omega arith)

pow_add : (j k m : ℕ) → j + k ≡ m → 2 ^ j * 2 ^ k ≡ 2 ^ m
pow_add j zero m e = let same : j ≡ m = omega arith in rw same (omega arith)
pow_add j (suc k) zero e = absurd (omega arith)
pow_add j (suc k) (suc m) e =
    omega (arith, ap (λ (t : ℕ). 2 ^ j * t) (pow-suc 2 k), pow-suc 2 m, pow_add j k m (omega arith))

iff_trans : {A B C : Type 0} → A ↔ B → B ↔ C → A ↔ C
iff_trans f g = (λ a. g.0 (f.0 a), λ c. f.1 (g.1 c))

module _ (us : List ℕ) (s : IsSorted us) (len : length us < 16) where
  prefix : (k x : ℕ) → k ≤ length us → HoldsIn (ones k) us x ↔ (x ∈ take k us)
  prefix k x l = rw (ones-pow k (omega arith)) (HoldsIn-low k us x l)

  shifted :
      (k : ℕ) → k ≤ length us → shl16 (ones (length us - k)) k ≡ (2 ^ (length us - k) - 1) * 2 ^ k
  shifted k l =
      let small : k % 16 ≡ k = omega arith in
      rw (ones-pow (length us - k) (omega arith), small)
        (omega (
          arith,
          pow_add (length us - k) k (length us) (omega arith),
          pow-le_of_lt (length us) len,
          pred_mul (2 ^ (length us - k)) (2 ^ k) (pow_pos (length us - k)),
          pow_pos k,
        ))

  suffix :
      (k x : ℕ) → k ≤ length us → HoldsIn (shl16 (ones (length us - k)) k) us x ↔ (x ∈ drop k us)
  suffix k x l = rw (shifted k l) (HoldsIn-high k us x l)

  -- What is left after the place are the values on the other side.
  after : (k x : ℕ) → x ∈ drop k us ↔ (x ∈ us) × ¬ (x ∈ take k us)
  after k x = (
    λ d. (mem-drop k x us d, λ t. take-drop_apart k x us s t d),
    λ (m, out). elim (take_or_drop k x us m) [ inl t ↦ absurd (out t) | inr d ↦ d ],
  )

  above : (v x : ℕ) → x ∈ drop (place_after (binary_search v us)) us ↔ (x ∈ us) × (v < x)
  above v x =
      let split = after (place_after (binary_search v us)) x in
      let below = (below_place v us s x).1 in
      (
        λ d. ((split.0 d).0, ground (arith, (split.0 d).1, below.1, (split.0 d).0)),
        λ (m, l). split.1 (m, λ t. absurd (omega (arith, (below.0 t).1))),
      )

  from_on : (v x : ℕ) → x ∈ drop (place (binary_search v us)) us ↔ (x ∈ us) × (v ≤ x)
  from_on v x =
      let split = after (place (binary_search v us)) x in
      let below = (below_place v us s x).0 in
      (
        λ d. ((split.0 d).0, ground (arith, (split.0 d).1, below.1, (split.0 d).0)),
        λ (m, l). split.1 (m, λ t. absurd (omega (arith, (below.0 t).1))),
      )

module _ {D U : Type 0} ⦃n : NumSet D U⦄ where
  -- Over a sorted universe of fewer than 16 values, the new domain holds exactly the values of the
  -- universe on the wanted side of the end of the given domain.
  pub new_bounds_exact :
      (universe : List ℕ) (d : D) (u : U) (x : ℕ)
      → IsSorted universe
      → length universe < 16
      → (Holds (new_gt universe d u) universe x ↔ (x ∈ universe) × (n.min_value d u < x))
        × (Holds (new_lt universe d u) universe x ↔ (x ∈ universe) × (x < n.max_value d u))
        × (Holds (new_geq universe d u) universe x ↔ (x ∈ universe) × (n.min_value d u ≤ x))
        × (Holds (new_leq universe d u) universe x ↔ (x ∈ universe) × (x ≤ n.max_value d u))
  unfolding new_gt new_lt new_geq new_leq
  new_bounds_exact universe d u x s len =
      let low = n.min_value d u in
      let high = n.max_value d u in
      let i = binary_search low universe in
      let j = binary_search high universe in
      let le_i = place_after-le low universe in
      let le_j = place_after-le high universe in
      let le_i' = place-le-place_after i in
      let le_j' = place-le-place_after j in
      (
        iff_trans (suffix universe s len (place_after i) x le_i) (above universe s len low x),
        iff_trans (prefix universe s len (place j) x (omega arith))
            (below_place high universe s x).0,
        iff_trans (suffix universe s len (place i) x (omega arith)) (from_on universe s len low x),
        iff_trans (prefix universe s len (place_after j) x le_j) (below_place high universe s x).1,
      )
