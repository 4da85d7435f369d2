-- ===== src/Runtime/NumericSet/Meaning.antt =====
-- telamon-gen/src/print/runtime/integer_set.rs: the values that a set stands for, read off its bits, and
-- `list_values`.
use telamon.Prelude.{
  ℕ, zero, suc, ◌+◌, ◌/◌, ◌%◌, ◌^◌, ◌≤◌, ◌<◌, bit_and, ◌≡◌, ap, ◌∙◌, ◌↔◌, ◌⊎◌, inl, inr, List, [],
  ◌∷◌, arith, ◌==◌, length, ◌∈◌, All,
}
use native.Mathlib.Nat.{pow-suc, div-div-eq-div-mul, div-one}
use native.Mathlib.Numerals.{add-one}
use telamon.Prelude.Bits.{bit, bit-lt, pow-bit_and, pow_pos}
use telamon.Runtime.NumericSet.{NumericSet, list_values, list_values_from}

-- `v` stands in the universe at a place whose bit is set in `n`.
abbrev pub HoldsIn : ℕ → List ℕ → ℕ → Type 0
HoldsIn n [] v = ⊥
HoldsIn n (u ∷ us) v = (v ≡ u) × (n % 2 ≡ 1) ⊎ HoldsIn (n / 2) us v

abbrev pub Holds : NumericSet → List ℕ → ℕ → Type 0
Holds s universe v = HoldsIn s.enabled_values universe v

-- A universe is strictly ascending, and 16 values at most have a bit.
abbrev pub IsSorted : List ℕ → Type 0
IsSorted [] = Unit
IsSorted (x ∷ xs) = All (λ y. x < y) xs × IsSorted xs

pub HoldsIn-mem : (n : ℕ) (us : List ℕ) (v : ℕ) → HoldsIn n us v → v ∈ us
HoldsIn-mem n [] v h = h
HoldsIn-mem n (u ∷ us) v h = ground (arith, HoldsIn-mem (n / 2) us v)

pub HoldsIn-gt : (n x : ℕ) (us : List ℕ) (v : ℕ) → All (λ y. x < y) us → HoldsIn n us v → x < v
HoldsIn-gt n x [] v a h = absurd h
HoldsIn-gt n x (u ∷ us) v a h = ground (arith, HoldsIn-gt (n / 2) x us v)

pub HoldsIn-zero : (us : List ℕ) (v : ℕ) → ¬ HoldsIn 0 us v
HoldsIn-zero [] v h = h
HoldsIn-zero (u ∷ us) v h = ground (arith, HoldsIn-zero us v)

div_half : (i n : ℕ) → n / 2 / 2 ^ i ≡ n / 2 ^ suc i
div_half i n = div-div-eq-div-mul n 2 (2 ^ i) ∙ ap (λ (t : ℕ). n / t) (omega (arith, pow-suc 2 i))

half_div : (i n : ℕ) → n / 2 ^ i / 2 ≡ n / 2 ^ suc i
half_div i n = div-div-eq-div-mul n (2 ^ i) 2 ∙ ap (λ (t : ℕ). n / t) (omega (arith, pow-suc 2 i))

bit-div : (i n : ℕ) → bit i n ≡ n / 2 ^ i % 2
bit-div zero n = omega arith
bit-div (suc i) n = bit-div i (n / 2) ∙ ap (λ (t : ℕ). t % 2) (div_half i n)

test-bit : (i n : ℕ) → (bit_and (2 ^ i) n == 0) ≡ (n / 2 ^ i % 2 == 0)
test-bit i n = elim (cases (bit i n) (bit-lt i n)) [
  | inl e ↦ rw (pow-bit_and i n, ← bit-div i n, e) (ground arith)
  | inr e ↦ rw (pow-bit_and i n, ← bit-div i n, e) (ground (arith, pow_pos i))
]
  where
    cases : (b : ℕ) → b < 2 → (b ≡ 0) ⊎ (b ≡ 1)
    cases b h = omega arith

list_values_from_iff :
    (i n : ℕ) (us : List ℕ) (v : ℕ)
    → i + length us ≤ 16
    → (v ∈ list_values_from i n us) ↔ HoldsIn (n / 2 ^ i) us v
unfolding list_values_from
list_values_from_iff i n [] v h = (λ m. m, λ m. m)
list_values_from_iff i n (u ∷ us) v h =
    let small : i % 16 ≡ i = omega arith in
    let rest = list_values_from_iff (suc i) n us v (omega arith) in
    rw (small, test-bit i n, add-one i)
      (ground (arith, rest.0, half_div i n), ground (arith, rest.1, half_div i n))

-- `list_values` lists exactly the values of the set.
pub list_values_iff :
    (s : NumericSet) (universe : List ℕ) (v : ℕ)
    → length universe ≤ 16
    → (v ∈ list_values s universe) ↔ Holds s universe v
unfolding list_values
list_values_iff s universe v h =
    rw (div-one s.enabled_values) at
      (list_values_from_iff 0 s.enabled_values universe v (omega arith))

-- The bits of a set lie within its universe: no value is out of range.
abbrev pub IsWithin : NumericSet → List ℕ → Type 0
IsWithin s universe = s.enabled_values < 2 ^ length universe
