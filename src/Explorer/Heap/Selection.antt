-- ===== src/Explorer/Heap/Selection.antt =====
-- The crate interval_heap: a list of numbers as a heap, each end found by a walk through the list.
use telamon.Prelude.{
  ℕ, suc, compare, ◌≡◌, refl, sym, ap, subst, inl, inr, Bool, true, false, Option, none, some, List,
  [], ◌∷◌, arith, ltb, if◌then◌else◌, Bool-cases, length, ◌∈◌,
}
use telamon.Prelude.Order.{nat_ord}
use telamon.Explorer.Heap.{IntervalHeap, Takes}
use mathlib.Core.Option.{some-injective}
use Prim.Native.Nat.Ordering.{lt}

abbrev place : (ℕ → ℕ → Bool) → ℕ → Option (ℕ × List ℕ) → ℕ × List ℕ
place better x none = (x, [])
place better x (some (m, rest)) = if better m x then (m, x ∷ rest) else (x, m ∷ rest)

abbrev pub select : (ℕ → ℕ → Bool) → List ℕ → Option (ℕ × List ℕ)
select better [] = none
select better (x ∷ xs) = some (place better x (select better xs))

-- Taking the head of a list after the rest was taken apart.
pub Takes-head : (x : ℕ) (xs : List ℕ) → Takes (λ n. n) (x ∷ xs) x xs
Takes-head x xs = record {
  taken = inl refl;
  one_less = refl;
  kept = λ y m. inr m;
  rest_of = λ y m. m;
}

Takes-below :
    (x m : ℕ) (xs rest : List ℕ) → Takes (λ n. n) xs m rest → Takes (λ n. n) (x ∷ xs) m (x ∷ rest)
Takes-below x m xs rest t = record {
  taken = inr t.taken;
  one_less = ap suc t.one_less;
  kept = λ y k. elim k [ inl e ↦ inl e | inr l ↦ inr (t.kept y l) ];
  rest_of = λ y k. elim k [
    | inl e ↦ inr (inl e)
    | inr l ↦ elim (t.rest_of y l) [ inl e ↦ inl e | inr j ↦ inr (inr j) ]
  ];
}

Takes-above :
    (x m : ℕ) (xs rest : List ℕ) → Takes (λ n. n) xs m rest → Takes (λ n. n) (x ∷ xs) x (m ∷ rest)
Takes-above x m xs rest t = record {
  taken = inl refl;
  one_less = ap suc t.one_less;
  kept = λ y k. elim k [
    | inl e ↦ inr (subst (λ z. z ∈ xs) (sym e) t.taken)
    | inr l ↦ inr (t.kept y l)
  ];
  rest_of = λ y k. elim k [ inl e ↦ inl e | inr l ↦ inr (t.rest_of y l) ];
}

module _ (better : ℕ → ℕ → Bool) (better_refl : (a : ℕ) → better a a ≡ false)
    (better_asym : (a b : ℕ) → better a b ≡ true → better b a ≡ false)
    (better_trans : (a b c : ℕ)
      → better a b ≡ false
      → better b c ≡ false
      → better a c ≡ false) where
  -- The walk takes an item that no item is better than.
  select_lem :
      (x : ℕ) (xs : List ℕ)
      → let (m, rest) = place better x (select better xs) in
        Takes (λ n. n) (x ∷ xs) m rest × ((y : ℕ) → y ∈ x ∷ xs → better y m ≡ false)
  select_lem x [] = (
    Takes-head x [],
    λ y k. elim k [
      | inl e ↦ subst (λ z. better z x ≡ false) (sym e) (better_refl x)
      | inr l ↦ absurd l
    ],
  )
  select_lem x (z ∷ zs) =
      let (t, best) = select_lem z zs in
      let m = (place better z (select better zs)).0 in
      let rest = (place better z (select better zs)).1 in
      elim (Bool-cases (better m x)) [
        | inl b ↦ rw b (
          Takes-below x m (z ∷ zs) rest t,
          λ y k. elim k [
            | inl e ↦ subst (λ n. better n m ≡ false) (sym e) (better_asym m x b)
            | inr l ↦ best y l
          ],
        )
        | inr b ↦ rw b (
          Takes-above x m (z ∷ zs) rest t,
          λ y k. elim k [
            | inl e ↦ subst (λ n. better n x ≡ false) (sym e) (better_refl x)
            | inr l ↦ better_trans y m x (best y l) b
          ],
        )
      ]

abbrev above : ℕ → ℕ → Bool
above a b = ltb b a

ltb_refl : (a : ℕ) → ltb a a ≡ false
ltb_refl a = ground arith

ltb_asym : (a b : ℕ) → ltb a b ≡ true → ltb b a ≡ false
ltb_asym a b e = ground arith

ltb_trans : (a b c : ℕ) → ltb a b ≡ false → ltb b c ≡ false → ltb a c ≡ false
ltb_trans a b c p q = ground arith

abbrev least : List ℕ → Option (ℕ × List ℕ)
least q = select ltb q

abbrev greatest : List ℕ → Option (ℕ × List ℕ)
greatest q = select above q

abbrev first : Option (ℕ × List ℕ) → Option ℕ
first none = none
first (some (c, r)) = some c

pub least-Takes :
    (q : List ℕ) (c : ℕ) (r : List ℕ)
    → least q ≡ some (c, r)
    → Takes (λ n. n) q c r × ((x : ℕ) → x ∈ q → ¬ (compare x c ≡ lt))
least-Takes [] c r e = ground arith
least-Takes (x ∷ xs) c r e =
    let found = some-injective _ _ e in
    let (t, best) = select_lem ltb ltb_refl ltb_asym ltb_trans x xs in
    subst (λ (c, r). Takes (λ n. n) (x ∷ xs) c r × ((y : ℕ) → y ∈ x ∷ xs → ¬ (compare y c ≡ lt)))
      found (t, λ y k l. ground (arith, best y k))

pub greatest-Takes :
    (q : List ℕ) (c : ℕ)
    → first (greatest q) ≡ some c
    → (r : List ℕ) × (greatest q ≡ some (c, r))
      × Takes (λ n. n) q c r
      × ((x : ℕ) → x ∈ q → ¬ (compare c x ≡ lt))
greatest-Takes [] c e = ground arith
greatest-Takes (x ∷ xs) c e =
    let found = some-injective _ _ e in
    let m = (place above x (greatest xs)).0 in
    let r = (place above x (greatest xs)).1 in
    let (t, best) =
      select_lem above ltb_refl (λ a b h. ltb_asym b a h) (λ a b c h k. ltb_trans c b a k h) x xs in
    subst
      (λ c.
        (r : List ℕ) × (greatest (x ∷ xs) ≡ some (c, r))
        × Takes (λ n. n) (x ∷ xs) c r
        × ((x' : ℕ) → x' ∈ x ∷ xs → ¬ (compare c x' ≡ lt)))
      found (r, refl, t, λ y k l. ground (arith, best y k))

pub nothing_least : (q : List ℕ) → least q ≡ none → q ≡ []
nothing_least [] e = refl
nothing_least (x ∷ xs) e = ground arith

pub nothing_greatest : (q : List ℕ) → first (greatest q) ≡ none → q ≡ []
nothing_greatest [] e = refl
nothing_greatest (x ∷ xs) e = ground arith

abbrev pub list_heap : IntervalHeap (λ (n : ℕ). n)
list_heap = record {
  Queue = List ℕ;
  new = [];
  len = length;
  push = λ c q. c ∷ q;
  pop_min = least;
  pop_max = greatest;
  max = λ q. first (greatest q);
  contents = λ q. q;
  new_empty = refl;
  len_lem = λ q. refl;
  push_takes = Takes-head;
  min_none = nothing_least;
  min_takes = least-Takes;
  max_none = nothing_greatest;
  max_takes = greatest-Takes;
}
