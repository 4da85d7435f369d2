-- ===== src/Utils/NdArray/Enumeration.antt =====
-- telamon-utils/src/ndarray.rs: the indexes that `NDRange` visits.
use telamon.Prelude.{
  ℕ, zero, suc, ◌+◌, ◌-◌, ◌*◌, ◌<◌, ◌≡◌, refl, ap, ◌∙◌, ◌≢◌, inl, inr, Bool, true, false, Option,
  none, some, List, [], ◌∷◌, map, arith, ◌==◌, if◌then◌else◌, ==→≡, Bool-cases, length, replicate,
  All,
}
use telamon.Utils.NdArray.{
  product, fold_index, NdRange, has_zero, range_new, carry_into, bump, first_place, advance,
  range_next,
}

-- Each index is below the size of its dimension.
abbrev pub IsWithin : List ℕ → List ℕ → Type 0
IsWithin [] [] = Unit
IsWithin [] (i ∷ is) = ⊥
IsWithin (d ∷ ds) [] = ⊥
IsWithin (d ∷ ds) (i ∷ is) = (i < d) × IsWithin ds is

fold_index-acc :
    (x : ℕ) (ds is : List ℕ)
    → IsWithin ds is
    → fold_index x ds is ≡ x * product ds + fold_index 0 ds is
fold_index-acc x [] [] w = omega arith
fold_index-acc x [] (i ∷ is) w = absurd w
fold_index-acc x (d ∷ ds) [] w = absurd w
fold_index-acc x (d ∷ ds) (i ∷ is) w =
    omega (arith, fold_index-acc (x * d + i) ds is w.1, fold_index-acc (0 * d + i) ds is w.1)

-- The place of a cell, by the first index.
pub fold_index-cons :
    (d i : ℕ) (ds is : List ℕ)
    → IsWithin ds is
    → fold_index 0 (d ∷ ds) (i ∷ is) ≡ i * product ds + fold_index 0 ds is
fold_index-cons d i ds is w = omega (arith, fold_index-acc (0 * d + i) ds is w)

pub fold_index-lt : (ds is : List ℕ) → IsWithin ds is → fold_index 0 ds is < product ds
fold_index-lt [] [] w = omega arith
fold_index-lt [] (i ∷ is) w = absurd w
fold_index-lt (d ∷ ds) [] w = absurd w
fold_index-lt (d ∷ ds) (i ∷ is) w =
    let (k, e) = split_lt i d w.0 in
    omega (
      arith,
      fold_index-cons d i ds is w.1,
      fold_index-lt ds is w.1,
      ap (λ (t : ℕ). t * product ds) e,
    )
  where
    split_lt : (i d : ℕ) → i < d → (k : ℕ) × (d ≡ i + 1 + k)
    split_lt i d h = (d - i - 1, omega arith)

-- What the loop does to places that are within the bounds.
record IsBump (ms cs : List ℕ) (r : Bool × List ℕ) : Type 0 where
  pub within : IsWithin ms r.1
  pub carried : r.0 ≡ true → (fold_index 0 ms cs + 1 ≡ product ms) × (fold_index 0 ms r.1 ≡ 0)
  pub stepped : r.0 ≡ false → fold_index 0 ms r.1 ≡ fold_index 0 ms cs + 1

carry_into-IsBump :
    (m c : ℕ) (ms cs : List ℕ) (r : Bool × List ℕ)
    → c < m
    → IsWithin ms cs
    → IsBump ms cs r
    → IsBump (m ∷ ms) (c ∷ cs) (carry_into c m r)
carry_into-IsBump m c ms cs (false, rest) l w b = record {
  within = (l, b.within);
  carried = λ e. ground arith;
  stepped = λ e.
      omega
        (arith, fold_index-cons m c ms cs w, fold_index-cons m c ms rest b.within, b.stepped refl);
}
carry_into-IsBump m c ms cs (true, rest) l w b =
    let (last, zero_rest) = b.carried refl in
    let old = fold_index-cons m c ms cs w in
    elim (Bool-cases (c + 1 == m)) [
      | inl full ↦
          let e : c + 1 ≡ m = ==→≡ (c + 1) m full in
          rw full record {
            within = (omega arith, b.within);
            carried = λ f. (
              omega (arith, old, last, ap (λ (t : ℕ). t * product ms) e),
              omega (arith, fold_index-cons m 0 ms rest b.within, zero_rest),
            );
            stepped = λ f. ground arith;
          }
      | inr room ↦
          let n : c + 1 ≢ m = λ e. ground arith in
          rw room record {
            within = (omega (arith, n), b.within);
            carried = λ f. ground arith;
            stepped = λ f.
                omega (arith, old, last, fold_index-cons m (c + 1) ms rest b.within, zero_rest);
          }
    ]

bump-IsBump : (ms cs : List ℕ) → IsWithin ms cs → IsBump ms cs (bump cs ms)
bump-IsBump [] [] w = record {
  within = tt;
  carried = λ e. (omega arith, refl);
  stepped = λ e. ground arith;
}
bump-IsBump [] (c ∷ cs) w = absurd w
bump-IsBump (m ∷ ms) [] w = absurd w
bump-IsBump (m ∷ ms) (c ∷ cs) w =
    carry_into-IsBump m c ms cs (bump cs ms) w.0 w.1 (bump-IsBump ms cs w.1)

-- The next index, if there is one, is that of the next cell; there is none after the last cell.
abbrev IsNext : List ℕ → List ℕ → Option (List ℕ) → Type 0
IsNext ms cs none = fold_index 0 ms cs + 1 ≡ product ms
IsNext ms cs (some next) = IsWithin ms next × (fold_index 0 ms next ≡ fold_index 0 ms cs + 1)

abbrev checked : ℕ → List ℕ → Option (List ℕ)
checked m [] = none
checked m (d ∷ ds) = if d == m then none else some (d ∷ ds)

first_place-IsNext :
    (m c : ℕ) (ms cs : List ℕ) (r : Bool × List ℕ)
    → c < m
    → IsWithin ms cs
    → IsBump ms cs r
    → IsNext (m ∷ ms) (c ∷ cs) (checked m (first_place c r))
first_place-IsNext m c ms cs (false, rest) l w b =
    let n : (c == m) ≡ false = ground arith in
    rw n (
      (l, b.within),
      omega (
        arith,
        fold_index-cons m c ms cs w,
        fold_index-cons m c ms rest b.within,
        b.stepped refl,
      ),
    )
first_place-IsNext m c ms cs (true, rest) l w b =
    let (last, zero_rest) = b.carried refl in
    let old = fold_index-cons m c ms cs w in
    elim (Bool-cases (c + 1 == m)) [
      | inl full ↦
          let e : c + 1 ≡ m = ==→≡ (c + 1) m full in
          rw full (omega (arith, old, last, ap (λ (t : ℕ). t * product ms) e))
      | inr room ↦
          let n : c + 1 ≢ m = λ e. ground arith in
          rw room (
            (omega (arith, n), b.within),
            omega (arith, old, last, fold_index-cons m (c + 1) ms rest b.within, zero_rest),
          )
    ]

advance-IsNext : (ms cs : List ℕ) → IsWithin ms cs → IsNext ms cs (advance cs ms)
unfolding advance
advance-IsNext [] [] w = omega arith
advance-IsNext [] (c ∷ cs) w = absurd w
advance-IsNext (m ∷ ms) [] w = absurd w
advance-IsNext (m ∷ ms) (c ∷ cs) w =
    first_place-IsNext m c ms cs (bump cs ms) w.0 w.1 (bump-IsBump ms cs w.1)

-- The items of the iterator, `rounds` of them at most.
abbrev pub visit : ℕ → NdRange → List (List ℕ)
visit zero r = []
visit (suc rounds) r = elim (range_next r).0 [
  | none ↦ []
  | some item ↦ item ∷ visit rounds (range_next r).1
]

abbrev pub count : ℕ → ℕ → List ℕ
count i zero = []
count i (suc n) = i ∷ count (i + 1) n

-- What is visited from an index on.
record Visits (ds : List ℕ) (items : List (List ℕ)) (places : List ℕ) : Type 0 where
  pub all_within : All (IsWithin ds) items
  pub in_order : map (fold_index 0 ds) items ≡ places

visit-none : (n : ℕ) (ds : List ℕ) → visit n (record { max = ds; current = none }) ≡ []
unfolding range_next
visit-none zero ds = refl
visit-none (suc n) ds = refl

visit_after :
    (n : ℕ) (ds cs : List ℕ) (k : ℕ) (next : Option (List ℕ))
    → IsWithin ds cs
    → fold_index 0 ds cs + suc k ≡ product ds
    → IsNext ds cs next
    → ((is : List ℕ)
        → IsWithin ds is
        → fold_index 0 ds is ≡ fold_index 0 ds cs + 1
        → Visits ds
            (visit n (record { max = ds; current = some is }))
            (count (fold_index 0 ds is) k))
    → Visits ds
        (cs ∷ visit n (record { max = ds; current = next }))
        (count (fold_index 0 ds cs) (suc k))
visit_after n ds cs zero none w e last ih =
    rw (visit-none n ds) record { all_within = (w, tt); in_order = refl }
visit_after n ds cs (suc k) none w e last ih = absurd (omega arith)
visit_after n ds cs k (some is) w e (v, next) ih =
    let later = ih is v next in
    record {
      all_within = (w, later.all_within);
      in_order = ap (λ t. fold_index 0 ds cs ∷ t) (later.in_order ∙ ap (λ (i : ℕ). count i k) next);
    }

visit_from :
    (n : ℕ) (ds cs : List ℕ) (k : ℕ)
    → IsWithin ds cs
    → fold_index 0 ds cs + k ≡ product ds
    → k < n
    → Visits ds (visit n (record { max = ds; current = some cs })) (count (fold_index 0 ds cs) k)
unfolding range_next
visit_from zero ds cs k w e l = absurd (omega arith)
visit_from (suc n) ds cs zero w e l = absurd (omega (arith, fold_index-lt ds cs w))
visit_from (suc n) ds cs (suc k) w e l =
    visit_after n ds cs k (advance cs ds) w e (advance-IsNext ds cs w)
      (λ is v next. visit_from n ds is k v (omega arith) (omega arith))

product-zero : (ds : List ℕ) → has_zero ds ≡ true → product ds ≡ 0
product-zero [] h = ground arith
product-zero (d ∷ ds) h = elim (Bool-cases (d == 0)) [
  | inl z ↦ ap (λ (t : ℕ). t * product ds) (==→≡ d 0 z) ∙ omega arith
  | inr p ↦ ap (λ (t : ℕ). d * t) (product-zero ds (ground arith)) ∙ omega arith
]

zeros-IsWithin :
    (ds : List ℕ)
    → has_zero ds ≡ false
    → IsWithin ds (replicate (length ds) 0) × (fold_index 0 ds (replicate (length ds) 0) ≡ 0)
zeros-IsWithin [] h = (tt, refl)
zeros-IsWithin (d ∷ ds) h =
    let rest = zeros-IsWithin ds (ground arith) in
    (
      (ground arith, rest.0),
      omega (arith, fold_index-cons d 0 ds (replicate (length ds) 0) rest.0, rest.1),
    )

-- With more rounds than the array has cells, the iterator over the indexes visits indexes within the
-- bounds only, and they are those of the cells 0, 1, 2 and so on up to the last one.
pub visit-range_new :
    (ds : List ℕ) (n : ℕ)
    → product ds < n
    → All (IsWithin ds) (visit n (range_new ds))
      × (map (fold_index 0 ds) (visit n (range_new ds)) ≡ count 0 (product ds))
unfolding range_new
visit-range_new ds n l = elim (Bool-cases (has_zero ds)) [
  | inl z ↦ rw (range_empty ds z, visit-none n ds, product-zero ds z) (tt, refl)
  | inr p ↦
      let (w, first) = zeros-IsWithin ds p in
      let v = visit_from n ds (replicate (length ds) 0) (product ds) w (omega (arith, first)) l in
      rw (range_start ds p) (v.all_within, v.in_order ∙ ap (λ (i : ℕ). count i (product ds)) first)
]
  where
    range_empty :
        (ds : List ℕ) → has_zero ds ≡ true → range_new ds ≡ record { max = ds; current = none }
    range_empty ds z = rw (z, range_new) refl

    range_start :
        (ds : List ℕ)
        → has_zero ds ≡ false
        → range_new ds ≡ record { max = ds; current = some (replicate (length ds) 0) }
    range_start ds p = rw (p, range_new) refl
