-- ===== src/Utils/NdArray/Complete.antt =====
-- telamon-utils/src/ndarray.rs: `NDRange` meets every index within the bounds.
use telamon.Prelude.{
  ℕ, zero, suc, ◌+◌, ◌-◌, ◌*◌, ◌<◌, ◌≡◌, refl, sym, ap, ◌∙◌, subst, ◌⊎◌, inl, inr, List, [], ◌∷◌,
  map, arith, All, ◌∈◌,
}
use telamon.Utils.NdArray.{product, fold_index, range_new}
use telamon.Utils.NdArray.Enumeration.{
  IsWithin, fold_index-cons, fold_index-lt, visit, count, visit-range_new,
}

mem-count : (i k n : ℕ) → k < n → i + k ∈ count i n
mem-count i k zero l = absurd (omega arith)
mem-count i zero (suc n) l = inl (omega arith)
mem-count i (suc k) (suc n) l =
    inr (subst (λ (t : ℕ). t ∈ count (i + 1) n) (omega arith) (mem-count (i + 1) k n (omega arith)))

module _ {A B : Type 0} where
  mem-map_inverse :
      (f : A → B) (xs : List A) (b : B) → b ∈ map f xs → (a : A) × (a ∈ xs) × (b ≡ f a)
  mem-map_inverse f [] b m = absurd m
  mem-map_inverse f (x ∷ xs) b (inl e) = (x, inl refl, e)
  mem-map_inverse f (x ∷ xs) b (inr m) = let (a, n, e) = mem-map_inverse f xs b m in (a, inr n, e)

module _ {A : Type 0} where
  pub All-mem : (P : A → Type 0) (xs : List A) (a : A) → All P xs → a ∈ xs → P a
  All-mem P [] a h m = absurd m
  All-mem P (x ∷ xs) a h (inl e) = subst P (sym e) h.0
  All-mem P (x ∷ xs) a h (inr m) = All-mem P xs a h.1 m

later_row : (i j p x y : ℕ) → i < j → x < p → i * p + x ≡ j * p + y → ⊥
later_row i j p x y l h e =
    let k = j - i - 1 in
    let rows : j ≡ i + 1 + k = omega (arith, l) in omega (arith, ap (λ (t : ℕ). t * p) rows, h, e)

same_row : (i j p x y : ℕ) → x < p → y < p → i * p + x ≡ j * p + y → (i ≡ j) × (x ≡ y)
same_row i j p x y h k e = elim (order i j) [
  | inl l ↦ absurd (later_row i j p x y l h e)
  | inr (inl l) ↦ absurd (later_row j i p y x l k (sym e))
  | inr (inr same) ↦ (same, omega (arith, ap (λ (t : ℕ). t * p) same, e))
]
  where
    order : (i j : ℕ) → (i < j) ⊎ ((j < i) ⊎ (i ≡ j))
    order i j = ground arith

fold_index-injective :
    (ds is js : List ℕ)
    → IsWithin ds is
    → IsWithin ds js
    → fold_index 0 ds is ≡ fold_index 0 ds js
    → is ≡ js
fold_index-injective [] [] [] v w e = refl
fold_index-injective [] [] (j ∷ js) v w e = absurd w
fold_index-injective [] (i ∷ is) js v w e = absurd v
fold_index-injective (d ∷ ds) [] js v w e = absurd v
fold_index-injective (d ∷ ds) (i ∷ is) [] v w e = absurd w
fold_index-injective (d ∷ ds) (i ∷ is) (j ∷ js) v w e =
    let rows : i * product ds + fold_index 0 ds is ≡ j * product ds + fold_index 0 ds js =
      sym (fold_index-cons d i ds is v.1) ∙ e ∙ fold_index-cons d j ds js w.1 in
    let (same, rest) =
      same_row i j (product ds) (fold_index 0 ds is) (fold_index 0 ds js) (fold_index-lt ds is v.1)
        (fold_index-lt ds js w.1) rows in
    let tails = fold_index-injective ds is js v.1 w.1 rest in cc

-- With more rounds than the array has cells, every index within the bounds is visited.
pub mem-visit :
    (ds is : List ℕ) (n : ℕ) → product ds < n → IsWithin ds is → is ∈ visit n (range_new ds)
mem-visit ds is n l w =
    let (within, in_order) = visit-range_new ds n l in
    let place = fold_index 0 ds is in
    let counted : place ∈ count 0 (product ds) =
      subst (λ (t : ℕ). t ∈ count 0 (product ds)) (omega arith)
        (mem-count 0 place (product ds) (fold_index-lt ds is w)) in
    let (js, m, e) =
      mem-map_inverse (fold_index 0 ds) (visit n (range_new ds)) place
        (subst (λ t. place ∈ t) (sym in_order) counted) in
    let same =
      fold_index-injective ds is js w (All-mem (IsWithin ds) (visit n (range_new ds)) js within m)
        e in
    subst (λ t. t ∈ visit n (range_new ds)) (sym same) m
