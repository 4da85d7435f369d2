-- ===== src/Prelude/Order.antt =====
-- The trait `Ord` of a key type, with what its documentation asks of `cmp`, and the strictly
-- ascending lists over it.
use Prim.Native.Nat.{ℕ, compare, Ordering}
use Prim.Native.Nat.Ordering.{lt, eq, gt}
use mathlib.Core.Path.{◌≡◌, refl, sym, ◌∙◌}
use mathlib.Core.Logic.{◌↔◌, inl, inr}
use mathlib.Core.List.{List, [], ◌∷◌}
use native.Mathlib.Omega.{arith}
use telamon.Prelude.Lists.{All, ◌∈◌}

abbrev pub swap : Ordering → Ordering
swap lt = gt
swap eq = eq
swap gt = lt

pub record Ord (T : Type 0) : Type 0 where
  pub cmp : T → T → Ordering
  pub same : (a b : T) → (cmp a b ≡ eq) ↔ (a ≡ b)
  pub turned : (a b : T) → cmp b a ≡ swap (cmp a b)
  pub lt_trans : (a b c : T) → cmp a b ≡ lt → cmp b c ≡ lt → cmp a c ≡ lt

pub compare-same : (a b : ℕ) → (compare a b ≡ eq) ↔ (a ≡ b)
compare-same a b = (ground arith, ground arith)

pub compare-turned : (a b : ℕ) → compare b a ≡ swap (compare a b)
compare-turned a b = ground arith

pub compare-lt_trans : (a b c : ℕ) → compare a b ≡ lt → compare b c ≡ lt → compare a c ≡ lt
compare-lt_trans a b c p q = ground arith

instance abbrev pub nat_ord : Ord ℕ
nat_ord = record {
  cmp = compare;
  same = compare-same;
  turned = compare-turned;
  lt_trans = compare-lt_trans;
}

module _ {T : Type 0} ⦃o : Ord T⦄ where
  -- Every value of the list comes after `a`.
  abbrev pub Above : T → List T → Type 0
  Above a xs = All (λ x. o.cmp a x ≡ lt) xs

  abbrev pub IsAscending : List T → Type 0
  IsAscending [] = Unit
  IsAscending (x ∷ xs) = Above x xs × IsAscending xs

  pub Above-mem : (a b : T) (xs : List T) → Above a xs → b ∈ xs → o.cmp a b ≡ lt
  Above-mem a b [] h m = absurd m
  Above-mem a b (x ∷ xs) h m = ground (arith, Above-mem a b xs)

  pub Above-lt : (a b : T) (xs : List T) → o.cmp a b ≡ lt → Above b xs → Above a xs
  Above-lt a b [] h k = tt
  Above-lt a b (x ∷ xs) h k = (o.lt_trans a b x h k.0, Above-lt a b xs h k.1)

  pub not-mem_Above : (a : T) (xs : List T) → Above a xs → ¬ (a ∈ xs)
  not-mem_Above a xs h m = ground (arith, Above-mem a a xs h m, (o.same a a).1)

  pub Above-of_mem : (a : T) (xs : List T) → ((b : T) → b ∈ xs → o.cmp a b ≡ lt) → Above a xs
  Above-of_mem a [] h = tt
  Above-of_mem a (x ∷ xs) h = (h x (inl refl), Above-of_mem a xs (λ b m. h b (inr m)))

  ascending_heads :
      (x y : T) (xs ys : List T)
      → IsAscending (x ∷ xs)
      → IsAscending (y ∷ ys)
      → x ∈ y ∷ ys
      → y ∈ x ∷ xs
      → x ≡ y
  ascending_heads x y xs ys p q (inl e) n = e
  ascending_heads x y xs ys p q (inr m) (inl e) = sym e
  ascending_heads x y xs ys p q (inr m) (inr n) =
      ground (arith, Above-mem y x ys q.0 m, Above-mem x y xs p.0 n, o.turned x y)

  ascending_tail : (a x y : T) (xs ys : List T) → x ≡ y → o.cmp x a ≡ lt → a ∈ y ∷ ys → a ∈ ys
  ascending_tail a x y xs ys e l (inl k) = ground (arith, (o.same x a).1 (e ∙ sym k))
  ascending_tail a x y xs ys e l (inr m) = m

  -- Two ascending lists with the same values are one list.
  pub ascending_ext :
      (xs ys : List T) → IsAscending xs → IsAscending ys → ((a : T) → (a ∈ xs) ↔ (a ∈ ys)) → xs ≡ ys
  ascending_ext [] [] p q h = refl
  ascending_ext [] (y ∷ ys) p q h = absurd ((h y).1 (inl refl))
  ascending_ext (x ∷ xs) [] p q h = absurd ((h x).0 (inl refl))
  ascending_ext (x ∷ xs) (y ∷ ys) p q h =
      let heads = ascending_heads x y xs ys p q ((h x).0 (inl refl)) ((h y).1 (inl refl)) in
      let tails = ascending_ext xs ys p.1 q.1 λ a. (
        λ m. ascending_tail a x y xs ys heads (Above-mem x a xs p.0 m) ((h a).0 (inr m)),
        λ m. ascending_tail a y x ys xs (sym heads) (Above-mem y a ys q.0 m) ((h a).1 (inr m)),
      ) in
      cc
