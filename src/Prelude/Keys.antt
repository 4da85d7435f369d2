-- ===== src/Prelude/Keys.antt =====
-- Sorted sets without duplicates over a key type whose `cmp` answers `eq` on equal keys only.
use Prim.Native.Nat.{ℕ, compare, Ordering}
use Prim.Native.Nat.Ordering.{lt, eq, gt}
use mathlib.Core.Path.{◌≡◌, refl}
use mathlib.Core.Bool.{Bool, true, false, ◌&&◌, ◌||◌}
use mathlib.Core.List.{List, [], ◌∷◌}
use mathlib.Core.Logic.{inl, inr}
use native.Mathlib.Omega.{arith}
use telamon.Prelude.Tests.{Ordering-cases}

-- The first comparison that is not `eq` decides.
abbrev pub and_then : Ordering → Ordering → Ordering
and_then lt b = lt
and_then eq b = b
and_then gt b = gt

pub record Key (A : Type 0) : Type 0 where
  pub cmp : A → A → Ordering
  pub same : (a b : A) → cmp a b ≡ eq → a ≡ b

pub nat_same : (a b : ℕ) → compare a b ≡ eq → a ≡ b
nat_same a b e = ground arith

instance abbrev pub nat_key : Key ℕ
nat_key = record { cmp = compare; same = nat_same }

abbrev pub bool_cmp : Bool → Bool → Ordering
bool_cmp false false = eq
bool_cmp false true = lt
bool_cmp true false = gt
bool_cmp true true = eq

pub bool_cmp-same : (a b : Bool) → bool_cmp a b ≡ eq → a ≡ b
bool_cmp-same false false e = refl
bool_cmp-same false true e = ground arith
bool_cmp-same true false e = ground arith
bool_cmp-same true true e = refl

instance abbrev pub bool_key : Key Bool
bool_key = record { cmp = bool_cmp; same = bool_cmp-same }

module _ {A B : Type 0} ⦃k : Key A⦄ ⦃l : Key B⦄ where
  abbrev pub pair_cmp : A × B → A × B → Ordering
  pair_cmp (a, b) (c, d) = and_then (k.cmp a c) (l.cmp b d)

  pub pair_cmp-same : (p q : A × B) → pair_cmp p q ≡ eq → p ≡ q
  pair_cmp-same (a, b) (c, d) e = ground (arith, k.same a c, l.same b d)

  instance abbrev pub pair_key : Key (A × B)
  pair_key = record { cmp = pair_cmp; same = pair_cmp-same }

module _ {A : Type 0} ⦃k : Key A⦄ where
  abbrev pub list_cmp : List A → List A → Ordering
  list_cmp [] [] = eq
  list_cmp [] (y ∷ ys) = lt
  list_cmp (x ∷ xs) [] = gt
  list_cmp (x ∷ xs) (y ∷ ys) = and_then (k.cmp x y) (list_cmp xs ys)

  pub list_cmp-same : (p q : List A) → list_cmp p q ≡ eq → p ≡ q
  list_cmp-same [] [] e = refl
  list_cmp-same [] (y ∷ ys) e = ground arith
  list_cmp-same (x ∷ xs) [] e = ground arith
  list_cmp-same (x ∷ xs) (y ∷ ys) e = ground (arith, k.same x y, list_cmp-same xs ys)

  instance abbrev pub list_key : Key (List A)
  list_key = record { cmp = list_cmp; same = list_cmp-same }

  -- `BTreeSet::insert` and `BTreeSet::extend`.
  unfoldable pub add : A → List A → List A
  add a [] = a ∷ []
  add a (x ∷ xs) = elim (k.cmp a x) [ lt ↦ a ∷ x ∷ xs | eq ↦ x ∷ xs | gt ↦ x ∷ add a xs ]

  unfoldable pub extend : List A → List A → List A
  unfolding add
  extend xs [] = xs
  extend xs (y ∷ ys) = extend (add y xs) ys

module _ {A : Type 0} where
  abbrev pub any : (A → Bool) → List A → Bool
  any p [] = false
  any p (x ∷ xs) = p x || any p xs

  abbrev pub every : (A → Bool) → List A → Bool
  every p [] = true
  every p (x ∷ xs) = p x && every p xs

module _ {A : Type 0} ⦃k : Key A⦄ (p : A → Bool) where
  pub any-add : (a : A) (xs : List A) → any p (add a xs) ≡ (p a || any p xs)
  unfolding add
  any-add a [] = refl
  any-add a (x ∷ xs) = elim (Ordering-cases (k.cmp a x)) [
    | inl e ↦ ground arith
    | inr (inl e) ↦ ground (arith, k.same a x e, any-add a xs)
    | inr (inr e) ↦ ground (arith, any-add a xs)
  ]

  pub any-extend : (xs ys : List A) → any p (extend xs ys) ≡ (any p xs || any p ys)
  unfolding extend
  any-extend xs [] = ground arith
  any-extend xs (y ∷ ys) = ground (arith, any-extend (add y xs) ys, any-add y xs)
