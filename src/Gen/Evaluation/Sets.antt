-- ===== src/Gen/Evaluation/Sets.antt =====
-- telamon-gen/src/ir/filter.rs: `ValueSet::intersect`, in terms of the values of a set.
use telamon.Prelude.{
  ℕ, ◌≡◌, refl, ap, ◌∙◌, Bool, true, false, ◌&&◌, ◌||◌, some, List, [], ◌∷◌, arith, ◌==◌, ==→≡,
  Bool-cases, inl, inr, Ordering-cases,
}
use telamon.Prelude.Keys.{Key, any, nat_key, pair_key}
use telamon.Gen.Variables.{Code, code_key}
use telamon.Gen.Enums.{has}
use telamon.Gen.Values.{
  CmpOp, op_key, ValueSet, enum, integer, is_member, is_subset, common, intersect,
}
use telamon.Gen.Filter.{IrDesc, ChoiceInstance}
use telamon.Gen.Evaluation.{Context, in_set, holds_op}

abbrev pub is_enum : ValueSet → Bool
is_enum (enum name values is) = true
is_enum (integer f is codes u) = false

module _ {A : Type 0} ⦃k : Key A⦄ (p : A → Bool) where
  is_member-any : (a : A) (xs : List A) → is_member a xs ≡ true → p a ≡ true → any p xs ≡ true
  is_member-any a [] m e = ground arith
  is_member-any a (x ∷ xs) m e = elim (Ordering-cases (k.cmp a x)) [
    | inl o ↦ ground (arith, is_member-any a xs)
    | inr (inl o) ↦ ground (arith, k.same a x o)
    | inr (inr o) ↦ ground (arith, is_member-any a xs)
  ]

  is_subset-any : (xs ys : List A) → is_subset xs ys ≡ true → any p xs ≡ true → any p ys ≡ true
  is_subset-any [] ys s e = ground arith
  is_subset-any (x ∷ xs) ys s e = elim (Bool-cases (p x)) [
    | inl here ↦ is_member-any x ys (ground arith) here
    | inr there ↦ is_subset-any xs ys (ground arith) (ground arith)
  ]

has-common : (v : ℕ) (xs ys : List ℕ) → has v (common xs ys) ≡ (has v xs && has v ys)
has-common v [] ys = refl
has-common v (x ∷ xs) ys =
    let ih = has-common v xs ys in
    let same : v == x ≡ true → has v ys ≡ is_member x ys =
      λ e. ap (λ (n : ℕ). has n ys) (==→≡ v x e) in
    elim (Bool-cases (is_member x ys)) [
      | inl inside ↦ rw inside (elim (Bool-cases (v == x)) [
        | inl e ↦ let here = same e in ground arith
        | inr e ↦ ground arith
      ])
      | inr outside ↦ rw outside (elim (Bool-cases (v == x)) [
        | inl e ↦ let here = same e in ground arith
        | inr e ↦ ground arith
      ])
    ]

and_comm : (x y : Bool) → (x && y) ≡ (y && x)
and_comm x y = ground arith

module _ (d : IrDesc) (inputs : List ChoiceInstance) (c : Context) where
  abbrev cmp_input_holds : ℕ → CmpOp × ℕ → Bool
  cmp_input_holds v p = holds_op p.0 v (c.value p.1)

  abbrev cmp_code_holds : ℕ → CmpOp × Code → Bool
  cmp_code_holds v p = holds_op p.0 v (c.code_value p.1)

  -- A set that is narrowed holds the values of both sets, and a set that is not is kept.
  abbrev pub IsNarrowed : ValueSet → ValueSet → Bool × ValueSet → Type 0
  IsNarrowed s t (true, u) =
      ((v : ℕ) → in_set d inputs c u v ≡ (in_set d inputs c s v && in_set d inputs c t v))
      × (is_enum u ≡ is_enum s)
  IsNarrowed s t (false, u) = u ≡ s

  subsets :
      (v : ℕ) (is js : List (CmpOp × ℕ)) (codes more : List (CmpOp × Code))
      → is_subset is js ≡ true
      → is_subset codes more ≡ true
      → (any (cmp_input_holds v) is || any (cmp_code_holds v) codes) ≡ (
          (any (cmp_input_holds v) is || any (cmp_code_holds v) codes)
          && (any (cmp_input_holds v) js || any (cmp_code_holds v) more))
  subsets v is js codes more p q = ground (
    arith,
    is_subset-any (cmp_input_holds v) is js p,
    is_subset-any (cmp_code_holds v) codes more q,
  )

  -- Two sets of values of one kind are intersected without a panic: if `intersect` answers that it succeeded,
  -- the first set then holds exactly the values of both and is of the same kind, and otherwise it is
  -- unchanged.
  pub intersect-IsNarrowed :
      (s t : ValueSet)
      → is_enum s ≡ is_enum t
      → (r : Bool × ValueSet) × (intersect s t ≡ some r) × IsNarrowed s t r
  unfolding intersect in_set
  intersect-IsNarrowed (enum n xs []) (enum m ys []) k =
      (_, refl, (λ v. ground (arith, has-common v xs ys), refl))
  intersect-IsNarrowed (enum n xs []) (enum m ys (j ∷ js)) k = (_, refl, refl)
  intersect-IsNarrowed (enum n xs (i ∷ is)) (enum m ys js) k = (_, refl, refl)
  intersect-IsNarrowed (enum n xs is) (integer f js codes u) k = ground arith
  intersect-IsNarrowed (integer f is codes u) (enum n xs js) k = ground arith
  intersect-IsNarrowed (integer true is codes u) (integer g js more w) k =
      (_, refl, (λ v. ground arith, refl))
  intersect-IsNarrowed (integer false is codes u) (integer true js more w) k =
      (_, refl, (λ v. ground arith, refl))
  intersect-IsNarrowed (integer false is codes u) (integer false js more w) k =
      elim (Bool-cases (is_subset js is && is_subset more codes)) [
        | inl e ↦ (
          (true, integer false js more u),
          rw e refl,
          (
            λ v.
                subsets v js is more codes (ground arith) (ground arith)
                ∙ and_comm (any (cmp_input_holds v) js || any (cmp_code_holds v) more)
                    (any (cmp_input_holds v) is || any (cmp_code_holds v) codes),
            refl,
          ),
        )
        | inr e ↦ elim (Bool-cases (is_subset is js && is_subset codes more)) [
          | inl f ↦ (
            (true, integer false is codes u),
            rw (e, f) refl,
            (λ v. subsets v is js codes more (ground arith) (ground arith), refl),
          )
          | inr f ↦ ((false, integer false is codes u), rw (e, f) refl, refl)
        ]
      ]
