-- ===== src/Gen/Evaluation/Conditions.antt =====
-- telamon-gen/src/ir/filter.rs: normal forms and instances of conditions, in terms of what conditions mean.
use telamon.Prelude.{
  ℕ, ◌≡◌, refl, sym, ap, ◌∙◌, Bool, true, false, not, ◌&&◌, Option, none, some, List, [], ◌∷◌, map,
  arith, ◌==◌, ==→≡, ltb, Bool-cases, inl, inr, Ordering-cases, All,
}
use telamon.Prelude.Keys.{every, any-extend, nat_key, extend}
use telamon.Gen.Variables.{Code}
use telamon.Gen.Enums.{Enum, has, inverse}
use telamon.Gen.Values.{CmpOp, inverse_op, normalize_values, keep}
use telamon.Gen.Filter.{
  IrDesc, ChoiceInstance, Condition, code_cond, enum_cond, bool, cmp_code, cmp_input, enum_of_input,
}
use telamon.Gen.Normalize.{
  Texts, normalize_code, normalize, condition_cmp, insert_condition, sort_conditions, normalize_all,
}
use telamon.Gen.Evaluation.{Context, xor, holds_op, turned, holds}

pub has-keep : (p : ℕ → Bool) (x : ℕ) (xs : List ℕ) → has x (keep p xs) ≡ (has x xs && p x)
has-keep p x [] = refl
has-keep p x (y ∷ xs) =
    let ih = has-keep p x xs in
    let same : x == y ≡ true → p x ≡ p y = λ e. ap p (==→≡ x y e) in
    elim (Bool-cases (p y)) [
      | inl kept ↦ rw kept (elim (Bool-cases (x == y)) [
        | inl e ↦ let s = same e in ground arith
        | inr e ↦ ground arith
      ])
      | inr gone ↦ rw gone (elim (Bool-cases (x == y)) [
        | inl e ↦ let s = same e in ground arith
        | inr e ↦ ground arith
      ])
    ]

pub eq_comm : (x y : ℕ) → (x == y) ≡ (y == x)
eq_comm x y = ground arith

inverse_eq :
    (e : Enum)
    → ((y : ℕ) → inverse e (inverse e y) ≡ y)
    → (x y : ℕ) → (x == inverse e y) ≡ (inverse e x == y)
inverse_eq e h x y = elim (Bool-cases (x == inverse e y)) [
  | inl p ↦ let q = ap (inverse e) (==→≡ x (inverse e y) p) ∙ h y in ground arith
  | inr p ↦ elim (Bool-cases (inverse e x == y)) [
    | inl q ↦ let r = sym (h x) ∙ ap (inverse e) (==→≡ (inverse e x) y q) in ground arith
    | inr q ↦ ground arith
  ]
]

pub turned-false : (e : Option Enum) (x : ℕ) → turned e false x ≡ x
turned-false none x = refl
turned-false (some e) x = refl

-- A list of values that are inversed has `x` just if the list has the inverse of `x`.
has-map-inverse :
    (e : Enum) (x : ℕ) (xs : List ℕ)
    → ((y : ℕ) → inverse e (inverse e y) ≡ y)
    → has x (map (inverse e) xs) ≡ has (inverse e x) xs
has-map-inverse e x [] h = refl
has-map-inverse e x (y ∷ xs) h =
    let ih = has-map-inverse e x xs h in let heads = inverse_eq e h x y in ground arith

map_id : (xs : List ℕ) → map (λ (x : ℕ). x) xs ≡ xs
map_id [] = refl
map_id (x ∷ xs) = ap (λ t. x ∷ t) (map_id xs)

-- The normal set of values holds `x` just if the condition does at `x`.
pub has-normalize_values :
    (e : Enum) (x : ℕ) (values : List ℕ) (negate is_inverse : Bool)
    → ((y : ℕ) → inverse e (inverse e y) ≡ y)
    → has x e.values ≡ true
    → has x (normalize_values values negate is_inverse e)
      ≡ xor negate (has (turned (some e) is_inverse x) values)
unfolding normalize_values
has-normalize_values e x values false false h k =
    any-extend (λ y. x == y) [] (map (λ (y : ℕ). y) values) ∙ ap (has x) (map_id values)
has-normalize_values e x values false true h k =
    any-extend (λ y. x == y) [] (map (inverse e) values) ∙ has-map-inverse e x values h
has-normalize_values e x values true false h k =
    has-keep (λ y. not (has y (extend [] (map (λ (y : ℕ). y) values)))) x e.values
    ∙ ap (λ b. b && not (has x (extend [] (map (λ (y : ℕ). y) values)))) k
    ∙ ap not (any-extend (λ y. x == y) [] (map (λ (y : ℕ). y) values) ∙ ap (has x) (map_id values))
has-normalize_values e x values true true h k =
    has-keep (λ y. not (has y (extend [] (map (inverse e) values)))) x e.values
    ∙ ap (λ b. b && not (has x (extend [] (map (inverse e) values)))) k
    ∙ ap not (any-extend (λ y. x == y) [] (map (inverse e) values) ∙ has-map-inverse e x values h)

abbrev pub IsEquality : CmpOp → Type 0
IsEquality CmpOp.equal = Unit
IsEquality CmpOp.neq = Unit
IsEquality op = ⊥

pub holds_op-inverse_op : (op : CmpOp) (x y : ℕ) → holds_op (inverse_op op) y x ≡ holds_op op x y
unfolding holds_op inverse_op
holds_op-inverse_op CmpOp.lt x y = refl
holds_op-inverse_op CmpOp.gt x y = refl
holds_op-inverse_op CmpOp.leq x y = refl
holds_op-inverse_op CmpOp.geq x y = refl
holds_op-inverse_op CmpOp.equal x y = ground arith
holds_op-inverse_op CmpOp.neq x y = ground arith

and_swap : (x y z : Bool) → (x && (y && z)) ≡ (y && (x && z))
and_swap x y z = ground arith

module _ (d : IrDesc) (inputs : List ChoiceInstance) where
  -- A condition on an enum is about an input with an enum, and inputs are compared up to inversion for
  -- equality only, over one enum.
  abbrev pub IsTyped : Condition → Type 0
  IsTyped (enum_cond i values n v) = (e : Enum) × (enum_of_input d inputs i ≡ some e)
  IsTyped (cmp_input lhs rhs op true) =
      (e : Enum) × (enum_of_input d inputs lhs ≡ some e)
      × (enum_of_input d inputs rhs ≡ some e)
      × IsEquality op
  IsTyped other = Unit

module _ (t : Texts) (d : IrDesc) (inputs : List ChoiceInstance) (c : Context) where
  -- The values of the inputs are values of their enums, inverting a value twice gives it back, and the normal
  -- form of a piece of code computes the same.
  pub record IsContext : Type 0 where
    pub involutive :
        (i : ℕ) (e : Enum)
        → enum_of_input d inputs i ≡ some e
        → (x : ℕ) → inverse e (inverse e x) ≡ x
    pub valued :
        (i : ℕ) (e : Enum) → enum_of_input d inputs i ≡ some e → has (c.value i) e.values ≡ true
    pub code_kept : (k : Code) → c.code_holds (normalize_code t k) ≡ c.code_holds k
    pub code_value_kept : (k : Code) → c.code_value (normalize_code t k) ≡ c.code_value k

  abbrev IsNormal : Condition → Type 0
  IsNormal k =
      (k' : Condition) × (normalize t d inputs k ≡ some k')
      × (holds d inputs c k' ≡ holds d inputs c k)

  module _ (h : IsContext) where
    pub swapped-equal :
        (e : Enum) (x y : ℕ)
        → ((z : ℕ) → inverse e (inverse e z) ≡ z)
        → (inverse e y == x) ≡ (inverse e x == y)
    swapped-equal e x y inv = eq_comm (inverse e y) x ∙ inverse_eq e inv x y

    swapped :
        (lhs rhs : ℕ) (op : CmpOp) (v : Bool)
        → IsTyped d inputs (cmp_input lhs rhs op v)
        → holds d inputs c (cmp_input rhs lhs (inverse_op op) v)
          ≡ holds d inputs c (cmp_input lhs rhs op v)
    unfolding holds holds_op inverse_op
    swapped lhs rhs op false w =
        ap (λ x. holds_op (inverse_op op) x (c.value lhs))
          (turned-false (enum_of_input d inputs rhs) (c.value rhs))
        ∙ holds_op-inverse_op op (c.value lhs) (c.value rhs)
        ∙ ap (λ x. holds_op op x (c.value rhs))
            (sym (turned-false (enum_of_input d inputs lhs) (c.value lhs)))
    swapped lhs rhs CmpOp.equal true (e, left, right, w) =
        ap (λ o. turned o true (c.value rhs) == c.value lhs) right
        ∙ swapped-equal e (c.value lhs) (c.value rhs) (h.involutive lhs e left)
        ∙ ap (λ o. turned o true (c.value lhs) == c.value rhs) (sym left)
    swapped lhs rhs CmpOp.neq true (e, left, right, w) =
        ap (λ o. not (turned o true (c.value rhs) == c.value lhs)) right
        ∙ ap not (swapped-equal e (c.value lhs) (c.value rhs) (h.involutive lhs e left))
        ∙ ap (λ o. not (turned o true (c.value lhs) == c.value rhs)) (sym left)
    swapped lhs rhs CmpOp.lt true w = absurd w.3
    swapped lhs rhs CmpOp.gt true w = absurd w.3
    swapped lhs rhs CmpOp.leq true w = absurd w.3
    swapped lhs rhs CmpOp.geq true w = absurd w.3

    normalize-holds : (k : Condition) → IsTyped d inputs k → IsNormal k
    unfolding normalize holds
    normalize-holds (bool b) w = (bool b, refl, refl)
    normalize-holds (code_cond code n) w =
        (code_cond (normalize_code t code) n, refl, ap (xor n) (h.code_kept code))
    normalize-holds (cmp_code lhs rhs op) w = (
      cmp_code lhs (normalize_code t rhs) op,
      refl,
      ap (holds_op op (c.value lhs)) (h.code_value_kept rhs),
    )
    normalize-holds (enum_cond i values n v) (e, found) = (
      enum_cond i (extend [] (normalize_values values n v e)) false false,
      rw (normalize, found) refl,
      ap (λ x. has x (extend [] (normalize_values values n v e)))
            (turned-false (enum_of_input d inputs i) (c.value i))
          ∙ any-extend (λ y. c.value i == y) [] (normalize_values values n v e)
          ∙ has-normalize_values e (c.value i) values n v (h.involutive i e found)
              (h.valued i e found)
          ∙ ap (λ o. xor n (has (turned o v (c.value i)) values)) (sym found),
    )
    normalize-holds (cmp_input lhs rhs op v) w = elim (Bool-cases (ltb rhs lhs)) [
      | inl e ↦
          (cmp_input rhs lhs (inverse_op op) v, rw (normalize, e) refl, swapped lhs rhs op v w)
      | inr e ↦ (cmp_input lhs rhs op v, rw (normalize, e) refl, refl)
    ]

    pub normalize_all-holds :
        (ks : List Condition)
        → All (IsTyped d inputs) ks
        → (ks' : List Condition) × (normalize_all t d inputs ks ≡ some ks')
          × (every (holds d inputs c) ks' ≡ every (holds d inputs c) ks)
    unfolding normalize_all
    normalize_all-holds [] w = ([], refl, refl)
    normalize_all-holds (k ∷ ks) w =
        let (k', e, same) = normalize-holds k w.0 in
        let (ks', es, rest) = normalize_all-holds ks w.1 in
        (k' ∷ ks', rw (e, es) refl, ground (arith, same, rest))

  every-insert_condition :
      (k : Condition) (ks : List Condition)
      → every (holds d inputs c) (insert_condition k ks)
        ≡ (holds d inputs c k && every (holds d inputs c) ks)
  unfolding insert_condition
  every-insert_condition k [] = refl
  every-insert_condition k (l ∷ ks) = elim (Ordering-cases (condition_cmp k l)) [
    | inl o ↦ rw (insert_condition, o) refl
    | inr (inl o) ↦ rw (insert_condition, o) refl
    | inr (inr o) ↦
        rw (insert_condition, o)
          (ap (λ b. holds d inputs c l && b) (every-insert_condition k ks)
            ∙ and_swap (holds d inputs c l) (holds d inputs c k) (every (holds d inputs c) ks))
  ]

  pub every-sort_conditions :
      (ks : List Condition)
      → every (holds d inputs c) (sort_conditions ks) ≡ every (holds d inputs c) ks
  unfolding sort_conditions
  every-sort_conditions [] = refl
  every-sort_conditions (k ∷ ks) =
      every-insert_condition k (sort_conditions ks)
      ∙ ap (λ b. holds d inputs c k && b) (every-sort_conditions ks)
