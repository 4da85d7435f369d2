-- ===== src/Gen/Alternatives/Compared.antt =====
-- telamon-gen/src/ir/filter.rs: `alternatives_of` for comparisons of inputs, and for every condition.
use telamon.Prelude.{
  ℕ, ◌≡◌, refl, sym, ap, ◌∙◌, subst, Bool, true, false, ◌||◌, none, some, List, [], ◌∷◌, arith,
  ◌==◌, Bool-cases, inl, inr,
}
use telamon.Prelude.Keys.{nat_key}
use telamon.Gen.Variables.{Code}
use telamon.Gen.Enums.{Enum, has}
use telamon.Gen.Values.{
  CmpOp, inverse_op, allows_eq, ValueType, enum_type, range, numeric_set, constant, full_type,
  integer, get_enum, empty, from_input, from_properties,
}
use telamon.Gen.Filter.{
  IrDesc, ChoiceInstance, Condition, code_cond, enum_cond, bool, cmp_code, cmp_input, enum_of_input,
}
use telamon.Gen.Normalize.{Texts}
use telamon.Gen.Evaluation.{Context, holds_op, turned, holds, in_set}
use telamon.Gen.Evaluation.Conditions.{
  IsContext, IsTyped, IsEquality, holds_op-inverse_op, turned-false,
}
use telamon.Gen.Alternatives.{alternatives_of}
use telamon.Gen.Alternatives.Restricted.{
  IsInput, Fits, changed, IsRestricted, not_enum_cond, enum_cond-IsRestricted,
  cmp_code-IsRestricted, neither, value_same, value_other,
}
use telamon.Gen.Alternatives.EnumValues.{
  or_false, HasValues, enum_input, inverse_op-IsEquality, enum_properties, same_enum,
}

holds_op-allows_eq : (op : CmpOp) (x : ℕ) → holds_op op x x ≡ allows_eq op
unfolding holds_op allows_eq
holds_op-allows_eq CmpOp.lt x = ground arith
holds_op-allows_eq CmpOp.gt x = ground arith
holds_op-allows_eq CmpOp.leq x = ground arith
holds_op-allows_eq CmpOp.geq x = ground arith
holds_op-allows_eq CmpOp.equal x = ground arith
holds_op-allows_eq CmpOp.neq x = ground arith

module _ (t : Texts) (d : IrDesc) (inputs : List ChoiceInstance) (c : Context)
    (h : IsContext t d inputs c) (id v : ℕ) where
  -- The sets that `alternatives_of` takes for a comparison, by the side on which the input is.
  record Sides (ty : ValueType) (lhs rhs : ℕ) (op : CmpOp) (inv : Bool) : Type 0 where
    pub both :
        (id == lhs) ≡ true
        → HasValues d inputs c v
            (from_properties d.enums ty (allows_eq op) inv)
            (holds_op op (turned (enum_of_input d inputs lhs) inv v) v)
    pub left :
        (id == lhs) ≡ true
        → HasValues d inputs c v
            (from_input ty rhs op inv)
            (holds_op op (turned (enum_of_input d inputs lhs) inv v) (c.value rhs))
    pub right :
        (id == rhs) ≡ true
        → HasValues d inputs c v
            (from_input ty lhs (inverse_op op) inv)
            (holds_op op (turned (enum_of_input d inputs lhs) inv (c.value lhs)) v)

  Sides-IsRestricted :
      (ty : ValueType) (lhs rhs : ℕ) (op : CmpOp) (inv : Bool)
      → Sides ty lhs rhs op inv
      → IsRestricted t d inputs c h id v ty (cmp_input lhs rhs op inv)
  unfolding alternatives_of holds changed
  Sides-IsRestricted ty lhs rhs op inv sides =
      let same = value_same t d inputs c h id v in
      let other = value_other t d inputs c h id v in
      elim (Bool-cases (id == lhs)) [
        | inl l ↦ elim (Bool-cases (id == rhs)) [
          | inl r ↦
              let (s, e, f) = sides.both l in
              (
                some s,
                rw (alternatives_of, l, r, e) refl,
                f
                    ∙ ap (λ (x : ℕ). holds_op op (turned (enum_of_input d inputs lhs) inv x) v)
                        (sym (same lhs l))
                    ∙ ap
                        (λ (y : ℕ).
                          holds_op op
                            (turned (enum_of_input d inputs lhs) inv
                              ((changed t d inputs c h id v).value lhs))
                            y)
                        (sym (same rhs r)),
              )
          | inr r ↦
              let (s, e, f) = sides.left l in
              (
                some s,
                rw (alternatives_of, l, r, e) refl,
                f
                    ∙ ap
                        (λ (x : ℕ).
                          holds_op op (turned (enum_of_input d inputs lhs) inv x) (c.value rhs))
                        (sym (same lhs l))
                    ∙ ap
                        (λ (y : ℕ).
                          holds_op op
                            (turned (enum_of_input d inputs lhs) inv
                              ((changed t d inputs c h id v).value lhs))
                            y)
                        (sym (other rhs r)),
              )
        ]
        | inr l ↦ elim (Bool-cases (id == rhs)) [
          | inl r ↦
              let (s, e, f) = sides.right r in
              (
                some s,
                rw (alternatives_of, l, r, e) refl,
                f
                    ∙ ap (λ (x : ℕ). holds_op op (turned (enum_of_input d inputs lhs) inv x) v)
                        (sym (other lhs l))
                    ∙ ap
                        (λ (y : ℕ).
                          holds_op op
                            (turned (enum_of_input d inputs lhs) inv
                              ((changed t d inputs c h id v).value lhs))
                            y)
                        (sym (same rhs r)),
              )
          | inr r ↦ neither t d inputs c h id v ty lhs rhs op inv l r
        ]
      ]

  -- The case of an integer that may be compared with inputs.
  integer_input :
      (ty : ValueType) (j : ℕ) (op : CmpOp) (b : Bool)
      → from_input ty j op false ≡ some (integer false ((op, j) ∷ []) [] ty)
      → holds_op op v (c.value j) ≡ b
      → HasValues d inputs c v (from_input ty j op false) b
  unfolding in_set
  integer_input ty j op b e f = (
    integer false ((op, j) ∷ []) [] ty,
    e,
    or_false (holds_op op v (c.value j) || false) ∙ or_false (holds_op op v (c.value j)) ∙ f,
  )

  integer-Sides :
      (ty : ValueType) (lhs rhs : ℕ) (op : CmpOp)
      → ((j : ℕ) (op : CmpOp)
          → from_input ty j op false ≡ some (integer false ((op, j) ∷ []) [] ty))
      → ((b : Bool) → HasValues d inputs c v (from_properties d.enums ty b false) b)
      → Sides ty lhs rhs op false
  integer-Sides ty lhs rhs op of_input of_properties = record {
    both = λ l.
        let (s, e, f) = of_properties (allows_eq op) in
        (
          s,
          e,
          f
              ∙ sym (holds_op-allows_eq op v)
              ∙ ap (λ (x : ℕ). holds_op op x v) (sym (turned-false (enum_of_input d inputs lhs) v)),
        );
    left = λ l.
        integer_input ty rhs op
          (holds_op op (turned (enum_of_input d inputs lhs) false v) (c.value rhs))
          (of_input rhs op)
          (ap (λ (x : ℕ). holds_op op x (c.value rhs))
            (sym (turned-false (enum_of_input d inputs lhs) v)));
    right = λ r.
        integer_input ty lhs (inverse_op op)
          (holds_op op (turned (enum_of_input d inputs lhs) false (c.value lhs)) v)
          (of_input lhs (inverse_op op))
          (holds_op-inverse_op op (c.value lhs) v
            ∙ ap (λ (x : ℕ). holds_op op x v)
                (sym (turned-false (enum_of_input d inputs lhs) (c.value lhs))));
  }

  range_properties :
      (b : Bool) → HasValues d inputs c v (from_properties d.enums (range false) b false) b
  unfolding from_properties empty full_type in_set
  range_properties true = (_, refl, refl)
  range_properties false = (_, refl, refl)

  set_properties :
      (u : Code) (b : Bool)
      → HasValues d inputs c v (from_properties d.enums (numeric_set u) b false) b
  unfolding from_properties empty full_type in_set
  set_properties u true = (_, refl, refl)
  set_properties u false = (_, refl, refl)

  module _ (name : ℕ) (e : Enum) (found : enum_of_input d inputs id ≡ some e)
      (named : get_enum d.enums name ≡ some e) (valid : has v e.values ≡ true) where
    enum-Sides :
        (lhs rhs : ℕ) (op : CmpOp) (inv : Bool)
        → IsEquality op
        → IsTyped d inputs (cmp_input lhs rhs op inv)
        → Sides (enum_type name) lhs rhs op inv
    enum-Sides lhs rhs op inv w typed = record {
      both = λ l.
          let (s, made, f) =
            enum_properties t d inputs c h id v name e found named valid op inv w in
          (
            s,
            made,
            f
                ∙ ap (λ (x : ℕ). holds_op op x v)
                    (sym (
                      (same_enum t d inputs c h id v name e found named valid lhs rhs op inv typed
                          (inl l)).0
                        v)),
          );
      left = λ l.
          let (at_lhs, at_rhs) =
            same_enum t d inputs c h id v name e found named valid lhs rhs op inv typed (inl l) in
          let (s, made, f) =
            enum_input t d inputs c h id v name e found named valid rhs op inv w
              (at_rhs (c.value rhs)) in
          (s, made, f ∙ ap (λ (x : ℕ). holds_op op x (c.value rhs)) (sym (at_lhs v)));
      right = λ r.
          let (at_lhs, at_rhs) =
            same_enum t d inputs c h id v name e found named valid lhs rhs op inv typed (inr r) in
          let (inverted, same) =
            inverse_op-IsEquality t d inputs c h id v name e found named valid op inv v
              (c.value lhs) w in
          let (s, made, f) =
            enum_input t d inputs c h id v name e found named valid lhs (inverse_op op) inv inverted
              (at_lhs (c.value lhs)) in
          (s, made, f ∙ same ∙ ap (λ (x : ℕ). holds_op op x v) (sym (at_lhs (c.value lhs))));
    }

  code_cond-IsRestricted :
      (ty : ValueType) (code : Code) (n : Bool)
      → IsRestricted t d inputs c h id v ty (code_cond code n)
  unfolding alternatives_of holds
  code_cond-IsRestricted ty code n = (none, refl, refl)

  bool-IsRestricted : (ty : ValueType) (b : Bool) → IsRestricted t d inputs c h id v ty (bool b)
  unfolding alternatives_of holds
  bool-IsRestricted ty b = (none, refl, refl)

  cmp_input-IsRestricted :
      (ty : ValueType) (lhs rhs : ℕ) (op : CmpOp) (inv : Bool)
      → IsInput t d inputs c h id v ty
      → Fits t d inputs c h id v ty (cmp_input lhs rhs op inv)
      → IsRestricted t d inputs c h id v ty (cmp_input lhs rhs op inv)
  unfolding from_input
  cmp_input-IsRestricted (enum_type name) lhs rhs op inv (e, found, named, valid) w =
      Sides-IsRestricted (enum_type name) lhs rhs op inv
        (enum-Sides name e found named valid lhs rhs op inv w.0 w.1)
  cmp_input-IsRestricted (range false) lhs rhs op inv p w =
      subst (λ b. IsRestricted t d inputs c h id v (range false) (cmp_input lhs rhs op b)) (sym w)
        (Sides-IsRestricted (range false) lhs rhs op false
          (integer-Sides (range false) lhs rhs op (λ j op. refl) range_properties))
  cmp_input-IsRestricted (range true) lhs rhs op inv p w =
      neither t d inputs c h id v (range true) lhs rhs op inv w.0 w.1
  cmp_input-IsRestricted (numeric_set u) lhs rhs op inv p w =
      subst (λ b. IsRestricted t d inputs c h id v (numeric_set u) (cmp_input lhs rhs op b)) (sym w)
        (Sides-IsRestricted (numeric_set u) lhs rhs op false
          (integer-Sides (numeric_set u) lhs rhs op (λ j op. refl) (set_properties u)))
  cmp_input-IsRestricted constant lhs rhs op inv p w =
      neither t d inputs c h id v constant lhs rhs op inv w.0 w.1

  enum_input_cond :
      (name i : ℕ) (values : List ℕ) (n inv : Bool)
      → IsInput t d inputs c h id v (enum_type name)
      → IsRestricted t d inputs c h id v (enum_type name) (enum_cond i values n inv)
  enum_input_cond name i values n inv p = elim (Bool-cases (id == i)) [
    | inl here ↦ enum_cond-IsRestricted t d inputs c h id v name i values n inv p here
    | inr there ↦ not_enum_cond t d inputs c h id v (enum_type name) i values n inv there
  ]

  -- `alternatives_of` does not panic: it answers that a condition is not on the input only if the condition
  -- does not depend on the value of the input, and otherwise its set holds a value of the input just if the
  -- condition holds once the input has this value. The hypotheses: the inputs have values of their enums,
  -- inverting a value twice gives it back, the normal form of a piece of code computes the same, the input
  -- has the type and the value is one of it, and the type fits the condition, that is, enums are compared for
  -- equality only, with an input of the same enum if inverted, integers are not inverted nor tested for
  -- values of an enum, and half ranges are not compared with inputs.
  pub alternatives_of-IsRestricted :
      (ty : ValueType) (k : Condition)
      → IsInput t d inputs c h id v ty
      → Fits t d inputs c h id v ty k
      → IsRestricted t d inputs c h id v ty k
  alternatives_of-IsRestricted ty (code_cond code n) p w = code_cond-IsRestricted ty code n
  alternatives_of-IsRestricted ty (bool b) p w = bool-IsRestricted ty b
  alternatives_of-IsRestricted ty (cmp_code lhs rhs op) p w =
      cmp_code-IsRestricted t d inputs c h id v ty lhs rhs op
  alternatives_of-IsRestricted ty (cmp_input lhs rhs op inv) p w =
      cmp_input-IsRestricted ty lhs rhs op inv p w
  alternatives_of-IsRestricted (enum_type name) (enum_cond i values n inv) p w =
      enum_input_cond name i values n inv p
  alternatives_of-IsRestricted (range false) (enum_cond i values n inv) p w =
      not_enum_cond t d inputs c h id v (range false) i values n inv w
  alternatives_of-IsRestricted (range true) (enum_cond i values n inv) p w =
      not_enum_cond t d inputs c h id v (range true) i values n inv w
  alternatives_of-IsRestricted (numeric_set u) (enum_cond i values n inv) p w =
      not_enum_cond t d inputs c h id v (numeric_set u) i values n inv w
  alternatives_of-IsRestricted constant (enum_cond i values n inv) p w =
      not_enum_cond t d inputs c h id v constant i values n inv w
