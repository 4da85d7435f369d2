-- ===== src/Gen/Alternatives/Restricted.antt =====
-- telamon-gen/src/ir/filter.rs: `alternatives_of`, against what the condition means.
use telamon.Prelude.{
  ℕ, ◌≡◌, refl, sym, ap, ◌∙◌, subst, Bool, true, false, ◌||◌, Option, none, some, List, [], ◌∷◌,
  arith, ◌==◌, ==→≡, if◌then◌else◌, Bool-cases, inl, inr,
}
use telamon.Prelude.Keys.{any-extend, nat_key, extend}
use telamon.Gen.Variables.{Code}
use telamon.Gen.Enums.{Enum, has}
use telamon.Gen.Values.{
  CmpOp, ValueType, enum_type, range, numeric_set, constant, full_type, ValueSet, integer, get_enum,
  normalize_values, normalized_enum_set, enum_values,
}
use telamon.Gen.Filter.{
  IrDesc, ChoiceInstance, Condition, enum_cond, cmp_code, cmp_input, enum_of_input,
}
use telamon.Gen.Normalize.{Texts}
use telamon.Gen.Evaluation.{Context, xor, holds_op, turned, holds, in_set}
use telamon.Gen.Evaluation.Conditions.{
  IsContext, IsTyped, IsEquality, eq_comm, has-normalize_values,
}
use telamon.Gen.Alternatives.{type_as_enum, alternatives_of}

-- The context with another value for one input.
abbrev pub with_value : Context → ℕ → ℕ → Context
with_value c id v = record c { value = λ i. if id == i then v else c.value i }

module _ (t : Texts) (d : IrDesc) (inputs : List ChoiceInstance) (c : Context)
    (h : IsContext t d inputs c) (id v : ℕ) where
  -- The type of the input is that of its choice, and `v` is one of its values.
  abbrev pub IsInput : ValueType → Type 0
  IsInput (enum_type name) =
      (e : Enum) × (enum_of_input d inputs id ≡ some e)
      × (get_enum d.enums name ≡ some e)
      × (has v e.values ≡ true)
  IsInput t = Unit

  -- An enum is compared for equality only, with a value of the same enum if it is inversed, and an integer is
  -- neither tested for the values of an enum nor inversed. A half range is not compared with an input.
  abbrev pub Fits : ValueType → Condition → Type 0
  Fits (enum_type name) (cmp_input lhs rhs op v) =
      IsEquality op × IsTyped d inputs (cmp_input lhs rhs op v)
  Fits (enum_type name) k = Unit
  Fits (range false) (enum_cond i values n v) = (id == i) ≡ false
  Fits (range false) (cmp_input lhs rhs op v) = v ≡ false
  Fits (range false) k = Unit
  Fits (range true) (enum_cond i values n v) = (id == i) ≡ false
  Fits (range true) (cmp_input lhs rhs op v) = ((id == lhs) ≡ false) × ((id == rhs) ≡ false)
  Fits (range true) k = Unit
  Fits (numeric_set u) (enum_cond i values n v) = (id == i) ≡ false
  Fits (numeric_set u) (cmp_input lhs rhs op v) = v ≡ false
  Fits (numeric_set u) k = Unit
  Fits constant (enum_cond i values n v) = (id == i) ≡ false
  Fits constant (cmp_input lhs rhs op v) = ((id == lhs) ≡ false) × ((id == rhs) ≡ false)
  Fits constant k = Unit

  abbrev pub changed : Context
  changed = with_value c id v

  -- The values for which the condition holds, or that it does not depend on the input.
  abbrev pub IsRestriction : Condition → Option ValueSet → Type 0
  IsRestriction k none = holds d inputs changed k ≡ holds d inputs c k
  IsRestriction k (some s) = in_set d inputs c s v ≡ holds d inputs changed k

  abbrev pub IsRestricted : ValueType → Condition → Type 0
  IsRestricted ty k =
      (o : Option ValueSet) × (alternatives_of id ty d k ≡ some o) × IsRestriction k o

  pub value_same : (i : ℕ) → (id == i) ≡ true → changed.value i ≡ v
  value_same i e = rw e refl

  pub value_other : (i : ℕ) → (id == i) ≡ false → changed.value i ≡ c.value i
  value_other i e = rw e refl

  pub not_enum_cond :
      (ty : ValueType) (i : ℕ) (values : List ℕ) (n inv : Bool)
      → (id == i) ≡ false
      → IsRestricted ty (enum_cond i values n inv)
  unfolding alternatives_of holds
  not_enum_cond ty i values n inv e = (
    none,
    rw (alternatives_of, e) refl,
    ap (λ (x : ℕ). xor n (has (turned (enum_of_input d inputs i) inv x) values)) (value_other i e),
  )

  pub enum_cond-IsRestricted :
      (name i : ℕ) (values : List ℕ) (n inv : Bool)
      → IsInput (enum_type name)
      → (id == i) ≡ true
      → IsRestricted (enum_type name) (enum_cond i values n inv)
  unfolding alternatives_of holds in_set normalized_enum_set enum_values type_as_enum
  enum_cond-IsRestricted name i values n inv (e, found, named, valid) here =
      let at = subst (λ (j : ℕ). enum_of_input d inputs j ≡ some e) (==→≡ id i here) found in
      (
        some (normalized_enum_set values n inv e),
        rw (alternatives_of, here, named) refl,
        or_false (has v (extend [] (normalize_values values n inv e)))
            ∙ any-extend (λ y. v == y) [] (normalize_values values n inv e)
            ∙ has-normalize_values e v values n inv (h.involutive id e found) valid
            ∙ ap (λ (o : Option Enum). xor n (has (turned o inv v) values)) (sym at)
            ∙ ap (λ (x : ℕ). xor n (has (turned (enum_of_input d inputs i) inv x) values))
                (sym (value_same i here)),
      )
    where
      or_false : (b : Bool) → (b || false) ≡ b
      or_false b = ground arith

  pub cmp_code-IsRestricted :
      (ty : ValueType) (lhs : ℕ) (rhs : Code) (op : CmpOp) → IsRestricted ty (cmp_code lhs rhs op)
  unfolding alternatives_of holds in_set
  cmp_code-IsRestricted ty lhs rhs op = elim (Bool-cases (lhs == id)) [
    | inl here ↦ (
      some (integer false [] ((op, rhs) ∷ []) (full_type ty)),
      rw (alternatives_of, here) refl,
      or_false (holds_op op v (c.code_value rhs))
          ∙ ap (λ (x : ℕ). holds_op op x (c.code_value rhs))
              (sym (value_same lhs (eq_comm id lhs ∙ here))),
    )
    | inr there ↦ (
      none,
      rw (alternatives_of, there) refl,
      ap (λ (x : ℕ). holds_op op x (c.code_value rhs)) (value_other lhs (eq_comm id lhs ∙ there)),
    )
  ]
    where
      or_false : (b : Bool) → (b || false) ≡ b
      or_false b = ground arith

  pub neither :
      (ty : ValueType) (lhs rhs : ℕ) (op : CmpOp) (inv : Bool)
      → (id == lhs) ≡ false
      → (id == rhs) ≡ false
      → IsRestricted ty (cmp_input lhs rhs op inv)
  unfolding alternatives_of holds
  neither ty lhs rhs op inv e f = (
    none,
    rw (alternatives_of, e, f) refl,
    ap (λ (x : ℕ). holds_op op (turned (enum_of_input d inputs lhs) inv x) (changed.value rhs))
          (value_other lhs e)
        ∙ ap (λ (x : ℕ). holds_op op (turned (enum_of_input d inputs lhs) inv (c.value lhs)) x)
            (value_other rhs f),
  )
