-- ===== src/Gen/Alternatives/EnumValues.antt =====
-- telamon-gen/src/ir/filter.rs: the sets of values of an enum that compare equal to an input, or do not.
use telamon.Prelude.{
  ℕ, ◌≡◌, refl, sym, ap, ◌∙◌, Bool, true, false, not, ◌&&◌, ◌||◌, Option, some, List, [], arith,
  ◌==◌, ==→≡, ◌⊎◌, inl, inr,
}
use telamon.Prelude.Keys.{any-extend, nat_key, extend}
use telamon.Gen.Enums.{Enum, has, inverse}
use telamon.Gen.Values.{
  CmpOp, inverse_op, allows_eq, enum_type, ValueSet, get_enum, keep, normalize_values,
  normalized_enum_set, enum_values, from_input, from_properties,
}
use telamon.Gen.Filter.{IrDesc, ChoiceInstance, cmp_input, enum_of_input}
use telamon.Gen.Normalize.{Texts}
use telamon.Gen.Evaluation.{Context, xor, holds_op, turned, takes, in_set}
use telamon.Gen.Evaluation.Conditions.{
  IsContext, IsTyped, IsEquality, eq_comm, has-keep, has-normalize_values, turned-false,
  swapped-equal,
}

pub or_false : (b : Bool) → (b || false) ≡ b
or_false b = ground arith

module _ (d : IrDesc) (inputs : List ChoiceInstance) (c : Context) (v : ℕ) where
  -- There are such values, and they hold `v` just if `b`.
  abbrev pub HasValues : Option ValueSet → Bool → Type 0
  HasValues o b = (s : ValueSet) × (o ≡ some s) × (in_set d inputs c s v ≡ b)

module _ (t : Texts) (d : IrDesc) (inputs : List ChoiceInstance) (c : Context)
    (h : IsContext t d inputs c) (id v : ℕ) where
  module _ (name : ℕ) (e : Enum) (found : enum_of_input d inputs id ≡ some e)
      (named : get_enum d.enums name ≡ some e) (valid : has v e.values ≡ true) where
    cross : (inv : Bool) (x y : ℕ) → (turned (some e) inv y == x) ≡ (turned (some e) inv x == y)
    cross false x y = eq_comm y x
    cross true x y = swapped-equal t d inputs c h e x y (h.involutive id e found)

    -- The value of an input with the same enum.
    pub enum_input :
        (j : ℕ) (op : CmpOp) (inv : Bool)
        → IsEquality op
        → turned (enum_of_input d inputs j) inv (c.value j) ≡ turned (some e) inv (c.value j)
        → HasValues d inputs c v
            (from_input (enum_type name) j op inv)
            (holds_op op (turned (some e) inv v) (c.value j))
    unfolding from_input in_set takes holds_op
    enum_input j CmpOp.equal inv w same = (
      _,
      refl,
      or_false (turned (enum_of_input d inputs j) inv (c.value j) == v)
          ∙ ap (λ (x : ℕ). x == v) same
          ∙ cross inv v (c.value j),
    )
    enum_input j CmpOp.neq inv w same = (
      _,
      refl,
      or_false (not (turned (enum_of_input d inputs j) inv (c.value j) == v))
          ∙ ap (λ (x : ℕ). not (x == v)) same
          ∙ ap not (cross inv v (c.value j)),
    )
    enum_input j CmpOp.lt inv w same = absurd w
    enum_input j CmpOp.gt inv w same = absurd w
    enum_input j CmpOp.leq inv w same = absurd w
    enum_input j CmpOp.geq inv w same = absurd w

    pub inverse_op-IsEquality :
        (op : CmpOp) (inv : Bool) (x y : ℕ)
        → IsEquality op
        → IsEquality (inverse_op op)
          × (holds_op (inverse_op op) (turned (some e) inv x) y
              ≡ holds_op op (turned (some e) inv y) x)
    unfolding inverse_op holds_op
    inverse_op-IsEquality CmpOp.equal inv x y w = (tt, cross inv y x)
    inverse_op-IsEquality CmpOp.neq inv x y w = (tt, ap not (cross inv y x))
    inverse_op-IsEquality CmpOp.lt inv x y w = absurd w
    inverse_op-IsEquality CmpOp.gt inv x y w = absurd w
    inverse_op-IsEquality CmpOp.leq inv x y w = absurd w
    inverse_op-IsEquality CmpOp.geq inv x y w = absurd w

    normalized_values :
        (values : List ℕ) (n : Bool)
        → in_set d inputs c (normalized_enum_set values n false e) v ≡ xor n (has v values)
    unfolding in_set normalized_enum_set enum_values
    normalized_values values n =
        or_false (has v (extend [] (normalize_values values n false e)))
        ∙ any-extend (λ y. v == y) [] (normalize_values values n false e)
        ∙ has-normalize_values e v values n false (h.involutive id e found) valid

    own_inverses : has v (keep (λ x. inverse e x == x) e.values) ≡ (inverse e v == v)
    own_inverses =
        has-keep (λ x. inverse e x == x) v e.values ∙ ap (λ b. b && (inverse e v == v)) valid

    pub enum_properties :
        (op : CmpOp) (inv : Bool)
        → IsEquality op
        → HasValues d inputs c v
            (from_properties d.enums (enum_type name) (allows_eq op) inv)
            (holds_op op (turned (some e) inv v) v)
    unfolding from_properties allows_eq holds_op
    enum_properties CmpOp.equal false w = (
      normalized_enum_set [] true false e,
      rw (from_properties, named) refl,
      normalized_values [] true ∙ ground arith,
    )
    enum_properties CmpOp.neq false w = (
      normalized_enum_set [] false false e,
      rw (from_properties, named) refl,
      normalized_values [] false ∙ ground arith,
    )
    enum_properties CmpOp.equal true w = (
      normalized_enum_set (keep (λ x. inverse e x == x) e.values) false false e,
      rw (from_properties, named) refl,
      normalized_values (keep (λ x. inverse e x == x) e.values) false ∙ own_inverses,
    )
    enum_properties CmpOp.neq true w = (
      normalized_enum_set (keep (λ x. inverse e x == x) e.values) true false e,
      rw (from_properties, named) refl,
      normalized_values (keep (λ x. inverse e x == x) e.values) true ∙ ap not own_inverses,
    )
    enum_properties CmpOp.lt inv w = absurd w
    enum_properties CmpOp.gt inv w = absurd w
    enum_properties CmpOp.leq inv w = absurd w
    enum_properties CmpOp.geq inv w = absurd w

    -- Both sides have the enum of the input.
    pub same_enum :
        (lhs rhs : ℕ) (op : CmpOp) (inv : Bool)
        → IsTyped d inputs (cmp_input lhs rhs op inv)
        → ((id == lhs) ≡ true) ⊎ ((id == rhs) ≡ true)
        → ((x : ℕ) → turned (enum_of_input d inputs lhs) inv x ≡ turned (some e) inv x)
          × ((x : ℕ) → turned (enum_of_input d inputs rhs) inv x ≡ turned (some e) inv x)
    same_enum lhs rhs op false w side = (
      λ x. turned-false (enum_of_input d inputs lhs) x,
      λ x. turned-false (enum_of_input d inputs rhs) x,
    )
    same_enum lhs rhs op true (f, at_lhs, at_rhs, w) side =
        let same : some f ≡ some e = elim side [
          | inl l ↦ sym at_lhs ∙ ap (enum_of_input d inputs) (sym (==→≡ id lhs l)) ∙ found
          | inr r ↦ sym at_rhs ∙ ap (enum_of_input d inputs) (sym (==→≡ id rhs r)) ∙ found
        ] in
        (
          λ x. ap (λ (o : Option Enum). turned o true x) (at_lhs ∙ same),
          λ x. ap (λ (o : Option Enum). turned o true x) (at_rhs ∙ same),
        )
