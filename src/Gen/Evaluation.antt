-- ===== src/Gen/Evaluation.antt =====
-- telamon-gen/src/ir: what conditions, sets of values and rules mean once every input has a value. The code
-- that a condition holds, and the sets that an object is in, are known only in the generated program: a
-- `Context` gives them with the values of the inputs.
pub mod Sets
pub mod Conditions
pub mod Instances
pub mod RuleInstances
use package.telamon.Prelude.{
  ℕ, ◌+◌, ◌≤◌, ◌<◌, ◌≡◌, refl, sym, ap, ◌∙◌, subst, Bool, true, false, not, ◌&&◌, ◌||◌, Option,
  none, some, List, [], ◌∷◌, map, arith, ltb, leb, ◌==◌, if◌then◌else◌, Bool-cases, Option-cases,
}
use package.telamon.Prelude.Keys.{any, every, any-extend, nat_key, pair_key, bool_key, extend}
use package.telamon.Gen.Variables.{Code, SetConstraints, no_constraints}
use package.telamon.Gen.Enums.{Enum, has, inverse}
use package.telamon.Gen.Values.{
  CmpOp, ValueSet, enum, integer, Input, get_enum, is_empty, extend_set,
}
use package.telamon.Gen.Filter.{
  IrDesc, ChoiceInstance, Condition, code_cond, enum_cond, bool, cmp_code, cmp_input, enum_of_input,
  Rule,
}

pub record Context : Type 0 where
  pub value : ℕ → ℕ
  pub code_holds : Code → Bool
  pub code_value : Code → ℕ
  pub is_in : SetConstraints → Bool

abbrev pub xor : Bool → Bool → Bool
xor true b = not b
xor false b = b

-- A comparison of two values; the order is that of numbers.
unfoldable pub holds_op : CmpOp → ℕ → ℕ → Bool
holds_op CmpOp.lt x y = ltb x y
holds_op CmpOp.gt x y = ltb y x
holds_op CmpOp.leq x y = leb x y
holds_op CmpOp.geq x y = leb y x
holds_op CmpOp.equal x y = x == y
holds_op CmpOp.neq x y = not (x == y)

abbrev pub turned : Option Enum → Bool → ℕ → ℕ
turned none b x = x
turned (some e) true x = inverse e x
turned (some e) false x = x

module _ (d : IrDesc) (inputs : List ChoiceInstance) (c : Context) where
  -- Whether the value of an input of a set is `v`, or is not if it is negated.
  unfoldable pub takes : ℕ → Input → Bool
  unfolding enum_of_input
  takes v (i, (negate, is_inverse)) =
      xor negate (turned (enum_of_input d inputs i) is_inverse (c.value i) == v)

  unfoldable pub in_set : ValueSet → ℕ → Bool
  unfolding takes holds_op
  in_set (enum name values is) v = has v values || any (takes v) is
  in_set (integer full is codes u) v =
      full
      || (any (λ (p : CmpOp × ℕ). holds_op p.0 v (c.value p.1)) is
          || any (λ (p : CmpOp × Code). holds_op p.0 v (c.code_value p.1)) codes)

  unfoldable pub holds : Condition → Bool
  unfolding enum_of_input holds_op
  holds (bool b) = b
  holds (code_cond code negate) = xor negate (c.code_holds code)
  holds (enum_cond i values negate is_inverse) =
      xor negate (has (turned (enum_of_input d inputs i) is_inverse (c.value i)) values)
  holds (cmp_code lhs rhs op) = holds_op op (c.value lhs) (c.code_value rhs)
  holds (cmp_input lhs rhs op is_inverse) =
      holds_op op (turned (enum_of_input d inputs lhs) is_inverse (c.value lhs)) (c.value rhs)

  -- A rule lets a value pass unless it applies and the value is not one of its alternatives.
  abbrev pub applies : List Condition → SetConstraints → Bool
  unfolding holds
  applies conditions set_constraints = every holds conditions && c.is_in set_constraints

  unfoldable pub passes_rule : ℕ → Rule → Bool
  unfolding applies in_set
  passes_rule v r = not (applies r.conditions r.set_constraints) || in_set r.alternatives v

  -- Whether the value of an input may be in the guard of a case.
  unfoldable pub selects : ℕ → ValueSet → Bool
  selects i (enum name values is) = has (c.value i) values
  selects i (integer f is codes u) = false

  pub in_set-is_empty : (s : ValueSet) (v : ℕ) → is_empty s ≡ true → in_set s v ≡ false
  unfolding in_set is_empty
  in_set-is_empty (enum name [] []) v e = refl
  in_set-is_empty (enum name [] (i ∷ is)) v e = ground arith
  in_set-is_empty (enum name (x ∷ values) is) v e = ground arith
  in_set-is_empty (integer f [] [] u) v e = ground arith
  in_set-is_empty (integer f [] (k ∷ codes) u) v e = ground arith
  in_set-is_empty (integer f (i ∷ is) codes u) v e = ground arith

  pub selects-extend_set :
      (i : ℕ) (s t u : ValueSet)
      → extend_set s t ≡ some u
      → selects i u ≡ (selects i s || selects i t)
  unfolding selects extend_set
  selects-extend_set i (enum n xs is) (enum m ys js) u e =
      ground (arith, any-extend (λ x. c.value i == x) xs ys, e)
  selects-extend_set i (enum n xs is) (integer f js codes w) u e = ground arith
  selects-extend_set i (integer f is codes w) (enum n ys js) u e = ground arith
  selects-extend_set i (integer f is codes w) (integer g js more x) u e = ground arith
