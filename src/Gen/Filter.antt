-- ===== src/Gen/Filter.antt =====
-- telamon-gen/src/ir/filter.rs: the conditions, rules and filters of the generator, over the choices of
-- choice.rs. `none` is a panic: a choice or an input that is not there, or of another type than expected.
use package.telamon.Prelude.{
  ℕ, Bool, true, false, not, Option, none, some, List, [], ◌∷◌, map, if◌then◌else◌, ◌==◌, get_elem?,
}
use Prim.Native.Nat.Ordering.{gt}
use package.telamon.Prelude.Keys.{nat_key, bool_key, pair_key}
use package.telamon.Utils.Trivalent.{
  Trivalent, never, maybe, always, and, or, negated, is_true, as_bool,
}
use package.telamon.Gen.Variables.{
  Variable, variable_cmp, Code, code_key, SetConstraints, Adaptator, find, variable,
}
use package.telamon.Gen.Enums.{Enum}
use package.telamon.Gen.Values.{
  CmpOp, op_cmp, negate_op, inverse_op, allows_eq, ValueType, enum_type, range, numeric_set,
  constant, full_type, Input, ValueSet, enum, integer, get_enum, normalize_values,
  normalized_enum_set, empty, is_empty, inverse_set, is,
}
use package.telamon.Gen.Values

infixl 1 ◌>>=◌
abbrev pub ◌>>=◌ : {A B : Type 0} → Option A → (A → Option B) → Option B
none >>= f = none
some a >>= f = f a

pub data CounterVisibility : Type 0 where
  no_max hidden_max full : CounterVisibility

-- `ChoiceDef`, with what the filters read of a counter.
pub data ChoiceDef : Type 0 where
  enum_def : ℕ → ChoiceDef
  counter : CounterVisibility → ChoiceDef
  number : Code → ChoiceDef

-- `ChoiceArguments`, with how many arguments there are, or whether swapping the two of them inverses the
-- choice. The names and sets of the arguments are left out.
pub data ChoiceArguments : Type 0 where
  plain : ℕ → ChoiceArguments
  symmetric : Bool → ChoiceArguments

pub record Choice : Type 0 where
  pub name : ℕ
  pub arguments : ChoiceArguments
  pub choice_def : ChoiceDef
  pub fragile_values : ValueSet

pub record IrDesc : Type 0 where
  pub choices : List Choice
  pub enums : List Enum

abbrev find_choice : ℕ → List Choice → Option Choice
find_choice name [] = none
find_choice name (c ∷ cs) =
    let rest = find_choice name cs in if c.name == name then some c else rest

unfoldable pub get_choice : IrDesc → ℕ → Option Choice
get_choice d name = find_choice name d.choices

-- `ChoiceDef::value_type`
unfoldable pub value_type_of : ChoiceDef → ValueType
value_type_of (enum_def name) = enum_type name
value_type_of (counter no_max) = range true
value_type_of (counter hidden_max) = range false
value_type_of (counter full) = range false
value_type_of (number universe) = numeric_set universe

unfoldable pub as_enum : ChoiceDef → Option ℕ
as_enum (enum_def name) = some name
as_enum (counter v) = none
as_enum (number u) = none

pub record ChoiceInstance : Type 0 where
  pub choice : ℕ
  pub vars : List Variable

abbrev swapped_if : ChoiceInstance → Bool → Option (Bool × ChoiceInstance)
swapped_if c is_inverse = elim c.vars [
  | [] ↦ none
  | v ∷ vs ↦ elim vs [
    | [] ↦ none
    | w ∷ ws ↦ elim ws [
      | x ∷ xs ↦ none
      | [] ↦ elim (variable_cmp v w) [
        | gt ↦ some (is_inverse, record c { vars = w ∷ v ∷ [] })
        | _ ↦ some (false, c)
      ]
    ]
  ]
]

-- `ChoiceInstance::normalize`: whether the input is inversed, with the instance.
unfoldable pub normalize_instance : IrDesc → ChoiceInstance → Option (Bool × ChoiceInstance)
unfolding get_choice
normalize_instance d c = elim (get_choice d c.choice) [
  | none ↦ none
  | some choice ↦ elim choice.arguments [
    | plain n ↦ some (false, c)
    | symmetric is_inverse ↦ swapped_if c is_inverse
  ]
]

unfoldable pub adapt_instance : Adaptator → ChoiceInstance → ChoiceInstance
unfolding variable
adapt_instance a c = record c { vars = map (variable a) c.vars }

-- The enum of an input.
unfoldable pub enum_of_input : IrDesc → List ChoiceInstance → ℕ → Option Enum
unfolding get_choice get_enum as_enum
enum_of_input d inputs i = do
  instance_ ← get_elem? inputs i
  choice ← get_choice d instance_.choice
  name ← as_enum choice.choice_def
  get_enum d.enums name

pub data Condition : Type 0 where
  code_cond : Code → Bool → Condition
  enum_cond : ℕ → List ℕ → Bool → Bool → Condition
  bool : Bool → Condition
  cmp_code : ℕ → Code → CmpOp → Condition
  cmp_input : ℕ → ℕ → CmpOp → Bool → Condition

-- `Condition::negate`
unfoldable pub negate : Condition → Condition
unfolding negate_op
negate (code_cond code n) = code_cond code (not n)
negate (enum_cond i values n v) = enum_cond i values (not n) v
negate (bool n) = bool (not n)
negate (cmp_code lhs rhs op) = cmp_code lhs rhs (negate_op op)
negate (cmp_input lhs rhs op v) = cmp_input lhs rhs (negate_op op) v

-- `CmpOp::evaluate`
unfoldable pub evaluate_op : CmpOp → ValueSet → ValueSet → Option Trivalent
unfolding is Values.is_constrained is_true and or negated
evaluate_op CmpOp.lt lhs rhs = some maybe
evaluate_op CmpOp.gt lhs rhs = some maybe
evaluate_op CmpOp.leq lhs rhs = some maybe
evaluate_op CmpOp.geq lhs rhs = some maybe
evaluate_op CmpOp.equal lhs rhs = do
  forth ← is lhs rhs
  back ← is rhs lhs
  some (if is_true (Values.is_constrained lhs) then and forth back else and (and forth back) maybe)
evaluate_op CmpOp.neq lhs rhs = do
  forth ← is lhs rhs
  back ← is rhs lhs
  some (or (negated forth) (negated back))

-- The values of the inputs, as far as they are known.
abbrev pub Mapping : Type 0
Mapping = List (ℕ × ValueSet)

abbrev pub inversed_if : List Enum → Bool → ValueSet → Option ValueSet
inversed_if enums true s = inverse_set enums s
inversed_if enums false s = some s

-- `Condition::evaluate`
unfoldable pub evaluate : IrDesc → List ChoiceInstance → Mapping → Condition → Option Trivalent
unfolding enum_of_input normalized_enum_set find is evaluate_op inverse_set
evaluate d inputs m (bool true) = some always
evaluate d inputs m (bool false) = some never
evaluate d inputs m (code_cond code n) = some maybe
evaluate d inputs m (cmp_code lhs rhs op) = some maybe
evaluate d inputs m (enum_cond i values n v) = do
  e ← enum_of_input d inputs i
  elim (find i m) [ none ↦ some maybe | some s ↦ is s (normalized_enum_set values n v e) ]
evaluate d inputs m (cmp_input lhs rhs op v) = elim (find lhs m) [
  | none ↦ some maybe
  | some l ↦ elim (find rhs m) [
    | none ↦ some maybe
    | some r ↦ inversed_if d.enums v l >>= λ l'. evaluate_op op l' r
  ]
]

-- `Condition::instantiate`
unfoldable pub instantiate_condition :
    IrDesc → List ChoiceInstance → Mapping → Condition → Option Condition
unfolding evaluate as_bool
instantiate_condition d inputs m c = do
  t ← evaluate d inputs m c
  some (elim (as_bool t) [ none ↦ c | some b ↦ bool b ])

pub record Rule : Type 0 where
  pub conditions : List Condition
  pub alternatives : ValueSet
  pub set_constraints : SetConstraints

-- The loop of `Rule::instantiate`: the inner `none` is the early return.
unfoldable pub instantiate_conditions :
    IrDesc → List ChoiceInstance → Mapping → List Condition → Option (Option (List Condition))
unfolding instantiate_condition
instantiate_conditions d inputs m [] = some (some [])
instantiate_conditions d inputs m (c ∷ cs) =
    let later = instantiate_conditions d inputs m cs in
    instantiate_condition d inputs m c >>= λ c'. elim c' [
      | bool true ↦ later
      | bool false ↦ some none
      | other ↦ later >>= λ rest. some (elim rest [ none ↦ none | some cs' ↦ some (other ∷ cs') ])
    ]

-- `Rule::instantiate`
unfoldable pub instantiate : IrDesc → List ChoiceInstance → Mapping → Rule → Option (Option Rule)
unfolding instantiate_conditions Values.instantiate_set
instantiate d inputs m r = instantiate_conditions d inputs m r.conditions >>= λ found. elim found [
  | none ↦ some none
  | some conditions ↦ Values.instantiate_set d.enums m r.alternatives >>= λ alternatives. some (
      some (record {
        conditions = conditions;
        alternatives = alternatives;
        set_constraints = r.set_constraints;
      }))
]

-- `SubFilter`, with the list of its cases.
mutual
  pub data SubFilter : Type 0 where
    rules : List Rule → SubFilter
    switch : ℕ → Cases → SubFilter

  pub data Cases : Type 0 where
    nil : Cases
    case : ValueSet → SubFilter → Cases → Cases
