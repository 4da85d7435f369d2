-- ===== src/Gen/Values.antt =====
-- telamon-gen/src/ir/filter.rs: comparison operators and `ValueSet`, a set of the values of a choice, given
-- by values and by the inputs whose values it takes. A `BTreeSet` is a sorted list. `enums` are the enums
-- of the description of the choices; `none` is a panic.
use package.telamon.Prelude.{
  ℕ, ◌≡◌, Bool, true, false, not, ◌&&◌, ◌||◌, Option, none, some, List, [], ◌∷◌, map, arith,
  compare, Ordering, if◌then◌else◌, ◌==◌, length,
}
use Prim.Native.Nat.Ordering.{eq}
use package.telamon.Prelude.Keys.{Key, nat_key, bool_key, pair_key, any, every, add, extend}
use package.telamon.Utils.Trivalent.{Trivalent, never, maybe, always}
use package.telamon.Gen.Variables.{Code, code_key, Adaptator, input, adapt_code, find}
use package.telamon.Gen.Enums.{Enum, has, inverse}

pub data CmpOp : Type 0 where
  lt gt leq geq equal neq : CmpOp

abbrev pub op_number : CmpOp → ℕ
op_number lt = 0
op_number gt = 1
op_number leq = 2
op_number geq = 3
op_number equal = 4
op_number neq = 5

abbrev pub op_cmp : CmpOp → CmpOp → Ordering
op_cmp a b = compare (op_number a) (op_number b)

pub op_cmp-same : (a b : CmpOp) → op_cmp a b ≡ eq → a ≡ b
op_cmp-same lt b e = ground arith
op_cmp-same gt b e = ground arith
op_cmp-same leq b e = ground arith
op_cmp-same geq b e = ground arith
op_cmp-same equal b e = ground arith
op_cmp-same neq b e = ground arith

instance abbrev pub op_key : Key CmpOp
op_key = record { cmp = op_cmp; same = op_cmp-same }

-- `CmpOp::negate`
unfoldable pub negate_op : CmpOp → CmpOp
negate_op lt = geq
negate_op gt = leq
negate_op leq = gt
negate_op geq = lt
negate_op equal = neq
negate_op neq = equal

-- `CmpOp::inverse`
unfoldable pub inverse_op : CmpOp → CmpOp
inverse_op lt = gt
inverse_op gt = lt
inverse_op leq = geq
inverse_op geq = leq
inverse_op equal = equal
inverse_op neq = neq

unfoldable pub allows_eq : CmpOp → Bool
allows_eq lt = false
allows_eq gt = false
allows_eq neq = false
allows_eq leq = true
allows_eq geq = true
allows_eq equal = true

pub data ValueType : Type 0 where
  enum_type : ℕ → ValueType
  range : Bool → ValueType
  numeric_set : Code → ValueType
  constant : ValueType

unfoldable pub full_type : ValueType → ValueType
full_type (enum_type name) = enum_type name
full_type (range is_half) = range false
full_type (numeric_set universe) = numeric_set universe
full_type constant = constant

-- An input of a set of values: its number, whether its value is negated, and whether it is inversed.
abbrev pub Input : Type 0
Input = ℕ × (Bool × Bool)

pub data ValueSet : Type 0 where
  enum : ℕ → List ℕ → List Input → ValueSet
  integer : Bool → List (CmpOp × ℕ) → List (CmpOp × Code) → ValueType → ValueSet

-- `IrDesc::get_enum`
unfoldable pub get_enum : List Enum → ℕ → Option Enum
get_enum [] name = none
get_enum (e ∷ enums) name =
    let rest = get_enum enums name in if e.name == name then some e else rest

abbrev pub keep : (ℕ → Bool) → List ℕ → List ℕ
keep p [] = []
keep p (x ∷ xs) = let rest = keep p xs in if p x then x ∷ rest else rest

-- `normalize_values`. A hash set is kept sorted.
unfoldable pub normalize_values : List ℕ → Bool → Bool → Enum → List ℕ
unfolding extend inverse
normalize_values values negate is_inverse choice =
    let values = extend [] (map (λ x. if is_inverse then inverse choice x else x) values) in
    if negate then keep (λ x. not (has x values)) choice.values else values

unfoldable pub enum_values : ℕ → List ℕ → ValueSet
enum_values name values = enum name values []

unfoldable pub normalized_enum_set : List ℕ → Bool → Bool → Enum → ValueSet
unfolding normalize_values enum_values extend
normalized_enum_set values negate is_inverse choice =
    enum_values choice.name (extend [] (normalize_values values negate is_inverse choice))

-- `ValueSet::empty`
unfoldable pub empty : ValueType → Option ValueSet
unfolding full_type
empty (enum_type name) = some (enum name [] [])
empty (range h) = some (integer false [] [] (full_type (range h)))
empty (numeric_set u) = some (integer false [] [] (full_type (numeric_set u)))
empty constant = none

unfoldable pub is_empty : ValueSet → Bool
is_empty (enum name [] []) = true
is_empty (enum name [] (i ∷ inputs)) = false
is_empty (enum name (v ∷ values) inputs) = false
is_empty (integer is_full [] [] universe) = not is_full
is_empty (integer is_full [] (c ∷ codes) universe) = false
is_empty (integer is_full (i ∷ inputs) codes universe) = false

-- `ValueSet::extend`
unfoldable pub extend_set : ValueSet → ValueSet → Option ValueSet
unfolding extend
extend_set (enum name values inputs) (enum other more_values more_inputs) =
    some (enum name (extend values more_values) (extend inputs more_inputs))
extend_set (enum name values inputs) (integer f i c u) = none
extend_set (integer f i c u) (enum name values inputs) = none
extend_set (integer f i c u) (integer g j d v) =
    if f || g then some (integer true i c u) else some (integer false (extend i j) (extend c d) u)

module _ {A : Type 0} ⦃k : Key A⦄ where
  abbrev pub is_member : A → List A → Bool
  is_member a xs = any (λ x. elim (k.cmp a x) [ eq ↦ true | _ ↦ false ]) xs

  abbrev pub is_subset : List A → List A → Bool
  is_subset xs ys = every (λ x. is_member x ys) xs

  abbrev pub is_disjoint : List A → List A → Bool
  is_disjoint xs ys = every (λ x. not (is_member x ys)) xs

  abbrev pub common : List A → List A → List A
  common [] ys = []
  common (x ∷ xs) ys = let rest = common xs ys in if is_member x ys then x ∷ rest else rest

-- `ValueSet::intersect`: whether the sets were intersected, with the new value of the first one.
unfoldable pub intersect : ValueSet → ValueSet → Option (Bool × ValueSet)
intersect (enum name values []) (enum other others []) =
    some (true, enum name (common values others) [])
intersect (enum name values []) (enum other others (j ∷ js)) = some (false, enum name values [])
intersect (enum name values (i ∷ is)) (enum other others js) =
    some (false, enum name values (i ∷ is))
intersect (enum name values is) (integer true j d v) = some (true, enum name values is)
intersect (enum name values is) (integer false j d v) = none
intersect (integer true i c u) other = some (true, other)
intersect (integer false i c u) (enum name values js) = none
intersect (integer false i c u) (integer true j d v) = some (true, integer false i c u)
intersect (integer false i c u) (integer false j d v) =
    if is_subset j i && is_subset d c
    then some (true, integer false j d u)
    else some (is_subset i j && is_subset c d, integer false i c u)

-- `ValueSet::inverse`
unfoldable pub inverse_set : List Enum → ValueSet → Option ValueSet
unfolding get_enum inverse extend
inverse_set enums (integer f i c u) = none
inverse_set enums (enum name values inputs) = elim (get_enum enums name) [
  | none ↦ none
  | some e ↦ some (
      enum name (extend [] (map (inverse e) values))
        (extend [] (map (λ (i : Input). (i.0, (i.1.0, not i.1.1))) inputs)))
]

-- `ValueSet::is`
unfoldable pub is : ValueSet → ValueSet → Option Trivalent
is (enum name values []) (enum other others []) =
    if is_subset values others
    then some always
    else if is_disjoint values others
    then some never
    else some maybe
is (enum name values []) (enum other others (j ∷ js)) = none
is (enum name values (i ∷ inputs)) (enum other others js) = none
is (enum name values inputs) (integer f j d u) = none
is (integer f i c u) other = none

-- `ValueSet::is_constrained`
unfoldable pub is_constrained : ValueSet → Trivalent
is_constrained (enum name values []) = if length values == 1 then always else never
is_constrained (enum name [] (i ∷ inputs)) = if length inputs == 0 then always else never
is_constrained (enum name (v ∷ values) (i ∷ inputs)) = maybe
is_constrained (integer f i c u) = maybe

-- `ValueSet::is_full`
unfoldable pub is_full : List Enum → ValueSet → Option Bool
unfolding get_enum
is_full enums (integer f i c u) = some f
is_full enums (enum name values inputs) = elim (get_enum enums name) [
  | none ↦ none
  | some e ↦ some (length e.values == length values)
]

-- `ValueSet::from_input`
unfoldable pub from_input : ValueType → ℕ → CmpOp → Bool → Option ValueSet
from_input (enum_type name) i op is_inverse =
    some (enum name [] ((i, (elim op [ neq ↦ true | _ ↦ false ], is_inverse)) ∷ []))
from_input (range true) i op is_inverse = none
from_input (range false) i op is_inverse =
    if is_inverse then none else some (integer false ((op, i) ∷ []) [] (range false))
from_input (numeric_set u) i op is_inverse =
    if is_inverse then none else some (integer false ((op, i) ∷ []) [] (numeric_set u))
from_input constant i op is_inverse = none

-- `ValueSet::from_properties`
unfoldable pub from_properties : List Enum → ValueType → Bool → Bool → Option ValueSet
unfolding get_enum normalized_enum_set inverse empty full_type
from_properties enums (enum_type name) is_eq is_inv = elim (get_enum enums name) [
  | none ↦ none
  | some e ↦ some (
      if is_inv
      then normalized_enum_set (keep (λ v. inverse e v == v) e.values) (not is_eq) false e
      else normalized_enum_set [] is_eq false e)
]
from_properties enums (range h) is_eq is_inv =
    if is_inv
    then none
    else if is_eq
    then some (integer true [] [] (range false))
    else empty (range h)
from_properties enums (numeric_set u) is_eq is_inv =
    if is_inv
    then none
    else if is_eq
    then some (integer true [] [] (numeric_set u))
    else empty (numeric_set u)
from_properties enums constant is_eq is_inv = none

-- `ValueSet::t`
unfoldable pub type_of : ValueSet → ValueType
type_of (enum name values inputs) = enum_type name
type_of (integer f i c u) = u

-- What one known input of `instantiate` adds to the values and to the inputs.
unfoldable pub instantiate_input :
    Enum → Bool → List ℕ → List Input → Option ValueSet → Option (List ℕ × List Input)
unfolding extend add
instantiate_input e negate values inputs none = none
instantiate_input e negate values inputs (some (integer f i c u)) = none
instantiate_input e negate values inputs (some (enum name known more)) = some (
  extend values (if negate then keep (λ v. not (has v known)) e.values else known),
  extend inputs
      (map (λ (i : Input). (i.0, (elim negate [ true ↦ not i.1.0 | false ↦ i.1.0 ], i.1.1))) more),
)

-- One round of the loop of `instantiate`, with what is known of the input.
unfoldable pub instantiate_found :
    List Enum
    → Enum
    → List ℕ
    → List Input
    → ℕ
    → Bool
    → Bool
    → Option ValueSet
    → Option (List ℕ × List Input)
unfolding instantiate_input inverse_set add
instantiate_found enums e values new_inputs i negate is_inverse none =
    some (values, add (i, (negate, is_inverse)) new_inputs)
instantiate_found enums e values new_inputs i negate is_inverse (some s) =
    instantiate_input e negate values new_inputs
      (if is_inverse then inverse_set enums s else some s)

-- The loop of `instantiate` over the inputs of an enum.
unfoldable pub instantiate_inputs :
    List Enum
    → Enum
    → List (ℕ × ValueSet)
    → List ℕ
    → List Input
    → List Input
    → Option (List ℕ × List Input)
unfolding instantiate_found find
instantiate_inputs enums e m values new_inputs [] = some (values, new_inputs)
instantiate_inputs enums e m values new_inputs ((i, (negate, is_inverse)) ∷ inputs) =
    elim (instantiate_found enums e values new_inputs i negate is_inverse (find i m)) [
      | none ↦ none
      | some (values', inputs') ↦ instantiate_inputs enums e m values' inputs' inputs
    ]

-- `ValueSet::instantiate`
unfoldable pub instantiate_set : List Enum → List (ℕ × ValueSet) → ValueSet → Option ValueSet
unfolding get_enum instantiate_inputs
instantiate_set enums m (integer f i c u) = some (integer f i c u)
instantiate_set enums m (enum name values inputs) = elim (get_enum enums name) [
  | none ↦ none
  | some e ↦ elim (instantiate_inputs enums e m values [] inputs) [
    | none ↦ none
    | some (values', inputs') ↦ some (enum name values' inputs')
  ]
]

-- `impl Adaptable for ValueSet`
abbrev adapt_input : Adaptator → Input → Input
unfolding input
adapt_input a (i, (negate, is_inverse)) =
    let (j, inversed) = input a i in
    (j, (negate, elim inversed [ true ↦ not is_inverse | false ↦ is_inverse ]))

abbrev adapt_cmp_inputs : Adaptator → List (CmpOp × ℕ) → Option (List (CmpOp × ℕ))
unfolding input add
adapt_cmp_inputs a [] = some []
adapt_cmp_inputs a ((op, i) ∷ is) = elim (adapt_cmp_inputs a is) [
  | none ↦ none
  | some rest ↦ let (j, inversed) = input a i in if inversed then none else some (add (op, j) rest)
]

unfoldable pub adapt_set_of_values : Adaptator → ValueSet → Option ValueSet
unfolding adapt_input adapt_cmp_inputs adapt_code extend
adapt_set_of_values a (enum name values inputs) =
    some (enum name values (extend [] (map (adapt_input a) inputs)))
adapt_set_of_values a (integer f i c u) = elim (adapt_cmp_inputs a i) [
  | none ↦ none
  | some i' ↦ some (
      integer f i' (extend [] (map (λ (p : CmpOp × Code). (p.0, adapt_code a p.1)) c))
        (elim u [ numeric_set universe ↦ numeric_set (adapt_code a universe) | other ↦ other ]))
]
