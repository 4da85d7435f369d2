-- ===== src/Gen/Alternatives.antt =====
-- telamon-gen/src/ir/filter.rs: `Condition::alternatives_of`, the values that an input may take for a condition
-- to hold. The outer `none` is a panic, the inner one the answer that the condition is not on the input.
pub mod Restricted
pub mod EnumValues
pub mod Compared
use package.telamon.Prelude.{
  ℕ, Bool, true, false, ◌&&◌, Option, none, some, List, [], ◌∷◌, if◌then◌else◌, ◌==◌,
}
use package.telamon.Gen.Values.{
  CmpOp, inverse_op, allows_eq, ValueType, enum_type, range, numeric_set, constant, full_type,
  ValueSet, enum, integer, get_enum, normalized_enum_set, from_input, from_properties,
}
use package.telamon.Gen.Filter.{
  ◌>>=◌, IrDesc, Condition, code_cond, enum_cond, bool, cmp_code, cmp_input,
}

-- `ValueType::as_enum`
unfoldable pub type_as_enum : ValueType → Option ℕ
type_as_enum (enum_type name) = some name
type_as_enum (range is_half) = none
type_as_enum (numeric_set universe) = none
type_as_enum constant = none

unfoldable pub alternatives_of : ℕ → ValueType → IrDesc → Condition → Option (Option ValueSet)
unfolding type_as_enum get_enum normalized_enum_set full_type from_input from_properties allows_eq
    inverse_op
alternatives_of id t d (enum_cond i values n v) =
    let found = type_as_enum t >>= λ name.
    get_enum d.enums name >>= λ e. some (some (normalized_enum_set values n v e)) in
    if id == i then found else some none
alternatives_of id t d (cmp_code lhs rhs op) =
    if lhs == id then some (some (integer false [] ((op, rhs) ∷ []) (full_type t))) else some none
alternatives_of id t d (cmp_input lhs rhs op v) =
    if id == lhs && id == rhs
    then (from_properties d.enums t (allows_eq op) v >>= λ s. some (some s))
    else if id == lhs
    then (from_input t rhs op v >>= λ s. some (some s))
    else if id == rhs
    then (from_input t lhs (inverse_op op) v >>= λ s. some (some s))
    else some none
alternatives_of id t d (code_cond code n) = some none
alternatives_of id t d (bool b) = some none
