-- ===== src/Gen/Normalize.antt =====
-- telamon-gen/src/ir/filter.rs: bringing pieces of code, conditions and rules to a normal form, by which
-- they are compared. The texts of the standard library are parameters: `replace` is `str::replace`,
-- `pattern` puts a `$` before a name, and `to_string` prints a variable.
use package.telamon.Prelude.{
  ℕ, false, Option, some, List, [], ◌∷◌, compare, Ordering, if◌then◌else◌, ltb,
}
use Prim.Native.Nat.Ordering.{eq, gt}
use package.telamon.Prelude.Keys.{and_then, nat_key, nat_key, bool_cmp, pair_cmp, list_cmp, extend}
use package.telamon.Gen.Variables.{Variable, variable_cmp, variable_key, Code, code_cmp}
use package.telamon.Gen.Values.{op_cmp, inverse_op, normalize_values}
use package.telamon.Gen.Filter.{
  ◌>>=◌, Condition, code_cond, enum_cond, bool, cmp_code, cmp_input, IrDesc, ChoiceInstance,
  enum_of_input, Rule,
}

pub record Texts : Type 0 where
  pub replace : ℕ → ℕ → ℕ → ℕ
  pub pattern : ℕ → ℕ
  pub to_string : Variable → ℕ

abbrev insert_var : Variable × ℕ → List (Variable × ℕ) → List (Variable × ℕ)
insert_var v [] = v ∷ []
insert_var v (w ∷ ws) = elim (variable_cmp v.0 w.0) [ gt ↦ w ∷ insert_var v ws | _ ↦ v ∷ w ∷ ws ]

abbrev sort_vars : List (Variable × ℕ) → List (Variable × ℕ)
sort_vars [] = []
sort_vars (v ∷ vs) = insert_var v (sort_vars vs)

-- `Vec::dedup`
abbrev dedup_vars : List (Variable × ℕ) → List (Variable × ℕ)
dedup_vars [] = []
dedup_vars (v ∷ []) = v ∷ []
dedup_vars (v ∷ w ∷ ws) =
    let rest = dedup_vars (w ∷ ws) in elim (pair_cmp v w) [ eq ↦ rest | _ ↦ v ∷ rest ]

module _ (t : Texts) where
  -- The closure of `Code::normalize`, which changes the code with every variable.
  unfoldable pub rename_vars : ℕ → List (Variable × ℕ) → ℕ × List (Variable × ℕ)
  rename_vars code [] = (code, [])
  rename_vars code ((var, old_name) ∷ vars) =
      let new_name = t.to_string var in
      let (code', rest) =
        rename_vars (t.replace code (t.pattern old_name) (t.pattern new_name)) vars in
      (code', (var, new_name) ∷ rest)

  unfoldable pub normalize_code : Code → Code
  unfolding rename_vars
  normalize_code c =
      let (code, vars) = rename_vars c.code c.vars in
      record { code = code; vars = dedup_vars (sort_vars vars) }

  -- `Condition::normalize`
  unfoldable pub normalize : IrDesc → List ChoiceInstance → Condition → Option Condition
  unfolding normalize_code inverse_op enum_of_input normalize_values extend
  normalize d inputs (bool b) = some (bool b)
  normalize d inputs (cmp_input lhs rhs op v) =
      some (if ltb rhs lhs then cmp_input rhs lhs (inverse_op op) v else cmp_input lhs rhs op v)
  normalize d inputs (cmp_code lhs rhs op) = some (cmp_code lhs (normalize_code rhs) op)
  normalize d inputs (code_cond code n) = some (code_cond (normalize_code code) n)
  normalize d inputs (enum_cond i values n v) = enum_of_input d inputs i >>= λ e.
      some (enum_cond i (extend [] (normalize_values values n v e)) false false)

  unfoldable pub normalize_all :
      IrDesc → List ChoiceInstance → List Condition → Option (List Condition)
  unfolding normalize
  normalize_all d inputs [] = some []
  normalize_all d inputs (c ∷ cs) =
      normalize d inputs c >>= λ c'. normalize_all d inputs cs >>= λ cs'. some (c' ∷ cs')

-- The derived order: the case first, then the fields.
abbrev condition_number : Condition → ℕ
condition_number (code_cond code n) = 0
condition_number (enum_cond i values n v) = 1
condition_number (bool b) = 2
condition_number (cmp_code lhs rhs op) = 3
condition_number (cmp_input lhs rhs op v) = 4

abbrev pub condition_cmp : Condition → Condition → Ordering
condition_cmp (code_cond a n) (code_cond b m) = and_then (code_cmp a b) (bool_cmp n m)
condition_cmp (enum_cond i values n v) (enum_cond j others m w) =
    and_then (compare i j)
      (and_then (list_cmp values others) (and_then (bool_cmp n m) (bool_cmp v w)))
condition_cmp (bool b) (bool c) = bool_cmp b c
condition_cmp (cmp_code i a op) (cmp_code j b op') =
    and_then (compare i j) (and_then (code_cmp a b) (op_cmp op op'))
condition_cmp (cmp_input i a op v) (cmp_input j b op' w) =
    and_then (compare i j) (and_then (compare a b) (and_then (op_cmp op op') (bool_cmp v w)))
condition_cmp c d = compare (condition_number c) (condition_number d)

unfoldable pub insert_condition : Condition → List Condition → List Condition
insert_condition c [] = c ∷ []
insert_condition c (d ∷ ds) = elim (condition_cmp c d) [
  | gt ↦ d ∷ insert_condition c ds
  | _ ↦ c ∷ d ∷ ds
]

-- `sort` of the conditions.
unfoldable pub sort_conditions : List Condition → List Condition
unfolding insert_condition
sort_conditions [] = []
sort_conditions (c ∷ cs) = insert_condition c (sort_conditions cs)

-- `Rule::normalize`
unfoldable pub normalize_rule : Texts → IrDesc → List ChoiceInstance → Rule → Option Rule
unfolding normalize_all sort_conditions
normalize_rule t d inputs r = normalize_all t d inputs r.conditions >>= λ conditions.
    some (record r { conditions = sort_conditions conditions })
