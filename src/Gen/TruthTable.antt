-- ===== src/Gen/TruthTable.antt =====
-- telamon-gen/src/truth_table.rs: the table with the rules for each combination of the values of the
-- inputs, and its implementation as a filter. A hash map is the list of its entries. The cells of a view
-- are read through the array that it points to. The source empties a cell when it takes the rules out of
-- it; a cell is taken once, as the last step, so the array is kept as it is.
pub mod Equality
pub mod Building
pub mod CellRules
pub mod CellAt
pub mod Dimensions
pub mod Indexes
pub mod Filling
use package.telamon.Prelude.{
  ℕ, zero, suc, ◌+◌, Bool, true, false, not, ◌&&◌, ◌||◌, Option, none, some, List, [], ◌∷◌, ◌++◌,
  map, if◌then◌else◌, ◌==◌, ltb, length, get_elem?, ◌≡◌,
}
use native.Mathlib.Decide.{ℕ_discrete}
use mathlib.Core.Bool.{Bool-discrete}
use package.telamon.Prelude.Keys.{any, every}
use package.telamon.Gen.Variables.{Variable, Code, Set, SetConstraints, no_constraints}
use package.telamon.Gen.Values.{
  CmpOp, ValueType, ValueSet, is_empty, extend_set, intersect, enum_values,
}
use package.telamon.Gen.Enums.{Enum}
use package.telamon.Gen.Filter.{
  ◌>>=◌, Condition, IrDesc, Choice, ChoiceInstance, ChoiceDef, enum_def, counter, number,
  get_choice, Mapping, Rule, instantiate, SubFilter, rules, switch, Cases, nil, case,
}
use package.telamon.Gen.Values.{get_enum}
use package.telamon.Gen.Normalize.{Texts, normalize_rule}
use package.telamon.Utils.NdArray.{
  NdArray, new, NdRange, product, range_new, range_next, ViewMut, view_mut, split, view_index,
  iter_next, remove,
}

abbrev pub RuleConds : Type 0
RuleConds = List Condition × SetConstraints

abbrev pub RuleConds-discrete : Discrete RuleConds
RuleConds-discrete = hlevel ℕ_discrete

abbrev pub sets-discrete : Discrete (List ValueSet)
sets-discrete = hlevel ℕ_discrete

-- `Cell`
pub record Cell : Type 0 where
  pub entries : List (RuleConds × List ValueSet)

-- `HashMap::get`
unfoldable pub get : RuleConds → List (RuleConds × List ValueSet) → Option (List ValueSet)
get key [] = none
get key ((k, sets) ∷ entries) =
    let rest = get key entries in
    elim (RuleConds-discrete key k) [ yes h ↦ some sets | no h ↦ rest ]

-- The loop over the sets of an entry: the first one that can be intersected is.
unfoldable pub narrow : List ValueSet → ValueSet → Option (Bool × List ValueSet)
unfolding intersect
narrow [] alternatives = some (false, [])
narrow (set ∷ sets) alternatives =
    let later = narrow sets alternatives in
    intersect set alternatives >>= λ (p : Bool × ValueSet).
    if p.0
    then some (true, p.1 ∷ sets)
    else (later >>= λ (q : Bool × List ValueSet). some (q.0, p.1 ∷ q.1))

-- The `Occupied` case.
unfoldable pub add_alternatives : List ValueSet → ValueSet → Option (List ValueSet)
unfolding narrow
add_alternatives sets alternatives = narrow sets alternatives >>= λ (p : Bool × List ValueSet).
    some (if p.0 then p.1 else p.1 ++ alternatives ∷ [])

unfoldable pub put_rule :
    RuleConds
    → ValueSet
    → List (RuleConds × List ValueSet)
    → Option (List (RuleConds × List ValueSet))
unfolding add_alternatives
put_rule key alternatives [] = some ((key, alternatives ∷ []) ∷ [])
put_rule key alternatives ((k, sets) ∷ entries) =
    let here = add_alternatives sets alternatives >>= λ sets'. some ((k, sets') ∷ entries) in
    let later = put_rule key alternatives entries >>= λ entries'. some ((k, sets) ∷ entries') in
    elim (RuleConds-discrete key k) [ yes h ↦ here | no h ↦ later ]

-- The loop of `Cell::build`.
unfoldable pub build_from :
    Texts
    → IrDesc
    → List ChoiceInstance
    → List (RuleConds × List ValueSet)
    → List Rule
    → Option (List (RuleConds × List ValueSet))
unfolding normalize_rule put_rule
build_from t d inputs entries [] = some entries
build_from t d inputs entries (rule ∷ rest) = normalize_rule t d inputs rule >>= λ r.
    put_rule (r.conditions, r.set_constraints) r.alternatives entries >>= λ entries'.
    build_from t d inputs entries' rest

-- `Cell::build`
unfoldable pub build_cell : Texts → IrDesc → List ChoiceInstance → List Rule → Option Cell
unfolding build_from
build_cell t d inputs rs =
    build_from t d inputs [] rs >>= λ entries. some (record { entries = entries })

abbrev pub rules_of : List (RuleConds × List ValueSet) → List Rule
rules_of [] = []
rules_of (((conds, set_conds), alternatives) ∷ entries) =
    map (λ alts. record { conditions = conds; alternatives = alts; set_constraints = set_conds })
      alternatives
    ++ rules_of entries

unfoldable pub extract_rules : Cell → List Rule
extract_rules c = rules_of c.entries

-- The key of the rules that always apply.
abbrev pub unconditional : RuleConds
unconditional = ([], no_constraints)

abbrev pub has_empty : Option (List ValueSet) → Bool
unfolding is_empty
has_empty none = false
has_empty (some sets) = any is_empty sets

-- `Cell::is_empty`
unfoldable pub cell_is_empty : Cell → Bool
unfolding get has_empty
cell_is_empty c = has_empty (get unconditional c.entries)

abbrev pub are_sets : List ValueSet → Option (List ValueSet) → Bool
are_sets sets none = false
are_sets sets (some others) = elim (sets-discrete sets others) [ yes h ↦ true | no h ↦ false ]

-- `==` of hash maps: as many entries, and each entry of the first is found in the second.
unfoldable pub cell_eq : Cell → Cell → Bool
unfolding get
cell_eq c e =
    length c.entries == length e.entries && every (λ p. are_sets p.1 (get p.0 e.entries)) c.entries

pub record TruthTable : Type 0 where
  pub values : List (ℕ × List ValueSet)
  pub cells : NdArray Cell

unfoldable pub singletons : ℕ → List ℕ → List ValueSet
unfolding enum_values
singletons name [] = []
singletons name (v ∷ vs) = enum_values name (v ∷ []) ∷ singletons name vs

-- What an input contributes to the dimensions of the table.
unfoldable pub dimension : IrDesc → ℕ → ChoiceInstance → Option (List (ℕ × List ValueSet))
unfolding get_choice get_enum singletons is_empty
dimension d id input_ = get_choice d input_.choice >>= λ choice.
    if not (is_empty choice.fragile_values) then some [] else elim choice.choice_def [
      | enum_def name ↦ get_enum d.enums name >>= λ e. some ((id, singletons name e.values) ∷ [])
      | counter v ↦ some []
      | number u ↦ some []
    ]

unfoldable pub dimensions : IrDesc → ℕ → List ChoiceInstance → Option (List (ℕ × List ValueSet))
unfolding dimension
dimensions d id [] = some []
dimensions d id (input_ ∷ inputs) =
    dimension d id input_ >>= λ here. dimensions d (id + 1) inputs >>= λ rest. some (here ++ rest)

-- `zip_eq` of an index with the values; `none` also if an index is out of bounds.
unfoldable pub mapping_at : List ℕ → List (ℕ × List ValueSet) → Option Mapping
mapping_at [] [] = some []
mapping_at [] (v ∷ values) = none
mapping_at (i ∷ is) [] = none
mapping_at (i ∷ is) ((input_, sets) ∷ values) =
    get_elem? sets i >>= λ s. mapping_at is values >>= λ m. some ((input_, s) ∷ m)

-- `flat_map` of `Rule::instantiate`.
unfoldable pub instantiate_all :
    IrDesc → List ChoiceInstance → Mapping → List Rule → Option (List Rule)
unfolding instantiate
instantiate_all d inputs m [] = some []
instantiate_all d inputs m (r ∷ rs) = instantiate d inputs m r >>= λ r'.
    instantiate_all d inputs m rs >>= λ rs'. some (elim r' [ none ↦ rs' | some here ↦ here ∷ rs' ])

-- The cell of an index.
unfoldable pub cell_at :
    Texts
    → IrDesc
    → List ChoiceInstance
    → List Rule
    → List (ℕ × List ValueSet)
    → List ℕ
    → Option Cell
unfolding mapping_at instantiate_all build_cell
cell_at t d inputs rs values index = mapping_at index values >>= λ m.
    instantiate_all d inputs m rs >>= λ rs'. build_cell t d inputs rs'

unfoldable pub fill :
    Texts
    → IrDesc
    → List ChoiceInstance
    → List Rule
    → List (ℕ × List ValueSet)
    → ℕ
    → NdRange
    → Option (List Cell)
unfolding cell_at range_next
fill t d inputs rs values zero r = some []
fill t d inputs rs values (suc rounds) r = elim (range_next r).0 [
  | none ↦ some []
  | some index ↦ cell_at t d inputs rs values index >>= λ c.
      fill t d inputs rs values rounds (range_next r).1 >>= λ cs. some (c ∷ cs)
]

-- `TruthTable::build`. There is one round more than the table has cells.
unfoldable pub build : Texts → IrDesc → List ChoiceInstance → List Rule → Option TruthTable
unfolding dimensions fill new range_new
build t d inputs rs = dimensions d 0 inputs >>= λ values.
    let sizes = map (λ v. length v.1) values in
    fill t d inputs rs values (suc (product sizes)) (range_new sizes) >>= λ cells.
    new sizes cells >>= λ a. some (record { values = values; cells = a })
