-- ===== src/Gen/TableView.antt =====
-- telamon-gen/src/truth_table.rs: views of a truth table with some inputs fixed, and the filter that
-- implements a table by a switch on one input after the other. `a` is the array that a view points to.
pub mod Cells
pub mod Branches
pub mod Meaning
pub mod Merging
pub mod Splitting
pub mod Configurations
pub mod Choosing
pub mod Filtering
pub mod Whole
use package.telamon.Prelude.{
  ℕ, zero, suc, ◌+◌, Bool, true, false, not, ◌&&◌, ◌||◌, Option, none, some, List, [], ◌∷◌, ◌++◌,
  map, if◌then◌else◌, ◌==◌, ltb, length, get_elem?,
}
use package.telamon.Prelude.Keys.{every}
use package.telamon.Gen.Values.{ValueSet, extend_set}
use package.telamon.Gen.Filter.{
  ◌>>=◌, IrDesc, ChoiceInstance, Rule, SubFilter, rules, switch, Cases, nil, case,
}
use package.telamon.Gen.Normalize.{Texts}
use package.telamon.Gen.TruthTable.{Cell, extract_rules, cell_is_empty, cell_eq, TruthTable, build}
use package.telamon.Utils.NdArray.{
  NdArray, NdRange, product, range_new, ViewMut, view_mut, split, iter_next, remove,
}

pub record TableView : Type 0 where
  pub values : List (ℕ × List ValueSet)
  pub dim_map : List ℕ
  pub view : ViewMut

abbrev pub indexes_from : ℕ → ℕ → List ℕ
indexes_from i zero = []
indexes_from i (suc n) = i ∷ indexes_from (i + 1) n

-- `TruthTable::view`
unfoldable pub view_of : TruthTable → TableView
unfolding view_mut
view_of t = record {
  values = t.values;
  dim_map = indexes_from 0 (length t.values);
  view = view_mut t.cells.dims;
}

unfoldable pub num_inputs : TableView → ℕ
num_inputs t = length t.dim_map

unfoldable pub input_from_pos : TableView → ℕ → Option ℕ
input_from_pos t pos = get_elem? t.dim_map pos >>= λ dim.
    get_elem? t.values dim >>= λ (v : ℕ × List ValueSet). some v.0

-- `zip_eq` of the values with the views of the split.
abbrev pub zip_views :
    List (ℕ × List ValueSet)
    → List ℕ
    → List ValueSet
    → List ViewMut
    → Option (List (ValueSet × TableView))
zip_views values dim_map [] [] = some []
zip_views values dim_map [] (v ∷ views) = none
zip_views values dim_map (s ∷ sets) [] = none
zip_views values dim_map (s ∷ sets) (v ∷ views) = zip_views values dim_map sets views >>= λ rest.
    some ((s, record { values = values; dim_map = dim_map; view = v }) ∷ rest)

-- `TableView::instantiate`
unfoldable pub instantiate : TableView → ℕ → Option (List (ValueSet × TableView))
unfolding split
instantiate t pos = get_elem? t.dim_map pos >>= λ dim.
    get_elem? t.values dim >>= λ (v : ℕ × List ValueSet).
    split t.view pos >>= λ views. zip_views t.values (remove t.dim_map pos) v.1 views

-- A position with its view, and the values for which it stands.
pub record Instance : Type 0 where
  pub values : ValueSet
  pub pos : ℕ
  pub table : TableView

pub data TableSplit : Type 0 where
  switch_on : ℕ → List (ValueSet × TableView) → TableSplit
  forward : TableView → TableSplit

-- `itertools::equal`
abbrev pub all_equal : List Cell → List Cell → Bool
all_equal [] [] = true
all_equal [] (d ∷ ds) = false
all_equal (c ∷ cs) [] = false
all_equal (c ∷ cs) (d ∷ ds) = cell_eq c d && all_equal cs ds

abbrev pub keep_first : Instance → Option (List Instance) → Option (List Instance)
keep_first i none = none
keep_first i (some is) = some (i ∷ is)

abbrev pub merged_or_pushed : List Instance → Instance → Option (List Instance) → List Instance
merged_or_pushed instances i none = instances ++ i ∷ []
merged_or_pushed instances i (some merged) = merged

abbrev pub config_of : List Instance → List (ValueSet × ℕ)
config_of [] = []
config_of (i ∷ is) = (i.values, i.pos) ∷ config_of is

-- The update of `min_split`.
abbrev pub better :
    Option (ℕ × List (ValueSet × ℕ)) → ℕ → List Instance → Option (ℕ × List (ValueSet × ℕ))
better none pos instances = some (pos, config_of instances)
better (some (p, config)) pos instances =
    if ltb (length instances) (length config)
    then some (pos, config_of instances)
    else some (p, config)

abbrev pub last : List (ValueSet × TableView) → Option TableView
last [] = none
last (v ∷ []) = some v.1
last (v ∷ w ∷ views) = last (w ∷ views)

-- `find` on the enumerated views, which returns the views after the one that is found.
unfoldable pub find_view :
    ℕ → ℕ → List (ValueSet × TableView) → Option (TableView × List (ValueSet × TableView))
find_view pos at [] = none
find_view pos at (v ∷ views) =
    let later = find_view pos (at + 1) views in if at == pos then some (v.1, views) else later

abbrev pub filter_cases :
    (TableView → Option SubFilter) → List (ValueSet × TableView) → Option Cases
filter_cases f [] = some nil
filter_cases f ((values, v) ∷ cases) =
    f v >>= λ sub. filter_cases f cases >>= λ rest. some (case values sub rest)

-- The arms of `truth_table_to_filter`, where `f` is the recursive call.
abbrev pub filter_split : (TableView → Option SubFilter) → TableSplit → Option SubFilter
filter_split f (forward v) = f v
filter_split f (switch_on i cases) = filter_cases f cases >>= λ cs. some (switch i cs)

module _ (a : NdArray Cell) where
  unfoldable pub collect : ℕ → ViewMut → NdRange → Option (List Cell)
  unfolding iter_next
  collect zero v r = some []
  collect (suc rounds) v r = elim (iter_next a v r).0 [
    | none ↦ some []
    | some c ↦ c >>= λ cell. collect rounds v (iter_next a v r).1 >>= λ cells. some (cell ∷ cells)
  ]

  -- The iterator over the cells. There is one round more than the view has cells.
  unfoldable pub into_iter : TableView → Option (List Cell)
  unfolding collect range_new
  into_iter t = collect (suc (product t.view.bounds)) t.view (range_new t.view.bounds)

  unfoldable pub equal_content : TableView → TableView → Option Bool
  unfolding into_iter cell_eq
  equal_content t u = into_iter t >>= λ cs. into_iter u >>= λ ds. some (all_equal cs ds)

  unfoldable pub is_empty : TableView → Option Bool
  unfolding into_iter cell_is_empty
  is_empty t = into_iter t >>= λ cs. some (every cell_is_empty cs)

  -- The search for an instance with the same content; the inner `none` says that there is none.
  unfoldable pub merge_into : ValueSet → TableView → List Instance → Option (Option (List Instance))
  unfolding equal_content extend_set
  merge_into value sub [] = some none
  merge_into value sub (i ∷ instances) =
      let later = merge_into value sub instances in
      equal_content sub i.table >>= λ same. elim same [
        | true ↦
            extend_set i.values value >>= λ s. some (some (record i { values = s } ∷ instances))
        | false ↦ later >>= λ r. some (keep_first i r)
      ]

  -- The body of the loop over the views of a split, on the instances and the flag `forward`.
  unfoldable pub merge_branch :
      ℕ → ValueSet × TableView → List Instance × Bool → Option (List Instance × Bool)
  unfolding is_empty merge_into
  merge_branch pos (value, sub) (instances, fwd) = is_empty sub >>= λ gone. elim gone [
    | true ↦ some (instances, false)
    | false ↦ merge_into value sub instances >>= λ r.
        some (merged_or_pushed instances record { values = value; pos = pos; table = sub } r, fwd)
  ]

  unfoldable pub merge_branches :
      ℕ → List (ValueSet × TableView) → List Instance × Bool → Option (List Instance × Bool)
  unfolding merge_branch
  merge_branches pos [] state = some state
  merge_branches pos (branch ∷ branches) state =
      merge_branch pos branch state >>= λ s. merge_branches (pos + 1) branches s

  -- The instances of a position, and whether the table need not be split there.
  unfoldable pub split_at : TableView → ℕ → Option (List Instance × Bool)
  unfolding instantiate merge_branches
  split_at t pos = instantiate t pos >>= λ views.
      merge_branches 0 views ([], true) >>= λ (s : List Instance × Bool).
      some (s.0, s.1 && length s.0 == 1)

  -- The views of the best configuration; an empty one is the panic of the assertion. `at` views are
  -- behind.
  unfoldable pub replicate_split :
      List (ValueSet × ℕ) → ℕ → List (ValueSet × TableView) → Option (List (ValueSet × TableView))
  unfolding find_view is_empty
  replicate_split [] at views = some []
  replicate_split ((values, pos) ∷ config) at views =
      find_view pos at views >>= λ (f : TableView × List (ValueSet × TableView)).
      is_empty f.0 >>= λ gone. elim gone [
        | true ↦ none
        | false ↦ replicate_split config (pos + 1) f.1 >>= λ rest. some ((values, f.0) ∷ rest)
      ]

  unfoldable pub finish_split :
      TableView → Option (ℕ × List (ValueSet × ℕ)) → Option (Option TableSplit)
  unfolding input_from_pos instantiate replicate_split
  finish_split t none = some none
  finish_split t (some (pos, config)) = input_from_pos t pos >>= λ i. instantiate t pos >>= λ views.
      replicate_split config 0 views >>= λ cases. some (some (switch_on i cases))

  -- The loop of `table_min_split` from `pos` on, with `left` positions to go.
  unfoldable pub min_split_from :
      TableView → ℕ → ℕ → Option (ℕ × List (ValueSet × ℕ)) → Option (Option TableSplit)
  unfolding split_at instantiate finish_split
  min_split_from t pos zero best = finish_split t best
  min_split_from t pos (suc left) best = split_at t pos >>= λ (s : List Instance × Bool). elim s.1 [
    | true ↦ instantiate t pos >>= λ views. last views >>= λ v. some (some (forward v))
    | false ↦ min_split_from t (pos + 1) left (better best pos s.0)
  ]

  unfoldable pub table_min_split : TableView → Option (Option TableSplit)
  unfolding min_split_from num_inputs
  table_min_split t = min_split_from t 0 (num_inputs t) none

  -- The case of a table without inputs: the rules of its first cell.
  unfoldable pub leaf : TableView → Option SubFilter
  unfolding into_iter extract_rules
  leaf t = into_iter t >>= λ cs. elim cs [ [] ↦ none | c ∷ rest ↦ some (rules (extract_rules c)) ]

  -- Every call fixes one input, so the fuel is one more than there are inputs.
  unfoldable pub truth_table_to_filter : ℕ → TableView → Option SubFilter
  unfolding num_inputs leaf table_min_split
  truth_table_to_filter zero t = none
  truth_table_to_filter (suc fuel) t = elim (num_inputs t == 0) [
    | true ↦ leaf t
    | false ↦ table_min_split t >>= λ s. elim s [
      | none ↦ none
      | some found ↦ filter_split (truth_table_to_filter fuel) found
    ]
  ]

unfoldable pub opt_rules : Texts → List ChoiceInstance → List Rule → IrDesc → Option SubFilter
unfolding build view_of truth_table_to_filter
opt_rules t inputs rs d =
    if length rs == 1
    then some (rules rs)
    else (build t d inputs rs >>= λ table.
        let v = view_of table in truth_table_to_filter table.cells (suc (length table.values)) v)
