-- ===== src/Tests/Filters.antt =====
-- Runs and instances for the filters of the generator.
use telamon.Prelude.{
  ℕ, zero, suc, ◌+◌, ◌<◌, ◌≡◌, refl, sym, ap, ◌∙◌, subst, Bool, true, false, Option, none, some,
  List, [], ◌∷◌, arith, ◌==◌, if◌then◌else◌, Bool-cases, inl, inr, All, get_elem?,
}
use mathlib.Core.Option.{some-injective}
use telamon.Prelude.Keys.{every}
use telamon.Gen.Variables.{no_constraints}
use telamon.Gen.Enums.{Enum, has, inverse}
use telamon.Gen.Values.{ValueSet, enum, CmpOp, get_enum, is_empty, intersect}
use telamon.Gen.Filter.{
  Choice, IrDesc, plain, enum_def, ChoiceInstance, enum_cond, cmp_input, Rule, SubFilter,
  enum_of_input, get_choice, Mapping,
}
use telamon.Gen.Normalize.{Texts}
use telamon.Gen.TruthTable.{Cell, singletons, dimension, dimensions, build}
use telamon.Gen.TruthTable.CellAt.{IsRuleFor}
use telamon.Gen.TruthTable.Dimensions.{IsDescribed, IsDimension}
use telamon.Gen.TruthTable.Indexes.{IsUnique, IsIndexOf}
use telamon.Gen.TruthTable.Filling.{table_of, IsTableOf, build-IsTableOf}
use telamon.Gen.TableView.{TableView, num_inputs, truth_table_to_filter, opt_rules}
use telamon.Gen.TableView.Branches.{IsTable}
use telamon.Gen.TableView.Meaning.{HasDistinctKeys}
use telamon.Gen.TableView.Splitting.{IsAt}
use telamon.Gen.TableView.Filtering.{passes, IsFilterOf, truth_table_to_filter-passes}
use telamon.Gen.TableView.Whole.{
  meaning, cell_at-exists, whole, whole-HasDistinctKeys, whole-IsTable, whole-IsAt,
}
use telamon.Gen.Evaluation.{Context, passes_rule}
use telamon.Gen.Evaluation.Conditions.{IsContext}
use telamon.Gen.Evaluation.Sets.{IsNarrowed, intersect-IsNarrowed}
use telamon.Gen.Optimised.{opt_rules-passes}
use telamon.Utils.NdArray.{NdArray}

abbrev pub texts : Texts
texts = record { replace = λ code old new. code; pattern = λ n. n; to_string = λ v. 0 }

abbrev pub colors : Enum
colors = record { name = 0; values = 1 ∷ 2 ∷ 3 ∷ []; aliases = []; pairs = none }

abbrev color : ℕ → Choice
color name = record {
  name = name;
  arguments = plain 0;
  choice_def = enum_def 0;
  fragile_values = enum 0 [] [];
}

abbrev pub description : IrDesc
description = record { choices = color 7 ∷ color 8 ∷ []; enums = colors ∷ [] }

abbrev pub inputs : List ChoiceInstance
inputs = record { choice = 7; vars = [] } ∷ record { choice = 8; vars = [] } ∷ []

-- If the first input is 1, the choice is 2 or 3.
abbrev first_rule : Rule
first_rule = record {
  conditions = enum_cond 0 (1 ∷ []) false false ∷ [];
  alternatives = enum 0 (2 ∷ 3 ∷ []) [];
  set_constraints = no_constraints;
}

-- If the inputs are equal, the choice is 3.
abbrev second_rule : Rule
second_rule = record {
  conditions = cmp_input 0 1 CmpOp.equal false ∷ [];
  alternatives = enum 0 (3 ∷ []) [];
  set_constraints = no_constraints;
}

sample : Option SubFilter
sample = opt_rules texts inputs (first_rule ∷ second_rule ∷ []) description

-- The first input is 1 and the second one is 3; the code holds and every object is in every set.
abbrev pub context : Context
context = record {
  value = λ i. if i == 0 then 1 else 3;
  code_holds = λ k. true;
  code_value = λ k. 0;
  is_in = λ s. true;
}

enum_of_input-colors : (i : ℕ) (e : Enum) → enum_of_input description inputs i ≡ some e → e ≡ colors
unfolding enum_of_input
enum_of_input-colors zero e h = sym (some-injective _ _ h)
enum_of_input-colors (suc zero) e h = sym (some-injective _ _ h)
enum_of_input-colors (suc (suc i)) e h = ground arith

value_of_colors : (i : ℕ) → has (context.value i) colors.values ≡ true
value_of_colors i = ground arith

pub context-IsContext : IsContext texts description inputs context
unfolding inverse
context-IsContext = record {
  involutive = λ i e h x.
      subst (λ (f : Enum). inverse f (inverse f x) ≡ x) (sym (enum_of_input-colors i e h)) refl;
  valued = λ i e h.
      subst (λ (f : Enum). has (context.value i) f.values ≡ true) (sym (enum_of_input-colors i e h))
        (value_of_colors i);
  code_kept = λ k. refl;
  code_value_kept = λ k. refl;
}

colors_at : (j x : ℕ) → get_elem? colors.values j ≡ some x → x ≡ j + 1
colors_at zero x e = sym (some-injective _ _ e)
colors_at (suc zero) x e = sym (some-injective _ _ e)
colors_at (suc (suc zero)) x e = sym (some-injective _ _ e)
colors_at (suc (suc (suc j))) x e = ground arith

named_colors : (e : Enum) → get_enum description.enums e.name ≡ some e → IsUnique e
unfolding get_enum
named_colors e h = elim (Bool-cases (0 == e.name)) [
  | inl here ↦
      let same : colors ≡ e =
        some-injective _ _ (sym (ap (λ b. if b then some colors else none) here) ∙ h) in
      subst IsUnique same (λ j k x p q. omega (arith, colors_at j x p, colors_at k x q))
  | inr there ↦ ground (arith, sym (ap (λ b. if b then some colors else none) there) ∙ h)
]

inputs-IsDescribed : All (IsDescribed description inputs) inputs
unfolding get_choice get_enum
inputs-IsDescribed = ((color 7, refl, (colors, refl)), ((color 8, refl, (colors, refl)), tt))

rules-IsRuleFor : All (IsRuleFor description inputs true 3) (first_rule ∷ second_rule ∷ [])
unfolding enum_of_input get_enum
rules-IsRuleFor = (
  (record { typed = ((colors, refl), tt); has_kind = refl }, (colors, refl, refl)),
  ((record { typed = (tt, tt); has_kind = refl }, (colors, refl, refl)), tt),
)

opt_rules-passes_example :
    (f : SubFilter) × (opt_rules texts inputs (first_rule ∷ second_rule ∷ []) description ≡ some f)
    × (passes (meaning description inputs context 3 refl) f
        ≡ every (passes_rule description inputs context 3) (first_rule ∷ second_rule ∷ []))
opt_rules-passes_example =
    opt_rules-passes texts description inputs context true 3 (first_rule ∷ second_rule ∷ [])
      context-IsContext refl named_colors inputs-IsDescribed rules-IsRuleFor

abbrev both : List Rule
both = first_rule ∷ second_rule ∷ []

abbrev sample_values : List (ℕ × List ValueSet)
unfolding singletons
sample_values = (0, singletons 0 colors.values) ∷ (1, singletons 0 colors.values) ∷ []

abbrev sample_index : List ℕ
sample_index = 0 ∷ 2 ∷ []

abbrev known_inputs : Mapping
known_inputs = (0, enum 0 (1 ∷ []) []) ∷ (1, enum 0 (3 ∷ []) []) ∷ []

intersect-IsNarrowed_example :
    (r : Bool × ValueSet) × (intersect (enum 0 (1 ∷ 2 ∷ []) []) (enum 0 (2 ∷ 3 ∷ []) []) ≡ some r)
    × IsNarrowed description inputs context (enum 0 (1 ∷ 2 ∷ []) []) (enum 0 (2 ∷ 3 ∷ []) []) r
intersect-IsNarrowed_example =
    intersect-IsNarrowed description inputs context (enum 0 (1 ∷ 2 ∷ []) [])
      (enum 0 (2 ∷ 3 ∷ []) []) refl

sample_values-IsDimension : All (IsDimension description inputs) sample_values
unfolding enum_of_input get_enum sample_values
sample_values-IsDimension = ((colors, refl, refl, refl), ((colors, refl, refl, refl), tt))

sample_index-IsIndexOf :
    IsIndexOf texts description inputs context context-IsContext sample_values sample_index
unfolding enum_of_input get_enum sample_values
sample_index-IsIndexOf = ((colors, refl, refl, refl, refl), ((colors, refl, refl, refl, refl), tt))

sample_values-dimensions : dimensions description 0 inputs ≡ some sample_values
unfolding dimensions dimension get_choice get_enum is_empty sample_values
sample_values-dimensions = refl

abbrev sample_cells :
    (cs : List Cell) × (build texts description inputs both
      ≡ some (table_of texts description inputs both sample_values cs))
    × IsTableOf texts description inputs both sample_values cs
sample_cells =
    build-IsTableOf texts description inputs both sample_values sample_values-dimensions (λ is w.
      let (cell, e, distinct) =
        cell_at-exists texts description inputs context true 3 context-IsContext both
          rules-IsRuleFor sample_values sample_values-IsDimension is w in
      (cell, e))

abbrev sample_table : NdArray Cell
sample_table = (table_of texts description inputs both sample_values sample_cells.0).cells

abbrev sample_view : TableView
sample_view =
    whole texts description inputs context true 3 context-IsContext both rules-IsRuleFor
      sample_values sample_values-IsDimension sample_cells.0 sample_cells.2

sample_table-HasDistinctKeys : HasDistinctKeys sample_table
sample_table-HasDistinctKeys =
    whole-HasDistinctKeys texts description inputs context true 3 context-IsContext both
      rules-IsRuleFor sample_values sample_values-IsDimension sample_cells.0 sample_cells.2

sample_view-IsTable : IsTable sample_table sample_view
sample_view-IsTable =
    whole-IsTable texts description inputs context true 3 context-IsContext both rules-IsRuleFor
      sample_values sample_values-IsDimension sample_cells.0 sample_cells.2

sample_view-IsAt : IsAt (meaning description inputs context 3 refl) sample_view sample_index
unfolding sample_values singletons
sample_view-IsAt =
    whole-IsAt texts description inputs context true 3 context-IsContext both rules-IsRuleFor
      sample_values sample_values-IsDimension sample_cells.0 sample_cells.2 refl named_colors
      sample_index (omega arith, (omega arith, tt)) sample_index-IsIndexOf

sample_view-fuel : num_inputs sample_view < 3
unfolding num_inputs whole sample_values
sample_view-fuel = omega arith

truth_table_to_filter-passes_example :
    IsFilterOf sample_table
      (meaning description inputs context 3 refl)
      sample_table-HasDistinctKeys
      (truth_table_to_filter sample_table 3)
      sample_view
      sample_index
truth_table_to_filter-passes_example =
    truth_table_to_filter-passes sample_table (meaning description inputs context 3 refl)
      sample_table-HasDistinctKeys 3 sample_view sample_index sample_view-IsTable sample_view-IsAt
      sample_view-fuel
