-- ===== src/Gen/Optimised.antt =====
-- telamon-gen/src/truth_table.rs: `opt_rules`, from the rules to the filter.
use telamon.Prelude.{
  ℕ, suc, ◌+◌, ◌≡◌, refl, ap, ◌∙◌, subst, Bool, true, some, List, arith, ◌==◌, Bool-cases, inl, inr,
  All, length, get_elem?,
}
use telamon.Prelude.Keys.{every}
use telamon.Gen.Variables.{no_constraints}
use telamon.Gen.Enums.{Enum}
use telamon.Gen.Values.{get_enum}
use telamon.Gen.Filter.{IrDesc, ChoiceInstance, Rule, SubFilter, rules}
use telamon.Gen.Normalize.{Texts}
use telamon.Gen.TruthTable.CellAt.{IsRuleFor, cell_at-allows}
use telamon.Gen.TruthTable.Dimensions.{IsDescribed, dimensions-IsDimension}
use telamon.Gen.TruthTable.Indexes.{IsUnique, index_of, mapping_at-IsMapping}
use telamon.Gen.TruthTable.Filling.{table_of, build-IsTableOf}
use telamon.Gen.TableView.{view_of, num_inputs, opt_rules}
use telamon.Gen.TableView.Meaning.{passes_cell}
use telamon.Gen.TableView.Filtering.{passes, truth_table_to_filter-passes}
use telamon.Gen.Evaluation.{Context, passes_rule}
use telamon.Gen.Evaluation.Conditions.{IsContext}
use telamon.Gen.TableView.Whole.{
  length-indexes_from, meaning, cell_at-exists, whole, whole-HasDistinctKeys, whole-IsTable,
  whole-IsAt,
}

shift :
    (inputs : List ChoiceInstance) (k : ℕ) (x : ChoiceInstance)
    → get_elem? inputs k ≡ some x
    → get_elem? inputs (0 + k) ≡ some x
shift inputs k x e = subst (λ (j : ℕ). get_elem? inputs j ≡ some x) (omega arith) e

-- `opt_rules` returns a filter without a panic, and for the values of the inputs this filter lets a value `v`
-- of the choice pass just if every one of the given rules does. The hypotheses: the values of the inputs are
-- values of their enums, inverting a value twice gives it back, the normal form of a piece of code computes
-- the same (`IsContext`), the empty set constraint holds, the values of an enum are distinct, the choices of
-- the inputs and their enums are in the description, and the rules are well typed, all for enums or all for
-- integers, with alternatives of which `v` is a value (`IsRuleFor`).
pub opt_rules-passes :
    (t : Texts) (d : IrDesc) (inputs : List ChoiceInstance) (c : Context) (kind : Bool) (v : ℕ)
    (rs : List Rule)
    → IsContext t d inputs c
    → (everywhere : c.is_in no_constraints ≡ true)
    → ((e : Enum) → get_enum d.enums e.name ≡ some e → IsUnique e)
    → All (IsDescribed d inputs) inputs
    → All (IsRuleFor d inputs kind v) rs
    → (f : SubFilter) × (opt_rules t inputs rs d ≡ some f)
      × (passes (meaning d inputs c v everywhere) f ≡ every (passes_rule d inputs c v) rs)
unfolding opt_rules passes meaning view_of num_inputs whole
opt_rules-passes t d inputs c kind v rs h everywhere unique described for_choice =
    elim (Bool-cases (length rs == 1)) [
      | inl one ↦ (rules rs, rw (opt_rules, one) refl, refl)
      | inr more ↦
          let m = meaning d inputs c v everywhere in
          let (values, known, are) =
            dimensions-IsDimension d inputs 0 inputs (λ k x e. shift inputs k x e) described in
          let exists = cell_at-exists t d inputs c kind v h rs for_choice values are in
          let (cs, built, filled) =
            build-IsTableOf t d inputs rs values known
              (λ is w. ((exists is w).0, (exists is w).1)) in
          let (is, within, at) = index_of t d inputs c h values are in
          let (f, made, same) =
            truth_table_to_filter-passes (table_of t d inputs rs values cs).cells m
              (whole-HasDistinctKeys t d inputs c kind v h rs for_choice values are cs filled)
              (suc (length values)) (whole t d inputs c kind v h rs for_choice values are cs filled)
              is (whole-IsTable t d inputs c kind v h rs for_choice values are cs filled)
              (whole-IsAt t d inputs c kind v h rs for_choice values are cs filled everywhere unique
                is within at)
              (omega (arith, length-indexes_from 0 (length values))) in
          let (mapping, read, true_) = mapping_at-IsMapping t d inputs c h values is at in
          let (cell, found, distinct, total) =
            cell_at-allows t d inputs c kind h mapping true_ v values is rs read for_choice in
          (
            f,
            rw (opt_rules, more, built) made,
            same ∙ ap (passes_cell m) (filled.reads is within ∙ found) ∙ total,
          )
    ]
