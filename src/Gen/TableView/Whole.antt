-- ===== src/Gen/TableView/Whole.antt =====
-- telamon-gen/src/truth_table.rs: the view of the whole table that `build` gives, for given values of the inputs.
use telamon.Prelude.{
  ℕ, zero, suc, ◌+◌, ◌<◌, ◌≡◌, refl, sym, ap, ◌∙◌, subst, Bool, true, false, not, ◌||◌, some, List,
  [], ◌∷◌, map, arith, All, length, get_elem?, get_elem?-total, get_elem?-lt, All-get_elem?,
}
use mathlib.Core.Option.{some-injective}
use telamon.Gen.Variables.{SetConstraints, no_constraints}
use telamon.Gen.Enums.{Enum}
use telamon.Gen.Values.{ValueSet, get_enum, is_empty}
use telamon.Gen.Filter.{Condition, IrDesc, ChoiceInstance, Rule}
use telamon.Gen.Normalize.{Texts}
use telamon.Gen.TruthTable.{Cell, cell_at, unconditional}
use telamon.Gen.TruthTable.Equality.{AreDistinct}
use telamon.Gen.TruthTable.CellAt.{IsRuleFor, cell_at-allows}
use telamon.Gen.TruthTable.Dimensions.{IsDimension, mapping_at-IsChosen, singletons-IsEnumSet}
use telamon.Gen.TruthTable.Indexes.{
  at_mapping, at_mapping-IsContext, IsUnique, IsIndexOf, IsIndexOf-selects,
}
use telamon.Gen.TruthTable.Filling.{sizes, table_of, IsTableOf}
use telamon.Gen.TableView.{TableView, view_of, indexes_from}
use telamon.Gen.TableView.Branches.{IsEnumSet, IsTable}
use telamon.Gen.TableView.Meaning.{Meaning, HasDistinctKeys}
use telamon.Gen.TableView.Splitting.{IsAt}
use telamon.Gen.Evaluation.{
  Context, in_set, passes_rule, applies, selects, in_set-is_empty, selects-extend_set,
}
use telamon.Gen.Evaluation.Conditions.{IsContext}
use telamon.Utils.NdArray.{view_mut}
use telamon.Utils.NdArray.Enumeration.{IsWithin}

get_elem?-indexes_from :
    (i n pos dim : ℕ) → get_elem? (indexes_from i n) pos ≡ some dim → dim ≡ i + pos
get_elem?-indexes_from i zero pos dim e = ground arith
get_elem?-indexes_from i (suc n) zero dim e = omega (arith, some-injective _ _ e)
get_elem?-indexes_from i (suc n) (suc pos) dim e =
    omega (arith, get_elem?-indexes_from (i + 1) n pos dim e)

pub length-indexes_from : (i n : ℕ) → length (indexes_from i n) ≡ n
length-indexes_from i zero = refl
length-indexes_from i (suc n) = ap suc (length-indexes_from (i + 1) n)

get_elem?-sizes :
    (values : List (ℕ × List ValueSet)) (pos i : ℕ) (sets : List ValueSet)
    → get_elem? values pos ≡ some (i, sets)
    → get_elem? (map (λ v. length v.1) values) pos ≡ some (length sets)
get_elem?-sizes [] pos i sets e = ground arith
get_elem?-sizes (v ∷ values) zero i sets e = ap (λ p. some (length p.1)) (some-injective _ _ e)
get_elem?-sizes (v ∷ values) (suc pos) i sets e = get_elem?-sizes values pos i sets e

length-sizes :
    (values : List (ℕ × List ValueSet)) → length (map (λ v. length v.1) values) ≡ length values
length-sizes [] = refl
length-sizes (v ∷ values) = ap suc (length-sizes values)

module _ (d : IrDesc) (inputs : List ChoiceInstance) (c : Context) where
  pub empty_rule :
      (v : ℕ)
      → c.is_in no_constraints ≡ true
      → (r : Rule) → unconditional ≡ (r.conditions, r.set_constraints)
      → is_empty r.alternatives ≡ true
      → passes_rule d inputs c v r ≡ false
  unfolding passes_rule
  empty_rule v everywhere r key empty =
      ap
        (λ (k : List Condition × SetConstraints).
          not (applies d inputs c k.0 k.1) || in_set d inputs c r.alternatives v)
        (sym key)
      ∙ ground (arith, everywhere, in_set-is_empty d inputs c r.alternatives v empty)

  -- What a filter means for the value `v` of the choice, if its rules are not limited to some objects only.
  unfoldable pub meaning : ℕ → c.is_in no_constraints ≡ true → Meaning
  unfolding passes_rule selects
  meaning v everywhere = record {
    ok = passes_rule d inputs c v;
    selects = selects d inputs c;
    ok_empty = empty_rule v everywhere;
    selects_extend = selects-extend_set d inputs c;
  }

module _ (t : Texts) (d : IrDesc) (inputs : List ChoiceInstance) (c : Context) (kind : Bool) (v : ℕ)
    (h : IsContext t d inputs c) (rs : List Rule) (for_choice : All (IsRuleFor d inputs kind v) rs)
    (values : List (ℕ × List ValueSet)) (are : All (IsDimension d inputs) values) where
  pub cell_at-exists :
      (is : List ℕ)
      → IsWithin (sizes t d inputs rs values) is
      → (cell : Cell) × (cell_at t d inputs rs values is ≡ some cell) × AreDistinct cell.entries
  cell_at-exists is w =
      let (m, e, chosen) = mapping_at-IsChosen d inputs values is are w in
      let (h', known) = at_mapping-IsContext t d inputs c h m chosen in
      let (cell, found, distinct, total) =
        cell_at-allows t d inputs (at_mapping m c) kind h' m known v values is rs e for_choice in
      (cell, found, distinct)

  module _ (cs : List Cell) (filled : IsTableOf t d inputs rs values cs) where
    unfoldable pub whole : TableView
    unfolding view_of
    whole = view_of (table_of t d inputs rs values cs)

    pub whole-HasDistinctKeys : HasDistinctKeys (table_of t d inputs rs values cs).cells
    whole-HasDistinctKeys j cell there =
        let (is, w, e) = filled.all_cells j cell there in
        let (cell', e', distinct) = cell_at-exists is w in
        subst (λ (x : Cell). AreDistinct x.entries) (some-injective _ _ (sym e' ∙ e)) distinct

    dim_of :
        (pos dim : ℕ)
        → get_elem? (indexes_from 0 (length values)) pos ≡ some dim
        → (dim ≡ pos) × (pos < length values)
    dim_of pos dim at_dim =
        let below = get_elem?-lt (indexes_from 0 (length values)) pos at_dim in
        (
          get_elem?-indexes_from 0 (length values) pos dim at_dim ∙ omega arith,
          omega (arith, below, length-indexes_from 0 (length values)),
        )

    whole-sets :
        (pos dim : ℕ)
        → get_elem? (indexes_from 0 (length values)) pos ≡ some dim
        → (i : ℕ) × (sets : List ValueSet) × (get_elem? values dim ≡ some (i, sets))
          × (get_elem? (sizes t d inputs rs values) pos ≡ some (length sets))
          × All IsEnumSet sets
    whole-sets pos dim at_dim =
        let (same, below) = dim_of pos dim at_dim in
        let ((i, sets), there) = get_elem?-total values pos below in
        let (e, found, named, all_sets) =
          All-get_elem? (IsDimension d inputs) values pos are there in
        (
          i,
          sets,
          ap (λ (k : ℕ). get_elem? values k) same ∙ there,
          get_elem?-sizes values pos i sets there,
          subst (All IsEnumSet) (sym all_sets) (singletons-IsEnumSet e.name e.values),
        )

    pub whole-IsTable : IsTable (table_of t d inputs rs values cs).cells whole
    unfolding whole view_mut
    whole-IsTable = record {
      fixed = tt;
      size = omega arith;
      dims = length-indexes_from 0 (length values) ∙ sym (length-sizes values);
      sets = whole-sets;
      readable =
          λ is w. let (cell, e, distinct) = cell_at-exists is w in (cell, filled.reads is w ∙ e);
    }

    pub whole-IsAt :
        (everywhere : c.is_in no_constraints ≡ true)
        → ((e : Enum) → get_enum d.enums e.name ≡ some e → IsUnique e)
        → (is : List ℕ) → IsWithin (sizes t d inputs rs values) is
        → IsIndexOf t d inputs c h values is
        → IsAt (meaning d inputs c v everywhere) whole is
    unfolding whole view_mut meaning
    whole-IsAt everywhere unique is w at = record {
      within = w;
      selected = λ pos dim i k sets at_dim at_values at_index.
          IsIndexOf-selects t d inputs c h unique values is at pos i k sets
            (ap (λ (j : ℕ). get_elem? values j) (sym (dim_of pos dim at_dim).0) ∙ at_values)
            at_index;
    }
