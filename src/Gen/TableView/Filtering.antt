-- ===== src/Gen/TableView/Filtering.antt =====
-- telamon-gen/src/truth_table.rs: `truth_table_to_filter`, and what the filter that it returns lets pass.
use telamon.Prelude.{
  ℕ, zero, suc, ◌<◌, ◌≡◌, refl, sym, ap, ◌∙◌, inl, inr, Bool, false, ◌&&◌, ◌||◌, Option, some, List,
  [], ◌∷◌, arith, ◌==◌, ==→≡, Bool-cases, length, All,
}
use telamon.Prelude.Keys.{any, every}
use telamon.Gen.Values.{ValueSet}
use telamon.Gen.Filter.{SubFilter, rules, switch, Cases, nil, case}
use telamon.Gen.TruthTable.{Cell, extract_rules}
use telamon.Gen.TableView.{
  TableView, num_inputs, filter_cases, filter_split, truth_table_to_filter, TableSplit, switch_on,
  forward,
}
use telamon.Gen.TableView.Cells.{leaf-reads}
use telamon.Gen.TableView.Branches.{IsTable}
use telamon.Gen.TableView.Meaning.{Meaning, HasDistinctKeys, passes_cell}
use telamon.Gen.TableView.Splitting.{IsAt}
use telamon.Gen.TableView.Choosing.{IsNext, IsSplit, table_min_split-IsSplit}
use telamon.Utils.NdArray.{NdArray, view_index, remove}
use telamon.Utils.NdArray.Enumeration.{IsWithin}

-- Whether a filter lets the value pass: all the rules of a leaf do, or some case of a switch that may hold
-- the value of the input.
unfoldable mutual
  pub passes : Meaning → SubFilter → Bool
  passes m (rules rs) = every m.ok rs
  passes m (switch i cases) = passes_cases m i cases

  pub passes_cases : Meaning → ℕ → Cases → Bool
  passes_cases m i nil = false
  passes_cases m i (case values f cases) =
      (m.selects i values && passes m f) || passes_cases m i cases

module _ (a : NdArray Cell) (m : Meaning) (distinct : HasDistinctKeys a) where
  -- The filter of a view, for the inputs at the index `is`.
  abbrev pub IsFilterOf : (TableView → Option SubFilter) → TableView → List ℕ → Type 0
  IsFilterOf f t is =
      (sub : SubFilter) × (f t ≡ some sub) × (passes m sub ≡ passes_cell m (view_index a t.view is))

  filter_cases-passes :
      (f : TableView → Option SubFilter) (input : ℕ) (is : List ℕ)
      (cases : List (ValueSet × TableView))
      → All (λ c. IsFilterOf f c.1 is) cases
      → (cs : Cases) × (filter_cases f cases ≡ some cs)
        × (passes_cases m input cs
            ≡ any (λ c. m.selects input c.0 && passes_cell m (view_index a c.1.view is)) cases)
  unfolding passes
  filter_cases-passes f input is [] h = (nil, refl, refl)
  filter_cases-passes f input is ((values, u) ∷ cases) h =
      let (sub, read, same) = h.0 in
      let (cs, reads, later) = filter_cases-passes f input is cases h.1 in
      (case values sub cs, rw (filter_cases, read, reads) refl, ground (arith, same, later))

  no_bounds :
      (t : TableView) (is : List ℕ)
      → IsTable a t
      → IsAt m t is
      → num_inputs t ≡ 0
      → (t.view.bounds ≡ []) × (is ≡ [])
  unfolding num_inputs
  no_bounds t is h at e = empty_bounds t.view.bounds is at.within (sym h.dims ∙ e)
    where
      empty_bounds : (ds js : List ℕ) → IsWithin ds js → length ds ≡ 0 → (ds ≡ []) × (js ≡ [])
      empty_bounds [] [] w e = (refl, refl)
      empty_bounds [] (j ∷ js) w e = absurd w
      empty_bounds (d ∷ ds) js w e = absurd (omega (arith, e))

  All-map :
      (P Q : ValueSet × TableView → Type 0) (xs : List (ValueSet × TableView))
      → ((x : ValueSet × TableView) → P x → Q x)
      → All P xs
      → All Q xs
  All-map P Q [] f h = tt
  All-map P Q (x ∷ xs) f h = (f x h.0, All-map P Q xs f h.1)

  after_split :
      (f : TableView → Option SubFilter) (t : TableView) (is : List ℕ) (h : IsTable a t)
      (at : IsAt m t is) (s : TableSplit)
      → ((u : TableView) (js : List ℕ)
          → IsTable a u
          → IsAt m u js
          → suc (num_inputs u) ≡ num_inputs t
          → IsFilterOf f u js)
      → IsSplit a m t is distinct h at s
      → (sub : SubFilter) × (filter_split f s ≡ some sub)
        × (passes m sub ≡ passes_cell m (view_index a t.view is))
  unfolding passes
  after_split f t is h at (forward u) ih (pos, below, p, next, same) =
      let (sub, read, e) = ih u (remove is pos) next.table next.at_rest next.fewer in
      (sub, read, e ∙ same)
  after_split f t is h at (switch_on i cases) ih (pos, below, p, (input, nexts, total)) =
      let (cs, read, e) = filter_cases-passes f i (remove is pos) cases (
        All-map (λ c. IsNext a m t is distinct h at pos below p c.1)
          (λ c. IsFilterOf f c.1 (remove is pos)) cases
          (λ c next. ih c.1 (remove is pos) next.table next.at_rest next.fewer) nexts) in
      (
        switch i cs,
        rw read refl,
        e
            ∙ ap
                (λ (n : ℕ).
                  any
                    (λ c. m.selects n c.0 && passes_cell m (view_index a c.1.view (remove is pos)))
                    cases)
                input
            ∙ total,
      )

  -- With fuel for each input that is left and one more, a view of a table whose cells have distinct keys is
  -- turned into a filter without a panic, and for the inputs at an index the filter lets a value pass just if
  -- the rules of the cell at this index do, whatever a rule and a set of values mean, as long as an
  -- unconditional rule without alternatives lets nothing pass and a union selects what its parts do.
  pub truth_table_to_filter-passes :
      (fuel : ℕ) (t : TableView) (is : List ℕ)
      → IsTable a t
      → IsAt m t is
      → num_inputs t < fuel
      → IsFilterOf (truth_table_to_filter a fuel) t is
  unfolding truth_table_to_filter passes extract_rules
  truth_table_to_filter-passes zero t is h at l = absurd (omega (arith, l))
  truth_table_to_filter-passes (suc fuel) t is h at l = elim (Bool-cases (num_inputs t == 0)) [
    | inl done ↦
        let (none_left, start) = no_bounds t is h at (==→≡ _ _ done) in
        let (c, read, cell) = leaf-reads a t h.readable none_left in
        (
          rules (extract_rules c),
          rw (truth_table_to_filter, done) read,
          sym (ap (λ js. passes_cell m (view_index a t.view js)) start ∙ ap (passes_cell m) cell),
        )
    | inr more ↦
        let (s, split_, stands) = table_min_split-IsSplit a m t is distinct h at (ground arith) in
        let (sub, found, same) =
          after_split (truth_table_to_filter a fuel) t is h at s
            (λ u js k at' fewer.
              truth_table_to_filter-passes fuel u js k at' (omega (arith, fewer, l)))
            stands in
        (sub, rw (truth_table_to_filter, more, split_) found, same)
  ]
