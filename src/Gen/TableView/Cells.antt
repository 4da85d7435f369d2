-- ===== src/Gen/TableView/Cells.antt =====
-- telamon-gen/src/truth_table.rs: the comparisons of whole views, in terms of their cells.
use telamon.Prelude.{
  ℕ, zero, suc, ◌≡◌, refl, sym, ap, ◌∙◌, subst, inl, inr, Bool, true, some, List, [], ◌∷◌, arith,
  Option-cases, ◌∈◌,
}
use telamon.Prelude.Keys.{every}
use telamon.Gen.Filter.{rules}
use telamon.Gen.TruthTable.{Cell, extract_rules, cell_is_empty, cell_eq}
use telamon.Gen.TableView.{TableView, collect, into_iter, all_equal, equal_content, is_empty, leaf}
use telamon.Utils.NdArray.{
  NdArray, NdRange, product, range_new, range_next, ViewMut, view_index, iter_next,
}
use telamon.Utils.NdArray.Enumeration.{IsWithin, visit, visit-range_new}
use telamon.Utils.NdArray.Complete.{mem-visit, All-mem}

-- Every index within the bounds of the view has a cell.
abbrev pub IsReadable : NdArray Cell → ViewMut → Type 0
IsReadable a v = (is : List ℕ) → IsWithin v.bounds is → (c : Cell) × (view_index a v is ≡ some c)

module _ (a : NdArray Cell) where
  -- The cells are those that the view reads at the indexes.
  abbrev Reads : ViewMut → List (List ℕ) → List Cell → Type 0
  Reads v [] [] = Unit
  Reads v [] (c ∷ cs) = ⊥
  Reads v (is ∷ items) [] = ⊥
  Reads v (is ∷ items) (c ∷ cs) = (view_index a v is ≡ some c) × Reads v items cs

  collect-Reads :
      (n : ℕ) (v : ViewMut) (r : NdRange)
      → ((is : List ℕ) → is ∈ visit n r → (c : Cell) × (view_index a v is ≡ some c))
      → (cs : List Cell) × (collect a n v r ≡ some cs) × Reads v (visit n r) cs
  unfolding collect iter_next
  collect-Reads zero v r h = ([], refl, tt)
  collect-Reads (suc n) v r h = elim (Option-cases (range_next r).0) [
    | inl over ↦
        let seen : visit (suc n) r ≡ [] = rw (visit, over) refl in
        ([], rw (collect, over) refl, rw seen tt)
    | inr (is, next) ↦
        let seen : visit (suc n) r ≡ is ∷ visit n (range_next r).1 = rw (visit, next) refl in
        let (c, read) = h is (rw seen (inl refl)) in
        let (cs, rest, reads) =
          collect-Reads n v (range_next r).1 (λ js m. h js (rw seen (inr m))) in
        (c ∷ cs, rw (collect, next, read, rest) refl, rw seen (read, reads))
  ]

  Reads-mem :
      (v : ViewMut) (items : List (List ℕ)) (cs : List Cell) (is : List ℕ) (p : Cell → Bool)
      → Reads v items cs
      → every p cs ≡ true
      → is ∈ items
      → (c : Cell) × (view_index a v is ≡ some c) × (p c ≡ true)
  Reads-mem v [] cs is p r e m = absurd m
  Reads-mem v (js ∷ items) [] is p r e m = absurd r
  Reads-mem v (js ∷ items) (c ∷ cs) is p r e (inl k) =
      (c, ap (view_index a v) k ∙ r.0, ground arith)
  Reads-mem v (js ∷ items) (c ∷ cs) is p r e (inr m) =
      Reads-mem v items cs is p r.1 (ground arith) m

  Reads-equal :
      (v w : ViewMut) (items : List (List ℕ)) (cs ds : List Cell) (is : List ℕ)
      → Reads v items cs
      → Reads w items ds
      → all_equal cs ds ≡ true
      → is ∈ items
      → (c : Cell) × (d : Cell) × (view_index a v is ≡ some c)
        × (view_index a w is ≡ some d)
        × (cell_eq c d ≡ true)
  Reads-equal v w [] cs ds is r s e m = absurd m
  Reads-equal v w (js ∷ items) [] ds is r s e m = absurd r
  Reads-equal v w (js ∷ items) (c ∷ cs) [] is r s e m = absurd s
  Reads-equal v w (js ∷ items) (c ∷ cs) (d ∷ ds) is r s e (inl k) =
      (c, d, ap (view_index a v) k ∙ r.0, ap (view_index a w) k ∙ s.0, ground arith)
  Reads-equal v w (js ∷ items) (c ∷ cs) (d ∷ ds) is r s e (inr m) =
      Reads-equal v w items cs ds is r.1 s.1 (ground arith) m

  -- The rounds of the iterator over a view, and the indexes that they meet.
  abbrev rounds : ViewMut → ℕ
  rounds v = suc (product v.bounds)

  abbrev items_of : ViewMut → List (List ℕ)
  items_of v = visit (rounds v) (range_new v.bounds)

  into_iter-Reads :
      (t : TableView)
      → IsReadable a t.view
      → (cs : List Cell) × (into_iter a t ≡ some cs) × Reads t.view (items_of t.view) cs
  unfolding into_iter
  into_iter-Reads t h = collect-Reads (rounds t.view) t.view (range_new t.view.bounds) λ is m.
      h is (
        All-mem (IsWithin t.view.bounds) (items_of t.view) is
          (visit-range_new t.view.bounds (rounds t.view) (omega arith)).0 m)

  -- Two views of one shape are found equal only if their cells are, index by index.
  pub equal_content-reads :
      (t u : TableView)
      → IsReadable a t.view
      → IsReadable a u.view
      → t.view.bounds ≡ u.view.bounds
      → (b : Bool) × (equal_content a t u ≡ some b)
        × (b ≡ true
            → (is : List ℕ) → IsWithin t.view.bounds is
            → (c : Cell) × (d : Cell) × (view_index a t.view is ≡ some c)
              × (view_index a u.view is ≡ some d)
              × (cell_eq c d ≡ true))
  unfolding equal_content
  equal_content-reads t u h k same =
      let (cs, read, reads) = into_iter-Reads t h in
      let (ds, read', reads') = into_iter-Reads u k in
      let items = items_of t.view in
      let aligned : Reads u.view items ds =
        subst (λ bounds. Reads u.view (visit (suc (product bounds)) (range_new bounds)) ds)
          (sym same) reads' in
      (
        all_equal cs ds,
        rw (equal_content, read, read') refl,
        λ e is w.
            Reads-equal t.view u.view items cs ds is reads aligned e
              (mem-visit t.view.bounds is (rounds t.view) (omega arith) w),
      )

  -- A view is found empty only if all its cells are.
  pub is_empty-reads :
      (t : TableView)
      → IsReadable a t.view
      → (b : Bool) × (is_empty a t ≡ some b)
        × (b ≡ true
            → (is : List ℕ) → IsWithin t.view.bounds is
            → (c : Cell) × (view_index a t.view is ≡ some c) × (cell_is_empty c ≡ true))
  unfolding is_empty
  is_empty-reads t h =
      let (cs, read, reads) = into_iter-Reads t h in
      (
        every cell_is_empty cs,
        rw (is_empty, read) refl,
        λ e is w.
            Reads-mem t.view (items_of t.view) cs is cell_is_empty reads e
              (mem-visit t.view.bounds is (rounds t.view) (omega arith) w),
      )

  first_read :
      (v : ViewMut) (items : List (List ℕ)) (cs : List Cell) (is : List ℕ)
      → Reads v items cs
      → items ≡ is ∷ []
      → (c : Cell) × (cs ≡ c ∷ []) × (view_index a v is ≡ some c)
  first_read v items [] is r e = absurd (subst (λ t. Reads v t []) e r)
  first_read v items (c ∷ []) is r e = (c, refl, (subst (λ t. Reads v t (c ∷ [])) e r).0)
  first_read v items (c ∷ d ∷ cs) is r e = absurd (subst (λ t. Reads v t (c ∷ d ∷ cs)) e r).1

  -- A view without dimensions has one cell, whose rules are the filter.
  pub leaf-reads :
      (t : TableView)
      → IsReadable a t.view
      → t.view.bounds ≡ []
      → (c : Cell) × (leaf a t ≡ some (rules (extract_rules c))) × (view_index a t.view [] ≡ some c)
  unfolding leaf range_next range_new
  leaf-reads t h e =
      let (cs, read, reads) = into_iter-Reads t h in
      let one : items_of t.view ≡ [] ∷ [] =
        subst (λ bounds. visit (suc (product bounds)) (range_new bounds) ≡ [] ∷ []) (sym e) refl in
      let (c, alone, at) = first_read t.view (items_of t.view) cs [] reads one in
      (c, rw (leaf, read, alone) refl, at)
