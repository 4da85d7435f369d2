-- ===== src/Gen/TruthTable/Filling.antt =====
-- telamon-gen/src/truth_table.rs: `TruthTable::build` puts the cell of each index at its place.
use telamon.Prelude.{
  ℕ, zero, suc, ◌+◌, ◌*◌, ◌≡◌, refl, sym, ap, ◌∙◌, subst, true, none, some, List, [], ◌∷◌, map,
  arith, ◌==◌, Option-cases, inl, inr, ◌∈◌, length, get_elem?,
}
use telamon.Gen.Values.{ValueSet}
use telamon.Gen.Filter.{IrDesc, ChoiceInstance, Rule}
use telamon.Gen.Normalize.{Texts}
use telamon.Gen.TruthTable.{Cell, cell_at, fill, TruthTable, dimensions, build}
use telamon.Utils.NdArray.{
  NdArray, new, NdRange, product, fold_index, range_new, range_next, view_mut, flat_from,
  flat_index, view_index,
}
use telamon.Utils.NdArray.Enumeration.{IsWithin, visit, count, visit-range_new}
use telamon.Utils.NdArray.Complete.{mem-visit, All-mem}

length-count : (i n : ℕ) → length (count i n) ≡ n
length-count i zero = refl
length-count i (suc n) = ap suc (length-count (i + 1) n)

==-refl : (a b : ℕ) → a ≡ b → (a == b) ≡ true
==-refl a b e = ground arith

heads : {x y : ℕ} {xs ys : List ℕ} → x ∷ xs ≡ y ∷ ys → x ≡ y
heads e = cc

tails : {x y : ℕ} {xs ys : List ℕ} → x ∷ xs ≡ y ∷ ys → xs ≡ ys
tails e = cc

module _ {A B : Type 0} where
  length-map : (f : A → B) (xs : List A) → length (map f xs) ≡ length xs
  length-map f [] = refl
  length-map f (x ∷ xs) = ap suc (length-map f xs)

flat_from-fold_index :
    (dim : ℕ) (ds is : List ℕ) (flat : ℕ)
    → IsWithin ds is
    → flat_from dim ds [] is flat ≡ some (fold_index flat ds is)
unfolding flat_from
flat_from-fold_index dim [] [] flat w = refl
flat_from-fold_index dim [] (i ∷ is) flat w = absurd w
flat_from-fold_index dim (d ∷ ds) [] flat w = absurd w
flat_from-fold_index dim (d ∷ ds) (i ∷ is) flat w =
    flat_from-fold_index (suc dim) ds is (flat * d + i) w.1

-- A view of the whole array reads the cell at the place of the index.
view_mut-reads :
    (a : NdArray Cell) (is : List ℕ)
    → IsWithin a.dims is
    → view_index a (view_mut a.dims) is ≡ get_elem? a.cells (fold_index 0 a.dims is)
unfolding view_index view_mut flat_index
view_mut-reads a is w = rw (view_index, flat_from-fold_index 0 a.dims is 0 w) refl

module _ (t : Texts) (d : IrDesc) (inputs : List ChoiceInstance) (rs : List Rule)
    (values : List (ℕ × List ValueSet)) where
  abbrev pub sizes : List ℕ
  sizes = map (λ v. length v.1) values

  -- The cells are those of the indexes.
  abbrev Fill : List (List ℕ) → List Cell → Type 0
  Fill [] [] = Unit
  Fill [] (c ∷ cs) = ⊥
  Fill (is ∷ items) [] = ⊥
  Fill (is ∷ items) (c ∷ cs) = (cell_at t d inputs rs values is ≡ some c) × Fill items cs

  fill-Fill :
      (n : ℕ) (r : NdRange)
      → ((is : List ℕ) → is ∈ visit n r → (c : Cell) × (cell_at t d inputs rs values is ≡ some c))
      → (cs : List Cell) × (fill t d inputs rs values n r ≡ some cs) × Fill (visit n r) cs
  unfolding fill
  fill-Fill zero r h = ([], refl, tt)
  fill-Fill (suc n) r h = elim (Option-cases (range_next r).0) [
    | inl over ↦ (
      [],
      rw (fill, over) refl,
      subst (λ o. Fill (elim o [ none ↦ [] | some item ↦ item ∷ visit n (range_next r).1 ]) [])
          (sym over) tt,
    )
    | inr (item, here) ↦
        let all : visit (suc n) r ≡ item ∷ visit n (range_next r).1 =
          ap
            (λ o. elim o as (λ x. List (List ℕ)) [
              | none ↦ []
              | some item ↦ item ∷ visit n (range_next r).1
            ])
            here in
        let (c, e) = h item (subst (λ xs. item ∈ xs) (sym all) (inl refl)) in
        let (cs, es, rest) =
          fill-Fill n (range_next r).1 (λ is m. h is (subst (λ xs. is ∈ xs) (sym all) (inr m))) in
        (c ∷ cs, rw (fill, here, e, es) refl, subst (λ xs. Fill xs (c ∷ cs)) (sym all) (e, rest))
  ]

  length-Fill : (items : List (List ℕ)) (cs : List Cell) → Fill items cs → length cs ≡ length items
  length-Fill [] [] f = refl
  length-Fill [] (c ∷ cs) f = absurd f
  length-Fill (is ∷ items) [] f = absurd f
  length-Fill (is ∷ items) (c ∷ cs) f = ap suc (length-Fill items cs f.1)

  -- The cell at place `k` is that of the index with this place.
  get_elem?-Fill :
      (ds : List ℕ) (i n : ℕ) (items : List (List ℕ)) (cs : List Cell) (is : List ℕ)
      → Fill items cs
      → map (fold_index 0 ds) items ≡ count i n
      → is ∈ items
      → (k : ℕ) × (fold_index 0 ds is ≡ i + k) × (get_elem? cs k ≡ cell_at t d inputs rs values is)
  get_elem?-Fill ds i n [] cs is f e m = absurd m
  get_elem?-Fill ds i n (js ∷ items) [] is f e m = absurd f
  get_elem?-Fill ds i zero (js ∷ items) (c ∷ cs) is f e m = ground arith
  get_elem?-Fill ds i (suc n) (js ∷ items) (c ∷ cs) is f e (inl same) = (
    0,
    ap (fold_index 0 ds) same ∙ heads e ∙ omega arith,
    sym (ap (cell_at t d inputs rs values) same ∙ f.0),
  )
  get_elem?-Fill ds i (suc n) (js ∷ items) (c ∷ cs) is f e (inr m) =
      let (k, place, cell) = get_elem?-Fill ds (i + 1) n items cs is f.1 (tails e) m in
      (suc k, omega (arith, place), cell)

  Fill-All :
      (P : Cell → Type 0) (items : List (List ℕ)) (cs : List Cell)
      → Fill items cs
      → ((is : List ℕ) (c : Cell) → is ∈ items → cell_at t d inputs rs values is ≡ some c → P c)
      → (j : ℕ) (c : Cell) → get_elem? cs j ≡ some c
      → P c
  Fill-All P [] [] f h j c e = ground arith
  Fill-All P [] (x ∷ cs) f h j c e = absurd f
  Fill-All P (is ∷ items) [] f h j c e = absurd f
  Fill-All P (is ∷ items) (x ∷ cs) f h zero c e = h is c (inl refl) (f.0 ∙ e)
  Fill-All P (is ∷ items) (x ∷ cs) f h (suc j) c e =
      Fill-All P items cs f.1 (λ js y m. h js y (inr m)) j c e

  abbrev pub table_of : List Cell → TruthTable
  table_of cs = record { values = values; cells = record { dims = sizes; cells = cs } }

  -- The table has the cell of each index, and every cell is that of an index.
  pub record IsTableOf (cs : List Cell) : Type 0 where
    pub reads :
        (is : List ℕ)
        → IsWithin sizes is
        → view_index (table_of cs).cells (view_mut sizes) is ≡ cell_at t d inputs rs values is
    pub all_cells :
        (j : ℕ) (c : Cell)
        → get_elem? cs j ≡ some c
        → (is : List ℕ) × IsWithin sizes is × (cell_at t d inputs rs values is ≡ some c)

  pub build-IsTableOf :
      dimensions d 0 inputs ≡ some values
      → ((is : List ℕ)
          → IsWithin sizes is
          → (c : Cell) × (cell_at t d inputs rs values is ≡ some c))
      → (cs : List Cell) × (build t d inputs rs ≡ some (table_of cs)) × IsTableOf cs
  unfolding build new
  build-IsTableOf known h =
      let n = suc (product sizes) in
      let (within, in_order) = visit-range_new sizes n (omega arith) in
      let items = visit n (range_new sizes) in
      let inside : (is : List ℕ) → is ∈ items → IsWithin sizes is =
        λ is m. All-mem (IsWithin sizes) items is within m in
      let (cs, filled, f) = fill-Fill n (range_new sizes) (λ is m. h is (inside is m)) in
      let len : length cs ≡ product sizes =
        length-Fill items cs f
        ∙ sym (length-map (fold_index 0 sizes) items)
        ∙ ap length in_order
        ∙ length-count 0 (product sizes) in
      let full = ==-refl (length cs) (product sizes) len in
      (
        cs,
        rw (build, known, filled, full) refl,
        record {
          reads = λ is w.
              let (k, place, cell) =
                get_elem?-Fill sizes 0 (product sizes) items cs is f in_order
                  (mem-visit sizes is n (omega arith) w) in
              view_mut-reads (table_of cs).cells is w
              ∙ ap (get_elem? cs) (place ∙ omega arith)
              ∙ cell;
          all_cells =
              Fill-All
                (λ c.
                  (is : List ℕ) × IsWithin sizes is × (cell_at t d inputs rs values is ≡ some c))
                items cs f (λ is c m e. (is, inside is m, e));
        },
      )
