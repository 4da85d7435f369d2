-- ===== src/Gen/TableView/Splitting.antt =====
-- telamon-gen/src/truth_table.rs: the branches of one position of a table, for given values of the inputs.
use telamon.Prelude.{
  ℕ, zero, suc, ◌+◌, ◌<◌, ◌≡◌, refl, sym, ap, ◌∙◌, subst, inl, inr, Bool, ◌&&◌, some, List, [], ◌∷◌,
  arith, ltb, leb, ◌==◌, ==→≡, Bool-cases, length, get_elem?, get_elem?-total, get_elem?-lt, All,
}
use telamon.Prelude.Keys.{any}
use mathlib.Core.Option.{some-injective}
use telamon.Gen.Values.{ValueSet}
use telamon.Gen.TruthTable.{Cell}
use telamon.Gen.TableView.{TableView, num_inputs, Instance}
use telamon.Gen.TableView.Branches.{
  IsEnumSet, IsTable, IsBranch, AreBranches, get_elem?-remove, length-remove, remove-IsWithin,
  IsWithin-length, skip,
}
use telamon.Gen.TableView.Meaning.{Meaning, HasDistinctKeys, passes_cell}
use telamon.Gen.TableView.Merging.{passes_at, passes_branch, passes_instance, IsSub}
use telamon.Utils.NdArray.{NdArray, view_index, remove, insert}
use telamon.Utils.NdArray.Enumeration.{IsWithin}

-- The inputs of the table have the values at the index `is`: of the values of an input, only this one is
-- selected.
pub record IsAt (m : Meaning) (t : TableView) (is : List ℕ) : Type 0 where
  pub within : IsWithin t.view.bounds is
  pub selected :
      (pos dim i k : ℕ) (sets : List ValueSet)
      → get_elem? t.dim_map pos ≡ some dim
      → get_elem? t.values dim ≡ some (i, sets)
      → get_elem? is pos ≡ some k
      → (j : ℕ) (s : ValueSet) → get_elem? sets j ≡ some s
      → m.selects i s ≡ (j == k)

module _ (a : NdArray Cell) (m : Meaning) (t : TableView) (is : List ℕ) where
  -- What the table says of the value.
  abbrev pub passes_table : Bool
  passes_table = passes_cell m (view_index a t.view is)

  -- What is known of one position.
  pub record Position (pos : ℕ) : Type 0 where
    pub dim : ℕ
    pub input : ℕ
    pub sets : List ValueSet
    pub k : ℕ
    pub at_dim : get_elem? t.dim_map pos ≡ some dim
    pub at_values : get_elem? t.values dim ≡ some (input, sets)
    pub at_bounds : get_elem? t.view.bounds pos ≡ some (length sets)
    pub at_index : get_elem? is pos ≡ some k
    pub enums : All IsEnumSet sets
    pub below : k < length sets
    pub rest : IsWithin (remove t.view.bounds pos) (remove is pos)
    pub whole : insert (remove is pos) pos k ≡ is

  bound_of :
      (ds js : List ℕ) (pos len k : ℕ)
      → IsWithin ds js
      → get_elem? ds pos ≡ some len
      → get_elem? js pos ≡ some k
      → k < len
  bound_of [] js pos len k w e f = ground arith
  bound_of (d ∷ ds) [] pos len k w e f = absurd w
  bound_of (d ∷ ds) (j ∷ js) zero len k w e f =
      omega (arith, w.0, some-injective _ _ e, some-injective _ _ f)
  bound_of (d ∷ ds) (j ∷ js) (suc pos) len k w e f = bound_of ds js pos len k w.1 e f

  pub Position-of : (pos : ℕ) → IsTable a t → IsAt m t is → pos < num_inputs t → Position pos
  unfolding num_inputs
  Position-of pos h at below =
      let (dim, at_dim) = get_elem?-total t.dim_map pos below in
      let (i, sets, at_values, at_bounds, enums) = h.sets pos dim at_dim in
      let (k, at_index) = get_elem?-total is pos (
        omega (
          arith,
          IsWithin-length t.view.bounds is at.within,
          get_elem?-lt t.view.bounds pos at_bounds,
        )) in
      let (rest, whole) = remove-IsWithin t.view.bounds is pos k at_index at.within in
      record {
        dim = dim;
        input = i;
        sets = sets;
        k = k;
        at_dim = at_dim;
        at_values = at_values;
        at_bounds = at_bounds;
        at_index = at_index;
        enums = enums;
        below = bound_of t.view.bounds is pos (length sets) k at.within at_bounds at_index;
        rest = rest;
        whole = whole;
      }

  module _ (distinct : HasDistinctKeys a) (h : IsTable a t) (at : IsAt m t is) (pos : ℕ)
      (below : pos < num_inputs t) (p : Position pos) where
    -- A branch has the rest of the index.
    pub branch-IsAt :
        (idx : ℕ) (u : TableView)
        → IsBranch a t pos idx u
        → IsAt m u (remove is pos) × (suc (num_inputs u) ≡ num_inputs t)
    unfolding num_inputs
    branch-IsAt idx u b = (
      record {
        within = subst (λ ds. IsWithin ds (remove is pos)) (sym b.bounds) p.rest;
        selected = λ q dim i k sets at_dim at_values at_index.
            at.selected (skip pos q) dim i k sets
              (sym (get_elem?-remove t.dim_map pos q (get_elem?-lt t.dim_map pos p.at_dim))
                ∙ ap (λ ds. get_elem? ds q) (sym b.dim_map)
                ∙ at_dim)
              (ap (λ vs. get_elem? vs dim) (sym b.values) ∙ at_values)
              (sym (get_elem?-remove is pos q (get_elem?-lt is pos p.at_index)) ∙ at_index);
      },
      ap (λ (ds : List ℕ). suc (length ds)) b.dim_map
          ∙ length-remove t.dim_map pos (get_elem?-lt t.dim_map pos p.at_dim),
    )

    -- The parameters of a merge at this position.
    abbrev pub passes_rest : TableView → Bool
    passes_rest = passes_at a m distinct p.input (remove t.view.bounds pos) (remove is pos) p.rest

    abbrev pub IsSubRest : TableView → Type 0
    IsSubRest = IsSub a m distinct p.input (remove t.view.bounds pos) (remove is pos) p.rest

    abbrev pub passes_branch_rest : ValueSet × TableView → Bool
    passes_branch_rest =
        passes_branch a m distinct p.input (remove t.view.bounds pos) (remove is pos) p.rest

    abbrev pub passes_instance_rest : Instance → Bool
    passes_instance_rest =
        passes_instance a m distinct p.input (remove t.view.bounds pos) (remove is pos) p.rest

    pub branch-IsSub :
        (idx : ℕ) (sets : List ValueSet) (bs : List (ValueSet × TableView))
        → All IsEnumSet sets
        → AreBranches a t h pos below idx sets bs
        → All (λ b. IsSubRest b.1 × IsEnumSet b.0) bs
    branch-IsSub idx [] [] e b = tt
    branch-IsSub idx [] (c ∷ bs) e b = absurd b
    branch-IsSub idx (s ∷ sets) [] e b = absurd b
    branch-IsSub idx (s ∷ sets) (c ∷ bs) e b = (
      ((b.1.table.readable, b.1.bounds), subst IsEnumSet (sym b.0) e.0),
      branch-IsSub (suc idx) sets bs e.1 b.2,
    )

    -- The branch at the index passes as the table does.
    pub branch-passes : (u : TableView) → IsBranch a t pos p.k u → passes_rest u ≡ passes_table
    branch-passes u b = ap (passes_cell m) (
        b.reads (remove is pos) (
          omega (
            arith,
            IsWithin-length (remove t.view.bounds pos) (remove is pos) p.rest,
            length-remove t.view.bounds pos (get_elem?-lt t.view.bounds pos p.at_bounds),
          ))
        ∙ ap (view_index a t.view) p.whole)

    -- The branches pass as the table does: the one at the index is selected, and no other.
    pub any-branches :
        (idx : ℕ) (sets : List ValueSet) (bs : List (ValueSet × TableView))
        → AreBranches a t h pos below idx sets bs
        → ((j : ℕ) (s : ValueSet)
            → get_elem? sets j ≡ some s
            → m.selects p.input s ≡ (idx + j == p.k))
        → any passes_branch_rest bs ≡ ((leb idx p.k && ltb p.k (idx + length sets)) && passes_table)
    any-branches idx [] [] b s = ground arith
    any-branches idx [] (c ∷ bs) b s = absurd b
    any-branches idx (x ∷ sets) [] b s = absurd b
    any-branches idx (x ∷ sets) (c ∷ bs) b s =
        let first : m.selects p.input c.0 ≡ (idx == p.k) =
          ap (m.selects p.input) b.0 ∙ s 0 x refl ∙ ap (λ (n : ℕ). n == p.k) (omega arith) in
        let later =
          any-branches (suc idx) sets bs b.2
            (λ j y e. s (suc j) y e ∙ ap (λ (n : ℕ). n == p.k) (omega arith)) in
        elim (Bool-cases (idx == p.k)) [
          | inl here ↦
              let same =
                branch-passes c.1
                  (subst (λ (n : ℕ). IsBranch a t pos n c.1) (==→≡ idx p.k here) b.1) in
              ground arith
          | inr other ↦ ground arith
        ]

    -- A branch by its place.
    pub IsBranch-at :
        (idx n : ℕ) (sets : List ValueSet) (bs : List (ValueSet × TableView))
        (b : ValueSet × TableView)
        → AreBranches a t h pos below idx sets bs
        → get_elem? bs n ≡ some b
        → IsBranch a t pos (idx + n) b.1
    IsBranch-at idx n [] [] b h' e = ground arith
    IsBranch-at idx n [] (c ∷ bs) b h' e = absurd h'
    IsBranch-at idx n (s ∷ sets) [] b h' e = absurd h'
    IsBranch-at idx zero (s ∷ sets) (c ∷ bs) b h' e =
        subst (λ (n : ℕ). IsBranch a t pos n b.1) (omega arith)
          (subst (λ x. IsBranch a t pos idx x.1) (some-injective _ _ e) h'.1)
    IsBranch-at idx (suc n) (s ∷ sets) (c ∷ bs) b h' e =
        subst (λ (n : ℕ). IsBranch a t pos n b.1) (omega arith)
          (IsBranch-at (suc idx) n sets bs b h'.2 e)

    pub length-branches :
        (idx : ℕ) (sets : List ValueSet) (bs : List (ValueSet × TableView))
        → AreBranches a t h pos below idx sets bs
        → length bs ≡ length sets
    length-branches idx [] [] b = refl
    length-branches idx [] (c ∷ bs) b = absurd b
    length-branches idx (s ∷ sets) [] b = absurd b
    length-branches idx (s ∷ sets) (c ∷ bs) b = ap suc (length-branches (suc idx) sets bs b.2)
