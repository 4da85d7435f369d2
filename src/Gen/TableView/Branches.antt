-- ===== src/Gen/TableView/Branches.antt =====
-- telamon-gen/src/truth_table.rs: `TableView::instantiate`, the views of a table for each value of an input.
use telamon.Prelude.{
  ℕ, zero, suc, ◌+◌, ◌<◌, ◌≡◌, refl, sym, ap, ◌∙◌, subst, inl, inr, true, false, Option, none, some,
  List, [], ◌∷◌, arith, ltb, if◌then◌else◌, Bool-cases, length, get_elem?, get_elem?-lt, All,
}
use mathlib.Core.Option.{some-injective}
use telamon.Gen.Values.{ValueSet, enum, integer}
use telamon.Gen.TruthTable.{Cell}
use telamon.Gen.TableView.{TableView, zip_views, instantiate, num_inputs}
use telamon.Gen.TableView.Cells.{IsReadable}
use telamon.Utils.NdArray.{NdArray, ViewMut, view_index, remove, insert}
use telamon.Utils.NdArray.Enumeration.{IsWithin}
use telamon.Utils.NdArray.Views.{IsFixed, IsPart, split-IsPart}

abbrev pub IsEnumSet : ValueSet → Type 0
IsEnumSet (enum name values inputs) = Unit
IsEnumSet (integer f i c u) = ⊥

-- The view has a dimension for each input in `dim_map`, as long as the input has values, and a cell at each
-- index.
pub record IsTable (a : NdArray Cell) (t : TableView) : Type 0 where
  pub fixed : IsFixed 0 t.view.fixed_indexes
  pub size : length t.view.fixed_indexes + length t.view.bounds ≡ length a.dims
  pub dims : length t.dim_map ≡ length t.view.bounds
  pub sets :
      (pos dim : ℕ)
      → get_elem? t.dim_map pos ≡ some dim
      → (i : ℕ) × (sets : List ValueSet) × (get_elem? t.values dim ≡ some (i, sets))
        × (get_elem? t.view.bounds pos ≡ some (length sets))
        × All IsEnumSet sets
  pub readable : IsReadable a t.view

-- Where a place is once place `k` is removed.
abbrev pub skip : ℕ → ℕ → ℕ
skip k p = if ltb p k then p else suc p

pub get_elem?-remove {ℓ} :
    {A : Type ℓ} (xs : List A) (k p : ℕ)
    → k < length xs
    → get_elem? (remove xs k) p ≡ get_elem? xs (skip k p)
get_elem?-remove [] k p l = absurd (omega arith)
get_elem?-remove (x ∷ xs) zero p l = let e : ltb p 0 ≡ false = ground arith in rw e refl
get_elem?-remove (x ∷ xs) (suc k) zero l = let e : ltb 0 (suc k) ≡ true = ground arith in rw e refl
get_elem?-remove (x ∷ xs) (suc k) (suc p) l = elim (Bool-cases (ltb p k)) [
  | inl e ↦
      let f : ltb (suc p) (suc k) ≡ true = ground arith in
      rw f (get_elem?-remove xs k p (omega (arith, l)) ∙ rw e refl)
  | inr e ↦
      let f : ltb (suc p) (suc k) ≡ false = ground arith in
      rw f (get_elem?-remove xs k p (omega (arith, l)) ∙ rw e refl)
]

pub length-remove {ℓ} :
    {A : Type ℓ} (xs : List A) (k : ℕ) → k < length xs → suc (length (remove xs k)) ≡ length xs
length-remove [] k l = absurd (omega arith)
length-remove (x ∷ xs) zero l = refl
length-remove (x ∷ xs) (suc k) l = ap suc (length-remove xs k (omega (arith, l)))

pub IsWithin-length : (ds is : List ℕ) → IsWithin ds is → length is ≡ length ds
IsWithin-length [] [] w = refl
IsWithin-length [] (i ∷ is) w = absurd w
IsWithin-length (d ∷ ds) [] w = absurd w
IsWithin-length (d ∷ ds) (i ∷ is) w = ap suc (IsWithin-length ds is w.1)

insert-IsWithin :
    (ds is : List ℕ) (k len idx : ℕ)
    → get_elem? ds k ≡ some len
    → idx < len
    → IsWithin (remove ds k) is
    → IsWithin ds (insert is k idx)
insert-IsWithin [] is k len idx e l w = ground arith
insert-IsWithin (d ∷ ds) is zero len idx e l w =
    (subst (λ n. idx < n) (sym (some-injective _ _ e)) l, w)
insert-IsWithin (d ∷ ds) [] (suc k) len idx e l w = absurd w
insert-IsWithin (d ∷ ds) (i ∷ is) (suc k) len idx e l w =
    (w.0, insert-IsWithin ds is k len idx e l w.1)

pub remove-IsWithin :
    (ds is : List ℕ) (k idx : ℕ)
    → get_elem? is k ≡ some idx
    → IsWithin ds is
    → IsWithin (remove ds k) (remove is k) × (insert (remove is k) k idx ≡ is)
remove-IsWithin [] [] k idx e w = ground arith
remove-IsWithin [] (i ∷ is) k idx e w = absurd w
remove-IsWithin (d ∷ ds) [] k idx e w = absurd w
remove-IsWithin (d ∷ ds) (i ∷ is) zero idx e w =
    (w.1, ap (λ n. n ∷ is) (sym (some-injective _ _ e)))
remove-IsWithin (d ∷ ds) (i ∷ is) (suc k) idx e w =
    let (v, same) = remove-IsWithin ds is k idx e w.1 in ((w.0, v), ap (λ t. i ∷ t) same)

-- `b` is the branch of `t` for place `idx` of the values at position `pos`.
pub record IsBranch (a : NdArray Cell) (t : TableView) (pos idx : ℕ) (u : TableView) : Type 0 where
  pub table : IsTable a u
  pub values : u.values ≡ t.values
  pub dim_map : u.dim_map ≡ remove t.dim_map pos
  pub bounds : u.view.bounds ≡ remove t.view.bounds pos
  pub reads :
      (is : List ℕ)
      → length is + 1 ≡ length t.view.bounds
      → view_index a u.view is ≡ view_index a t.view (insert is pos idx)

module _ (a : NdArray Cell) (t : TableView) (h : IsTable a t) (pos : ℕ)
    (below : pos < num_inputs t) where
  part-IsBranch :
      (idx len : ℕ) (w : ViewMut)
      → get_elem? t.view.bounds pos ≡ some len
      → idx < len
      → IsPart a.dims t.view w pos idx
      → IsBranch a t pos idx
          (record { values = t.values; dim_map = remove t.dim_map pos; view = w })
  unfolding num_inputs view_index
  part-IsBranch idx len w e l part =
      let in_dims : pos < length t.dim_map = below in
      let in_bounds = get_elem?-lt t.view.bounds pos e in
      let shorter = length-remove t.view.bounds pos in_bounds in
      let kept = ap (λ (ds : List ℕ). length ds) part.bounds in
      let reads = λ (is : List ℕ) (n : length is + 1 ≡ length t.view.bounds).
        ap
          (λ (o : Option ℕ). elim o as (λ x. Option Cell) [
            | none ↦ none
            | some i ↦ get_elem? a.cells i
          ])
          (part.reads is n) in
      record {
        table = record {
          fixed = part.fixed;
          size = omega (arith, part.added, kept, shorter, h.size);
          dims = omega (arith, length-remove t.dim_map pos in_dims, kept, shorter, h.dims);
          sets = λ p dim at.
              let (i, sets, at_values, at_bounds, enums) =
                h.sets (skip pos p) dim (sym (get_elem?-remove t.dim_map pos p in_dims) ∙ at) in
              (
                i,
                sets,
                at_values,
                ap (λ ds. get_elem? ds p) part.bounds
                    ∙ get_elem?-remove t.view.bounds pos p in_bounds
                    ∙ at_bounds,
                enums,
              );
          readable = λ is within.
              let w' = subst (λ ds. IsWithin ds is) part.bounds within in
              let (c, read) =
                h.readable (insert is pos idx)
                  (insert-IsWithin t.view.bounds is pos len idx e l w') in
              (
                c,
                reads is (omega (arith, IsWithin-length (remove t.view.bounds pos) is w', shorter))
                    ∙ read,
              );
        };
        values = refl;
        dim_map = refl;
        bounds = part.bounds;
        reads = reads;
      }

  -- The branches stand for the values in their order, from place `idx` on.
  abbrev pub AreBranches : ℕ → List ValueSet → List (ValueSet × TableView) → Type 0
  AreBranches idx [] [] = Unit
  AreBranches idx [] (b ∷ bs) = ⊥
  AreBranches idx (s ∷ sets) [] = ⊥
  AreBranches idx (s ∷ sets) (b ∷ bs) =
      (b.0 ≡ s) × IsBranch a t pos idx b.1 × AreBranches (suc idx) sets bs

  zip_views-AreBranches :
      (idx len : ℕ) (sets : List ValueSet) (views : List ViewMut)
      → get_elem? t.view.bounds pos ≡ some len
      → length sets ≡ length views
      → idx + length sets ≡ len
      → ((i : ℕ)
          → i < length sets
          → (w : ViewMut) × (get_elem? views i ≡ some w) × IsPart a.dims t.view w pos (idx + i))
      → (bs : List (ValueSet × TableView)) × (zip_views t.values (remove t.dim_map pos) sets views
          ≡ some bs)
        × AreBranches idx sets bs
  zip_views-AreBranches idx len [] [] e same l part = ([], refl, tt)
  zip_views-AreBranches idx len [] (v ∷ views) e same l part = absurd (omega (arith, same))
  zip_views-AreBranches idx len (s ∷ sets) [] e same l part = absurd (omega (arith, same))
  zip_views-AreBranches idx len (s ∷ sets) (v ∷ views) e same l part =
      let (w, first, is_part) = part 0 (omega arith) in
      let here = part-IsBranch idx len v e (omega (arith, l)) (
        subst (λ x. IsPart a.dims t.view x pos idx) (sym (some-injective _ _ first))
          (subst (λ (n : ℕ). IsPart a.dims t.view w pos n) (omega arith) is_part)) in
      let (bs, zipped, later) =
        zip_views-AreBranches (suc idx) len sets views e (omega (arith, same)) (omega (arith, l))
          (λ i below'.
            let (x, read, p) = part (suc i) (omega (arith, below')) in
            (x, read, subst (λ (n : ℕ). IsPart a.dims t.view x pos n) (omega arith) p)) in
      (
        (s, record { values = t.values; dim_map = remove t.dim_map pos; view = v }) ∷ bs,
        rw zipped refl,
        (refl, here, later),
      )

  -- `instantiate` does not panic, and returns the branch of each value.
  pub instantiate-AreBranches :
      (dim i : ℕ) (sets : List ValueSet)
      → get_elem? t.dim_map pos ≡ some dim
      → get_elem? t.values dim ≡ some (i, sets)
      → get_elem? t.view.bounds pos ≡ some (length sets)
      → (bs : List (ValueSet × TableView)) × (instantiate t pos ≡ some bs) × AreBranches 0 sets bs
  unfolding instantiate
  instantiate-AreBranches dim i sets at_dim at_values at_bounds =
      let (views, parted, count, part) =
        split-IsPart a.dims t.view pos (length sets) h.fixed h.size at_bounds in
      let (bs, zipped, branches) =
        zip_views-AreBranches 0 (length sets) sets views at_bounds (sym count) (omega arith) (λ i l.
          let (w, read, p) = part i l in
          (w, read, subst (λ (n : ℕ). IsPart a.dims t.view w pos n) (omega arith) p)) in
      (bs, rw (instantiate, at_dim, at_values, parted) zipped, branches)
