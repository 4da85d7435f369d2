-- ===== src/Gen/TableView/Meaning.antt =====
-- telamon-gen/src/truth_table.rs: what the cells of a table mean for one value of the choice.
use telamon.Prelude.{
  ℕ, ◌≡◌, refl, sym, ap, ◌∙◌, inl, inr, Bool, true, false, ◌||◌, Option, none, some, List, [], ◌∷◌,
  arith, Option-cases, get_elem?,
}
use telamon.Gen.Values.{ValueSet, enum, integer, is_empty, extend_set}
use telamon.Gen.Filter.{Rule}
use telamon.Gen.TruthTable.{Cell, unconditional}
use telamon.Gen.TruthTable.Equality.{AreDistinct, allows}
use telamon.Gen.TableView.{TableView}
use telamon.Gen.TableView.Branches.{IsEnumSet}
use telamon.Utils.NdArray.{NdArray, ViewMut, flat_index, view_index}

-- What a filter means for one value of the choice: which rules let it pass, and whether a set of values may
-- hold the value of an input.
pub record Meaning : Type 0 where
  pub ok : Rule → Bool
  pub selects : ℕ → ValueSet → Bool
  pub ok_empty :
      (r : Rule)
      → unconditional ≡ (r.conditions, r.set_constraints)
      → is_empty r.alternatives ≡ true
      → ok r ≡ false
  pub selects_extend :
      (i : ℕ) (s t u : ValueSet)
      → extend_set s t ≡ some u
      → selects i u ≡ (selects i s || selects i t)

abbrev pub passes_cell : Meaning → Option Cell → Bool
passes_cell m none = false
passes_cell m (some c) = allows m.ok c.entries

-- The keys of every cell are distinct.
abbrev pub HasDistinctKeys : NdArray Cell → Type 0
HasDistinctKeys a = (j : ℕ) (c : Cell) → get_elem? a.cells j ≡ some c → AreDistinct c.entries

pub view_index-AreDistinct :
    (a : NdArray Cell) (v : ViewMut) (is : List ℕ) (c : Cell)
    → HasDistinctKeys a
    → view_index a v is ≡ some c
    → AreDistinct c.entries
unfolding view_index
view_index-AreDistinct a v is c h e = elim (Option-cases (flat_index a.dims v is)) [
  | inl missing ↦ ground (
    arith,
    sym (
          ap
            (λ (o : Option ℕ). elim o as (λ x. Option Cell) [
              | none ↦ none
              | some i ↦ get_elem? a.cells i
            ])
            missing)
        ∙ e,
  )
  | inr (j, found) ↦ h j c (
      sym (
        ap
          (λ (o : Option ℕ). elim o as (λ x. Option Cell) [
            | none ↦ none
            | some i ↦ get_elem? a.cells i
          ])
          found)
      ∙ e)
]

pub extend_set-enum :
    (s t : ValueSet)
    → IsEnumSet s
    → IsEnumSet t
    → (u : ValueSet) × (extend_set s t ≡ some u) × IsEnumSet u
unfolding extend_set
extend_set-enum (enum n v i) (enum m w j) p q = (_, refl, tt)
extend_set-enum (enum n v i) (integer f j d u) p q = absurd q
extend_set-enum (integer f i c u) t p q = absurd p

pub or_assoc : (x y z : Bool) → (x || (y || z)) ≡ ((x || y) || z)
or_assoc x y z = ground arith

-- The branches that were seen, the last one first.
abbrev pub onto :
    List (ValueSet × TableView) → List (ValueSet × TableView) → List (ValueSet × TableView)
onto seen [] = seen
onto seen (b ∷ bs) = onto (b ∷ seen) bs
