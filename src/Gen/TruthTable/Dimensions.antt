-- ===== src/Gen/TruthTable/Dimensions.antt =====
-- telamon-gen/src/truth_table.rs: the dimensions of a table, and the values of the inputs at an index.
use telamon.Prelude.{
  ℕ, zero, suc, ◌+◌, ◌≡◌, refl, sym, ap, ◌∙◌, subst, true, some, List, [], ◌∷◌, ◌++◌, map, arith,
  ◌==◌, ==→≡, if◌then◌else◌, Bool-cases, Ordering-cases, inl, inr, All, length, get_elem?,
  get_elem?-total,
}
use mathlib.Core.Option.{some-injective}
use telamon.Prelude.Keys.{nat_key, nat_same}
use telamon.Gen.Variables.{find}
use telamon.Gen.Enums.{Enum, has}
use telamon.Gen.Values.{ValueSet, enum, get_enum, enum_values, is_empty}
use telamon.Gen.Filter.{
  IrDesc, Choice, ChoiceInstance, ChoiceDef, enum_def, counter, number, get_choice, as_enum,
  enum_of_input, Mapping,
}
use telamon.Gen.TruthTable.{singletons, dimension, dimensions, mapping_at}
use telamon.Gen.TableView.Branches.{IsEnumSet}
use telamon.Utils.NdArray.Enumeration.{IsWithin}

pub get_enum-name :
    (enums : List Enum) (name : ℕ) (e : Enum) → get_enum enums name ≡ some e → e.name ≡ name
unfolding get_enum
get_enum-name [] name e h = ground arith
get_enum-name (x ∷ enums) name e h = elim (Bool-cases (x.name == name)) [
  | inl here ↦
      ap (λ (y : Enum). y.name)
        (sym
          (some-injective _ _ (sym (ap (λ b. if b then some x else get_enum enums name) here) ∙ h)))
      ∙ ==→≡ x.name name here
  | inr there ↦
      get_enum-name enums name e
        (sym (ap (λ b. if b then some x else get_enum enums name) there) ∙ h)
]

pub get_elem?-singletons :
    (name : ℕ) (vs : List ℕ) (k : ℕ) (s : ValueSet)
    → get_elem? (singletons name vs) k ≡ some s
    → (x : ℕ) × (get_elem? vs k ≡ some x) × (s ≡ enum name (x ∷ []) [])
unfolding singletons enum_values
get_elem?-singletons name [] k s e = ground arith
get_elem?-singletons name (v ∷ vs) zero s e = (v, refl, sym (some-injective _ _ e))
get_elem?-singletons name (v ∷ vs) (suc k) s e = get_elem?-singletons name vs k s e

pub singletons-get_elem? :
    (name : ℕ) (vs : List ℕ) (k x : ℕ)
    → get_elem? vs k ≡ some x
    → get_elem? (singletons name vs) k ≡ some (enum name (x ∷ []) [])
unfolding singletons enum_values
singletons-get_elem? name [] k x e = ground arith
singletons-get_elem? name (v ∷ vs) zero x e =
    ap (λ (y : ℕ). some (enum name (y ∷ []) [])) (some-injective _ _ e)
singletons-get_elem? name (v ∷ vs) (suc k) x e = singletons-get_elem? name vs k x e

pub singletons-IsEnumSet : (name : ℕ) (vs : List ℕ) → All IsEnumSet (singletons name vs)
unfolding singletons enum_values
singletons-IsEnumSet name [] = tt
singletons-IsEnumSet name (v ∷ vs) = (tt, singletons-IsEnumSet name vs)

has-get_elem? : (vs : List ℕ) (k x : ℕ) → get_elem? vs k ≡ some x → has x vs ≡ true
has-get_elem? [] k x e = ground arith
has-get_elem? (v ∷ vs) zero x e = let same = some-injective _ _ e in ground arith
has-get_elem? (v ∷ vs) (suc k) x e = ground (arith, has-get_elem? vs k x e)

pub get_elem?-has : (vs : List ℕ) (x : ℕ) → has x vs ≡ true → (k : ℕ) × (get_elem? vs k ≡ some x)
get_elem?-has [] x e = ground arith
get_elem?-has (v ∷ vs) x e = elim (Bool-cases (x == v)) [
  | inl here ↦ (0, ap some (sym (==→≡ x v here)))
  | inr there ↦ let (k, f) = get_elem?-has vs x (ground arith) in (suc k, f)
]

pub find-All :
    (P : ℕ → ValueSet → Type 0) (i : ℕ) (m : Mapping) (s : ValueSet)
    → All (λ p. P p.0 p.1) m
    → find i m ≡ some s
    → P i s
unfolding find
find-All P i [] s h e = ground arith
find-All P i ((j, u) ∷ m) s h e = elim (Ordering-cases (nat_key.cmp i j)) [
  | inl o ↦ find-All P i m s h.1 (ground (arith, o, e))
  | inr (inl o) ↦
      let value : u ≡ s = some-injective _ _ (ground (arith, o, e)) in
      subst (P i) value (subst (λ (n : ℕ). P n u) (sym (nat_same i j o)) h.0)
  | inr (inr o) ↦ find-All P i m s h.1 (ground (arith, o, e))
]

module _ (d : IrDesc) (inputs : List ChoiceInstance) where
  abbrev pub HasEnum : ChoiceDef → Type 0
  HasEnum (enum_def name) = (e : Enum) × (get_enum d.enums name ≡ some e)
  HasEnum (counter v) = Unit
  HasEnum (number u) = Unit

  -- The choice of an input, and the enum of the choice, are in the description.
  abbrev pub IsDescribed : ChoiceInstance → Type 0
  IsDescribed input_ =
      (choice : Choice) × (get_choice d input_.choice ≡ some choice) × HasEnum choice.choice_def

  -- An input with an enum, and each of the values of the enum.
  abbrev pub IsDimension : ℕ × List ValueSet → Type 0
  IsDimension (i, sets) =
      (e : Enum) × (enum_of_input d inputs i ≡ some e)
      × (get_enum d.enums e.name ≡ some e)
      × (sets ≡ singletons e.name e.values)

  -- An input with one value of its enum.
  abbrev pub IsChosen : ℕ → ValueSet → Type 0
  IsChosen i s =
      (e : Enum) × (enum_of_input d inputs i ≡ some e)
      × (get_enum d.enums e.name ≡ some e)
      × (x : ℕ) × (s ≡ enum e.name (x ∷ []) [])
      × (has x e.values ≡ true)

  AreDimensions : ℕ → ChoiceInstance → Type 0
  AreDimensions id input_ =
      (here : List (ℕ × List ValueSet)) × (dimension d id input_ ≡ some here) × All IsDimension here

  of_definition :
      (id : ℕ) (input_ : ChoiceInstance) (choice : Choice) (choice_def : ChoiceDef)
      → get_elem? inputs id ≡ some input_
      → get_choice d input_.choice ≡ some choice
      → is_empty choice.fragile_values ≡ true
      → choice.choice_def ≡ choice_def
      → HasEnum choice_def
      → AreDimensions id input_
  unfolding AreDimensions dimension enum_of_input as_enum
  of_definition id input_ choice (counter v) at found empty same w =
      ([], rw (dimension, found, empty, same) refl, tt)
  of_definition id input_ choice (number u) at found empty same w =
      ([], rw (dimension, found, empty, same) refl, tt)
  of_definition id input_ choice (enum_def name) at found empty same (e, named) =
      let here = get_enum-name d.enums name e named in
      let again = subst (λ (n : ℕ). get_enum d.enums n ≡ some e) (sym here) named in
      (
        (id, singletons name e.values) ∷ [],
        rw (dimension, found, empty, same, named) refl,
        (
          (
            e,
            rw (enum_of_input, at, found, same) named,
            again,
            ap (λ (n : ℕ). singletons n e.values) (sym here),
          ),
          tt,
        ),
      )

  dimension-AreDimensions :
      (id : ℕ) (input_ : ChoiceInstance)
      → get_elem? inputs id ≡ some input_
      → IsDescribed input_
      → AreDimensions id input_
  unfolding AreDimensions dimension
  dimension-AreDimensions id input_ at (choice, found, w) =
      elim (Bool-cases (is_empty choice.fragile_values)) [
        | inl empty ↦ of_definition id input_ choice choice.choice_def at found empty refl w
        | inr fragile ↦ ([], rw (dimension, found, fragile) refl, tt)
      ]

  All-append :
      (xs ys : List (ℕ × List ValueSet))
      → All IsDimension xs
      → All IsDimension ys
      → All IsDimension (xs ++ ys)
  All-append [] ys h k = k
  All-append (x ∷ xs) ys h k = (h.0, All-append xs ys h.1 k)

  at_place :
      (k n : ℕ) (x : ChoiceInstance)
      → k ≡ n
      → get_elem? inputs k ≡ some x
      → get_elem? inputs n ≡ some x
  at_place k n x e f = sym (ap (λ (j : ℕ). get_elem? inputs j) e) ∙ f

  pub dimensions-IsDimension :
      (id : ℕ) (rest : List ChoiceInstance)
      → ((k : ℕ) (x : ChoiceInstance)
          → get_elem? rest k ≡ some x
          → get_elem? inputs (id + k) ≡ some x)
      → All IsDescribed rest
      → (values : List (ℕ × List ValueSet)) × (dimensions d id rest ≡ some values)
        × All IsDimension values
  unfolding dimensions AreDimensions
  dimensions-IsDimension id [] at w = ([], refl, tt)
  dimensions-IsDimension id (input_ ∷ rest) at w =
      let (here, e, are) =
        dimension-AreDimensions id input_
          (at_place (id + 0) id input_ (omega arith) (at 0 input_ refl)) w.0 in
      let (later, es, more) =
        dimensions-IsDimension (id + 1) rest
          (λ k x f. at_place (id + suc k) (id + 1 + k) x (omega arith) (at (suc k) x f)) w.1 in
      (here ++ later, rw (e, es) refl, All-append here later are more)

  -- The values at an index within the bounds.
  pub mapping_at-IsChosen :
      (values : List (ℕ × List ValueSet)) (is : List ℕ)
      → All IsDimension values
      → IsWithin (map (λ v. length v.1) values) is
      → (m : Mapping) × (mapping_at is values ≡ some m) × All (λ p. IsChosen p.0 p.1) m
  unfolding mapping_at
  mapping_at-IsChosen [] [] h w = ([], refl, tt)
  mapping_at-IsChosen [] (k ∷ is) h w = absurd w
  mapping_at-IsChosen (v ∷ values) [] h w = absurd w
  mapping_at-IsChosen ((i, sets) ∷ values) (k ∷ is) h w =
      let (e, found, named, all_sets) = h.0 in
      let (s, here) = get_elem?-total sets k w.0 in
      let (x, read, single) =
        get_elem?-singletons e.name e.values k s
          (sym (ap (λ (xs : List ValueSet). get_elem? xs k) all_sets) ∙ here) in
      let (m, later, chosen) = mapping_at-IsChosen values is h.1 w.1 in
      (
        (i, s) ∷ m,
        rw (here, later) refl,
        ((e, found, named, x, single, has-get_elem? e.values k x read), chosen),
      )
