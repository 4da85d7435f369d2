-- ===== src/Gen/TruthTable/Indexes.antt =====
-- telamon-gen/src/truth_table.rs: the index of the values of the inputs.
use telamon.Prelude.{
  ℕ, zero, suc, ◌<◌, ◌≡◌, refl, sym, ap, ◌∙◌, subst, true, Option, none, some, List, [], ◌∷◌, map,
  arith, ◌==◌, ==→≡, Bool-cases, inl, inr, All, length, get_elem?, get_elem?-lt,
}
use mathlib.Core.Option.{some-injective}
use telamon.Prelude.Keys.{nat_key}
use telamon.Gen.Variables.{find}
use telamon.Gen.Enums.{Enum, has}
use telamon.Gen.Values.{ValueSet, enum, integer, get_enum}
use telamon.Gen.Filter.{IrDesc, ChoiceInstance, enum_of_input, Mapping}
use telamon.Gen.Normalize.{Texts}
use telamon.Gen.TruthTable.{singletons, mapping_at}
use telamon.Gen.TruthTable.Dimensions.{
  IsDimension, IsChosen, find-All, get_elem?-singletons, singletons-get_elem?, get_elem?-has,
}
use telamon.Gen.Evaluation.{Context, selects}
use telamon.Gen.Evaluation.Conditions.{IsContext}
use telamon.Gen.Evaluation.Instances.{IsMapping}
use telamon.Utils.NdArray.Enumeration.{IsWithin}

-- The one value of a known input, or the one that the input had.
abbrev pub known_value : Option ValueSet → ℕ → ℕ
known_value (some (enum name (x ∷ xs) is)) y = x
known_value (some (enum name [] is)) y = y
known_value (some (integer f is codes u)) y = y
known_value none y = y

-- The context with the values of the mapping.
abbrev pub at_mapping : Mapping → Context → Context
unfolding find
at_mapping m c = record c { value = λ i. known_value (find i m) (c.value i) }

-- No value stands twice.
abbrev pub IsUnique : Enum → Type 0
IsUnique e = (j k x : ℕ) → get_elem? e.values j ≡ some x → get_elem? e.values k ≡ some x → j ≡ k

same_place :
    (e : Enum)
    → IsUnique e
    → (j k x y : ℕ) → get_elem? e.values j ≡ some x
    → get_elem? e.values k ≡ some y
    → has y (x ∷ []) ≡ (j == k)
same_place e unique j k x y at_j at_k = elim (Bool-cases (y == x)) [
  | inl same ↦
      let k_x = at_k ∙ ap some (==→≡ y x same) in let places = unique j k x at_j k_x in ground arith
  | inr other ↦ elim (Bool-cases (j == k)) [
    | inl same ↦
        let values =
          some-injective _ _ (sym at_j ∙ ap (get_elem? e.values) (==→≡ j k same) ∙ at_k) in
        ground arith
    | inr apart ↦ ground arith
  ]
]

module _ (t : Texts) (d : IrDesc) (inputs : List ChoiceInstance) (c : Context)
    (h : IsContext t d inputs c) where
  at_mapping-valued :
      (m : Mapping) (i : ℕ) (e : Enum) (o : Option ValueSet)
      → find i m ≡ o
      → All (λ p. IsChosen d inputs p.0 p.1) m
      → enum_of_input d inputs i ≡ some e
      → has (known_value o (c.value i)) e.values ≡ true
  at_mapping-valued m i e none there chosen found = h.valued i e found
  at_mapping-valued m i e (some s) there chosen found =
      let (e', found', named, x, single, valid) = find-All (IsChosen d inputs) i m s chosen there in
      let same : e' ≡ e = some-injective _ _ (sym found' ∙ found) in
      subst (λ (u : ValueSet). has (known_value (some u) (c.value i)) e.values ≡ true) (sym single)
        (subst (λ (z : Enum). has x z.values ≡ true) same valid)

  -- With the values of a mapping, the context is one for the mapping.
  pub at_mapping-IsContext :
      (m : Mapping)
      → All (λ p. IsChosen d inputs p.0 p.1) m
      → IsContext t d inputs (at_mapping m c) × IsMapping t d inputs (at_mapping m c) m
  unfolding at_mapping
  at_mapping-IsContext m chosen = (
    record {
      involutive = h.involutive;
      valued = λ i e found. at_mapping-valued m i e (find i m) refl chosen found;
      code_kept = h.code_kept;
      code_value_kept = h.code_value_kept;
    },
    λ i s there.
        let (e, found, named, x, single, valid) = find-All (IsChosen d inputs) i m s chosen there in
        (
          e,
          found,
          named,
          single
              ∙ ap (λ (y : ℕ). enum e.name (y ∷ []) [])
                  (sym (ap (λ o. known_value o (c.value i)) (there ∙ ap some single))),
        ),
  )

  -- The index gives the place of the value of each input.
  abbrev pub IsIndexOf : List (ℕ × List ValueSet) → List ℕ → Type 0
  IsIndexOf [] [] = Unit
  IsIndexOf [] (k ∷ is) = ⊥
  IsIndexOf (v ∷ values) [] = ⊥
  IsIndexOf ((i, sets) ∷ values) (k ∷ is) =
      ((e : Enum) × (enum_of_input d inputs i ≡ some e)
        × (get_enum d.enums e.name ≡ some e)
        × (sets ≡ singletons e.name e.values)
        × (get_elem? e.values k ≡ some (c.value i)))
      × IsIndexOf values is

  pub index_of :
      (values : List (ℕ × List ValueSet))
      → All (IsDimension d inputs) values
      → (is : List ℕ) × IsWithin (map (λ v. length v.1) values) is × IsIndexOf values is
  index_of [] w = ([], tt, tt)
  index_of ((i, sets) ∷ values) w =
      let (e, found, named, all_sets) = w.0 in
      let (k, place) = get_elem?-has e.values (c.value i) (h.valued i e found) in
      let (is, within, rest) = index_of values w.1 in
      let here =
        get_elem?-lt (singletons e.name e.values) k
          (singletons-get_elem? e.name e.values k (c.value i) place) in
      (
        k ∷ is,
        (subst (λ (xs : List ValueSet). k < length xs) (sym all_sets) here, within),
        ((e, found, named, all_sets, place), rest),
      )

  abbrev IsTrue : ℕ → ValueSet → Type 0
  IsTrue i s =
      (e : Enum) × (enum_of_input d inputs i ≡ some e)
      × (get_enum d.enums e.name ≡ some e)
      × (s ≡ enum e.name (c.value i ∷ []) [])

  mapping_at-IsTrue :
      (values : List (ℕ × List ValueSet)) (is : List ℕ)
      → IsIndexOf values is
      → (m : Mapping) × (mapping_at is values ≡ some m) × All (λ p. IsTrue p.0 p.1) m
  unfolding mapping_at
  mapping_at-IsTrue [] [] w = ([], refl, tt)
  mapping_at-IsTrue [] (k ∷ is) w = absurd w
  mapping_at-IsTrue (v ∷ values) [] w = absurd w
  mapping_at-IsTrue ((i, sets) ∷ values) (k ∷ is) w =
      let (e, found, named, all_sets, place) = w.0 in
      let (m, later, rest) = mapping_at-IsTrue values is w.1 in
      let here =
        ap (λ (xs : List ValueSet). get_elem? xs k) all_sets
        ∙ singletons-get_elem? e.name e.values k (c.value i) place in
      (
        (i, enum e.name (c.value i ∷ []) []) ∷ m,
        rw (here, later) refl,
        ((e, found, named, refl), rest),
      )

  pub mapping_at-IsMapping :
      (values : List (ℕ × List ValueSet)) (is : List ℕ)
      → IsIndexOf values is
      → (m : Mapping) × (mapping_at is values ≡ some m) × IsMapping t d inputs c m
  mapping_at-IsMapping values is w =
      let (m, e, all) = mapping_at-IsTrue values is w in
      (m, e, λ i s there. find-All IsTrue i m s all there)

  -- Of the values of an input, only the one at the index is selected.
  pub IsIndexOf-selects :
      (unique : (e : Enum) → get_enum d.enums e.name ≡ some e → IsUnique e)
      → (values : List (ℕ × List ValueSet)) (is : List ℕ) → IsIndexOf values is
      → (pos i k : ℕ) (sets : List ValueSet) → get_elem? values pos ≡ some (i, sets)
      → get_elem? is pos ≡ some k
      → (j : ℕ) (s : ValueSet) → get_elem? sets j ≡ some s
      → selects d inputs c i s ≡ (j == k)
  unfolding selects
  IsIndexOf-selects unique [] is w pos i k sets at_pos at_index j s there = ground arith
  IsIndexOf-selects unique (v ∷ values) [] w pos i k sets at_pos at_index j s there = absurd w
  IsIndexOf-selects unique ((i', sets') ∷ values) (k' ∷ is) w zero i k sets at_pos at_index j s
        there =
      let (e, found, named, all_sets, place) = w.0 in
      let pair = some-injective _ _ at_pos in
      let read : get_elem? (singletons e.name e.values) j ≡ some s =
        ap (λ (xs : List ValueSet). get_elem? xs j) (sym all_sets ∙ ap (λ p. p.1) pair) ∙ there in
      let (x, value, single) = get_elem?-singletons e.name e.values j s read in
      ap (λ (u : ValueSet). selects d inputs c i u) single
      ∙ ap (λ (n : ℕ). has (c.value n) (x ∷ [])) (sym (ap (λ p. p.0) pair))
      ∙ same_place e (unique e named) j k' x (c.value i') value place
      ∙ ap (λ (n : ℕ). j == n) (some-injective _ _ at_index)
  IsIndexOf-selects unique (v ∷ values) (k' ∷ is) w (suc pos) i k sets at_pos at_index j s there =
      IsIndexOf-selects unique values is w.1 pos i k sets at_pos at_index j s there
