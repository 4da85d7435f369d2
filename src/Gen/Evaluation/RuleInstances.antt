-- ===== src/Gen/Evaluation/RuleInstances.antt =====
-- telamon-gen/src/ir/filter.rs: `instantiate` of lists of conditions, sets of values and rules.
use telamon.Prelude.{
  ℕ, ◌≡◌, refl, sym, ap, ◌∙◌, Bool, true, false, not, ◌||◌, Option, none, some, List, [], ◌∷◌,
  arith, ◌==◌, Option-cases, inl, inr, All,
}
use telamon.Prelude.Keys.{any, every, any-extend, any-add, nat_key, pair_key, bool_key, extend, add}
use telamon.Gen.Variables.{find}
use telamon.Gen.Enums.{Enum, has}
use telamon.Gen.Values.{
  ValueSet, enum, integer, Input, get_enum, keep, inverse_set, instantiate_input, instantiate_found,
  instantiate_inputs, instantiate_set,
}
use telamon.Gen.Filter.{
  IrDesc, ChoiceInstance, Condition, code_cond, enum_cond, bool, cmp_code, cmp_input, Mapping,
  instantiate_condition, instantiate_conditions,
}
use telamon.Gen.Normalize.{Texts}
use telamon.Gen.Evaluation.{Context, xor, turned, holds, takes, in_set}
use telamon.Gen.Evaluation.Sets.{is_enum}
use telamon.Gen.Evaluation.Conditions.{IsContext, IsTyped, eq_comm, has-keep}
use telamon.Gen.Evaluation.Instances.{IsMapping, inversed_if-single, instantiate_condition-holds}

module _ (d : IrDesc) where
  -- A value that a set may hold: one of the enum of the set.
  abbrev pub IsValueOf : ℕ → ValueSet → Type 0
  IsValueOf v (enum name values is) =
      (e : Enum) × (get_enum d.enums name ≡ some e) × (has v e.values ≡ true)
  IsValueOf v (integer f is codes u) = Unit

module _ (t : Texts) (d : IrDesc) (inputs : List ChoiceInstance) (c : Context) (m : Mapping) where
  -- What the loop over the conditions finds: a condition that does not hold, or the conditions that are left.
  abbrev pub IsFound : List Condition → Option (List Condition) → Type 0
  IsFound ks none = every (holds d inputs c) ks ≡ false
  IsFound ks (some left) =
      All (IsTyped d inputs) left × (every (holds d inputs c) left ≡ every (holds d inputs c) ks)

  abbrev pub AreInstantiated : List Condition → Type 0
  AreInstantiated ks =
      (found : Option (List Condition)) × (instantiate_conditions d inputs m ks ≡ some found)
      × IsFound ks found

  -- The first condition is kept.
  kept :
      (k k' : Condition) (ks : List Condition) (found : Option (List Condition))
      → IsTyped d inputs k'
      → holds d inputs c k' ≡ holds d inputs c k
      → IsFound ks found
      → IsFound (k ∷ ks) (elim found [ none ↦ none | some left ↦ some (k' ∷ left) ])
  kept k k' ks none w e f = ground (arith, f)
  kept k k' ks (some left) w e f = ((w, f.0), ground (arith, e, f.1))

  after_condition :
      (k k' : Condition) (ks : List Condition) (found : Option (List Condition))
      → instantiate_condition d inputs m k ≡ some k'
      → IsTyped d inputs k'
      → holds d inputs c k' ≡ holds d inputs c k
      → instantiate_conditions d inputs m ks ≡ some found
      → IsFound ks found
      → AreInstantiated (k ∷ ks)
  unfolding instantiate_conditions holds
  after_condition k (bool true) ks none e w same later f =
      (none, rw (e, later) refl, ground (arith, same, f))
  after_condition k (bool true) ks (some left) e w same later f =
      (some left, rw (e, later) refl, (f.0, ground (arith, same, f.1)))
  after_condition k (bool false) ks found e w same later f = (none, rw e refl, ground (arith, same))
  after_condition k (code_cond code n) ks found e w same later f =
      (_, rw (e, later) refl, kept k (code_cond code n) ks found w same f)
  after_condition k (enum_cond i values n v) ks found e w same later f =
      (_, rw (e, later) refl, kept k (enum_cond i values n v) ks found w same f)
  after_condition k (cmp_code i code op) ks found e w same later f =
      (_, rw (e, later) refl, kept k (cmp_code i code op) ks found w same f)
  after_condition k (cmp_input lhs rhs op v) ks found e w same later f =
      (_, rw (e, later) refl, kept k (cmp_input lhs rhs op v) ks found w same f)

  module _ (h : IsContext t d inputs c) (known : IsMapping t d inputs c m) where
    pub instantiate_conditions-holds :
        (ks : List Condition) → All (IsTyped d inputs) ks → AreInstantiated ks
    unfolding instantiate_conditions
    instantiate_conditions-holds [] w = (some [], refl, (tt, refl))
    instantiate_conditions-holds (k ∷ ks) w =
        let (k', e, typed, same) = instantiate_condition-holds t d inputs c m h known k w.0 in
        let (found, later, f) = instantiate_conditions-holds ks w.1 in
        after_condition k k' ks found e typed same later f

  or_assoc : (x y z : Bool) → (x || (y || z)) ≡ ((x || y) || z)
  or_assoc x y z = ground arith

  module _ (known : IsMapping t d inputs c m) (e : Enum) (v : ℕ)
      (valid : has v e.values ≡ true) where
    -- Whether the values and the inputs give `v`.
    abbrev gives : List ℕ × List Input → Bool
    gives p = has v p.0 || any (takes d inputs c v) p.1

    -- A known input without inputs of its own, of value `x`.
    instantiate_input-gives :
        (negate : Bool) (x name : ℕ) (values : List ℕ) (new : List Input)
        → (r : List ℕ × List Input) × (instantiate_input e negate values new
              (some (enum name (x ∷ []) []))
            ≡ some r)
          × (gives r ≡ (gives (values, new) || xor negate (x == v)))
    unfolding extend instantiate_input
    instantiate_input-gives false x name values new =
        (_, refl, ground (arith, any-extend (λ y. v == y) values (x ∷ []), eq_comm x v))
    instantiate_input-gives true x name values new = (
      _,
      refl,
      ground (
        arith,
        any-extend (λ y. v == y) values (keep (λ y. not (has y (x ∷ []))) e.values),
        has-keep (λ y. not (has y (x ∷ []))) v e.values,
        eq_comm x v,
        valid,
      ),
    )

    turn :
        (i : ℕ) (negate is_inverse : Bool) (e' : Enum)
        → get_enum d.enums e'.name ≡ some e'
        → (values : List ℕ) (new : List Input)
        → instantiate_found d.enums e values new i negate is_inverse
            (some (enum e'.name (c.value i ∷ []) []))
          ≡ instantiate_input e negate values new
              (some (enum e'.name (turned (some e') is_inverse (c.value i) ∷ []) []))
    unfolding instantiate_found inverse_set
    turn i negate false e' named values new = refl
    turn i negate true e' named values new =
        ap (λ o. instantiate_input e negate values new o)
          (inversed_if-single t d inputs c m e' true (c.value i) named)

    instantiate_found-gives :
        (i : ℕ) (negate is_inverse : Bool) (values : List ℕ) (new : List Input)
        → (r : List ℕ × List Input) × (instantiate_found d.enums e values new i negate is_inverse
              (find i m)
            ≡ some r)
          × (gives r ≡ (gives (values, new) || takes d inputs c v (i, (negate, is_inverse))))
    unfolding add instantiate_found takes
    instantiate_found-gives i negate is_inverse values new = elim (Option-cases (find i m)) [
      | inl missing ↦ (
        (values, add (i, (negate, is_inverse)) new),
        ap (instantiate_found d.enums e values new i negate is_inverse) missing,
        ground (arith, any-add (takes d inputs c v) (i, (negate, is_inverse)) new),
      )
      | inr (s, there) ↦
          let (e', found, named, single) = known i s there in
          let (r, given, same) =
            instantiate_input-gives negate (turned (some e') is_inverse (c.value i)) e'.name values
              new in
          (
            r,
            ap (instantiate_found d.enums e values new i negate is_inverse) (there ∙ ap some single)
                ∙ turn i negate is_inverse e' named values new
                ∙ given,
            same
                ∙ ap (λ o. gives (values, new) || xor negate (turned o is_inverse (c.value i) == v))
                    (sym found),
          )
    ]

    instantiate_inputs-gives :
        (is : List Input) (values : List ℕ) (new : List Input)
        → (r : List ℕ × List Input) × (instantiate_inputs d.enums e m values new is ≡ some r)
          × (gives r ≡ (gives (values, new) || any (takes d inputs c v) is))
    unfolding instantiate_inputs
    instantiate_inputs-gives [] values new = ((values, new), refl, ground arith)
    instantiate_inputs-gives ((i, (negate, is_inverse)) ∷ is) values new =
        let (r, found, here) = instantiate_found-gives i negate is_inverse values new in
        let (r', rest, later) = instantiate_inputs-gives is r.0 r.1 in
        (
          r',
          rw (instantiate_inputs, found) rest,
          later
              ∙ ap (λ b. b || any (takes d inputs c v) is) here
              ∙ sym (
                  or_assoc (gives (values, new)) (takes d inputs c v (i, (negate, is_inverse)))
                    (any (takes d inputs c v) is)),
        )

  module _ (known : IsMapping t d inputs c m) where
    pub instantiate_set-in_set :
        (v : ℕ) (s : ValueSet)
        → IsValueOf d v s
        → (s' : ValueSet) × (instantiate_set d.enums m s ≡ some s')
          × (is_enum s' ≡ is_enum s)
          × (in_set d inputs c s' v ≡ in_set d inputs c s v)
    unfolding instantiate_set in_set
    instantiate_set-in_set v (integer f is codes u) w = (_, refl, refl, refl)
    instantiate_set-in_set v (enum name values is) (e, named, valid) =
        let ((values', is'), found, same) = instantiate_inputs-gives known e v valid is values [] in
        (enum name values' is', rw (instantiate_set, named, found) refl, refl, same ∙ ground arith)
