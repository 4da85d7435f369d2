-- ===== src/Gen/TruthTable/CellAt.antt =====
-- telamon-gen/src/truth_table.rs: the cell of an index, built from the rules with the values of the index.
use telamon.Prelude.{
  ℕ, ◌≡◌, refl, ap, ◌∙◌, Bool, true, not, ◌&&◌, ◌||◌, Option, none, some, List, [], ◌∷◌, arith, All,
}
use telamon.Prelude.Keys.{every}
use telamon.Gen.Values.{ValueSet}
use telamon.Gen.Filter.{
  Condition, IrDesc, ChoiceInstance, Mapping, Rule, instantiate_conditions, instantiate,
}
use telamon.Gen.Normalize.{Texts}
use telamon.Gen.TruthTable.{Cell, instantiate_all, mapping_at, cell_at}
use telamon.Gen.TruthTable.Equality.{AreDistinct, allows}
use telamon.Gen.TruthTable.CellRules.{IsRule, pass, build_cell-allows}
use telamon.Gen.Evaluation.{Context, holds, in_set, passes_rule}
use telamon.Gen.Evaluation.Conditions.{IsContext}
use telamon.Gen.Evaluation.Instances.{IsMapping}
use telamon.Gen.Evaluation.RuleInstances.{
  IsValueOf, IsFound, instantiate_conditions-holds, instantiate_set-in_set,
}

module _ (d : IrDesc) (inputs : List ChoiceInstance) (kind : Bool) (v : ℕ) where
  -- A rule for the choice, of which `v` is a value.
  abbrev pub IsRuleFor : Rule → Type 0
  IsRuleFor r = IsRule d inputs kind r × IsValueOf d v r.alternatives

module _ (t : Texts) (d : IrDesc) (inputs : List ChoiceInstance) (c : Context) (kind : Bool)
    (h : IsContext t d inputs c) (m : Mapping) (known : IsMapping t d inputs c m) (v : ℕ) where
  -- A rule that is left lets `v` pass if the rule did, and one that is dropped did not apply.
  abbrev IsInstance : Rule → Option Rule → Type 0
  IsInstance r none = passes_rule d inputs c v r ≡ true
  IsInstance r (some r') =
      IsRule d inputs kind r' × (passes_rule d inputs c v r' ≡ passes_rule d inputs c v r)

  instantiate-IsInstance :
      (r : Rule)
      → IsRuleFor d inputs kind v r
      → (r' : Option Rule) × (instantiate d inputs m r ≡ some r') × IsInstance r r'
  unfolding instantiate passes_rule
  instantiate-IsInstance r w =
      let (found, e, f) =
        instantiate_conditions-holds t d inputs c m h known r.conditions w.0.typed in
      after_conditions found e f
    where
      after_conditions :
          (found : Option (List Condition))
          → instantiate_conditions d inputs m r.conditions ≡ some found
          → IsFound t d inputs c m r.conditions found
          → (r' : Option Rule) × (instantiate d inputs m r ≡ some r') × IsInstance r r'
      after_conditions none e f = (none, rw e refl, ground (arith, f))
      after_conditions (some left) e f =
          let (s, given, kept_kind, same) =
            instantiate_set-in_set t d inputs c m known v r.alternatives w.1 in
          (
            some (record {
              conditions = left;
              alternatives = s;
              set_constraints = r.set_constraints;
            }),
            rw (e, given) refl,
            (
              record { typed = f.0; has_kind = kept_kind ∙ w.0.has_kind },
              ap (λ b. not (b && c.is_in r.set_constraints) || in_set d inputs c s v) f.1
                  ∙ ap
                      (λ b.
                        not (every (holds d inputs c) r.conditions && c.is_in r.set_constraints)
                        || b)
                      same,
            ),
          )

  instantiate_all-pass :
      (rs : List Rule)
      → All (IsRuleFor d inputs kind v) rs
      → (rs' : List Rule) × (instantiate_all d inputs m rs ≡ some rs')
        × All (IsRule d inputs kind) rs'
        × (pass t d inputs c kind v rs' ≡ pass t d inputs c kind v rs)
  unfolding instantiate_all
  instantiate_all-pass [] w = ([], refl, tt, refl)
  instantiate_all-pass (r ∷ rs) w =
      let (r', e, is_instance) = instantiate-IsInstance r w.0 in
      let (rs', es, are_rules, same) = instantiate_all-pass rs w.1 in
      after_rule r' e is_instance rs' es are_rules same
    where
      after_rule :
          (r' : Option Rule)
          → instantiate d inputs m r ≡ some r'
          → IsInstance r r'
          → (rs' : List Rule) → instantiate_all d inputs m rs ≡ some rs'
          → All (IsRule d inputs kind) rs'
          → pass t d inputs c kind v rs' ≡ pass t d inputs c kind v rs
          → (rs'' : List Rule) × (instantiate_all d inputs m (r ∷ rs) ≡ some rs'')
            × All (IsRule d inputs kind) rs''
            × (pass t d inputs c kind v rs'' ≡ pass t d inputs c kind v (r ∷ rs))
      after_rule none e passes rs' es are_rules same =
          (rs', rw (e, es) refl, are_rules, ground (arith, passes, same))
      after_rule (some here) e (is_rule, kept) rs' es are_rules same =
          (here ∷ rs', rw (e, es) refl, (is_rule, are_rules), ground (arith, kept, same))

  pub cell_at-allows :
      (values : List (ℕ × List ValueSet)) (index : List ℕ) (rs : List Rule)
      → mapping_at index values ≡ some m
      → All (IsRuleFor d inputs kind v) rs
      → (cell : Cell) × (cell_at t d inputs rs values index ≡ some cell)
        × AreDistinct cell.entries
        × (allows (passes_rule d inputs c v) cell.entries ≡ every (passes_rule d inputs c v) rs)
  unfolding cell_at
  cell_at-allows values index rs e w =
      let (rs', es, are_rules, same) = instantiate_all-pass rs w in
      let (cell, built, distinct, total) = build_cell-allows t d inputs c kind h rs' are_rules in
      (cell, rw (e, es) built, distinct, total v ∙ same)
