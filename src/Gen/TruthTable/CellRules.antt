-- ===== src/Gen/TruthTable/CellRules.antt =====
-- telamon-gen/src/truth_table.rs: the loop of `Cell::build`, with the rules in their normal form.
use telamon.Prelude.{ℕ, ◌≡◌, refl, ap, ◌∙◌, Bool, not, ◌&&◌, ◌||◌, some, List, [], ◌∷◌, arith, All}
use telamon.Prelude.Keys.{every}
use telamon.Gen.Filter.{IrDesc, ChoiceInstance, Rule}
use telamon.Gen.Normalize.{Texts, normalize_rule, sort_conditions}
use telamon.Gen.TruthTable.{Cell, build_from, build_cell}
use telamon.Gen.TruthTable.Equality.{Entries, AreDistinct, allows}
use telamon.Gen.TruthTable.Building.{HasKind, HaveKind, put_rule-IsPut}
use telamon.Gen.Evaluation.{Context, in_set, passes_rule}
use telamon.Gen.Evaluation.Sets.{is_enum}
use telamon.Gen.Evaluation.Conditions.{
  IsContext, IsTyped, normalize_all-holds, every-sort_conditions,
}

in_turn : (x y p q : Bool) → p ≡ q → ((p && x) && y) ≡ (x && (q && y))
in_turn x y p q e = ground (arith, e)

module _ (d : IrDesc) (inputs : List ChoiceInstance) (kind : Bool) where
  -- The conditions of a rule are typed, and its alternatives are of the kind of the choice.
  pub record IsRule (r : Rule) : Type 0 where
    pub typed : All (IsTyped d inputs) r.conditions
    pub has_kind : HasKind kind r.alternatives

module _ (t : Texts) (d : IrDesc) (inputs : List ChoiceInstance) (c : Context) (kind : Bool) where
  abbrev pub pass : ℕ → List Rule → Bool
  pass v rs = every (passes_rule d inputs c v) rs

  -- `build_from` gives entries with distinct keys, which let a value pass just if those before and the
  -- rules do.
  abbrev IsBuilt : Entries → List Rule → Type 0
  IsBuilt entries rs =
      (built : Entries) × (build_from t d inputs entries rs ≡ some built)
      × AreDistinct built
      × ((v : ℕ)
          → allows (passes_rule d inputs c v) built
            ≡ (allows (passes_rule d inputs c v) entries && pass v rs))

  module _ (h : IsContext t d inputs c) where
    pub normalize_rule-passes_rule :
        (r : Rule)
        → IsRule d inputs kind r
        → (r' : Rule) × (normalize_rule t d inputs r ≡ some r')
          × (r'.alternatives ≡ r.alternatives)
          × ((v : ℕ) → passes_rule d inputs c v r' ≡ passes_rule d inputs c v r)
    unfolding normalize_rule passes_rule
    normalize_rule-passes_rule r w =
        let (ks, e, same) = normalize_all-holds t d inputs c h r.conditions w.typed in
        (
          record r { conditions = sort_conditions ks },
          rw e refl,
          refl,
          λ v.
              ap (λ b. not (b && c.is_in r.set_constraints) || in_set d inputs c r.alternatives v)
                (every-sort_conditions t d inputs c ks ∙ same),
        )

    build_from-IsBuilt :
        (entries : Entries) (rs : List Rule)
        → HaveKind kind entries
        → AreDistinct entries
        → All (IsRule d inputs kind) rs
        → IsBuilt entries rs
    unfolding build_from
    build_from-IsBuilt entries [] k a w = (entries, refl, a, λ v. ground arith)
    build_from-IsBuilt entries (r ∷ rs) k a w =
        let (r', e, alternatives, same) = normalize_rule-passes_rule r w.0 in
        let (entries', put, (kinds, distinct, others, added)) =
          put_rule-IsPut d inputs c kind (r'.conditions, r'.set_constraints) r'.alternatives entries
            (ap is_enum alternatives ∙ w.0.has_kind) k a in
        let (built, es, distinct', total) = build_from-IsBuilt entries' rs kinds distinct w.1 in
        (
          built,
          rw (e, put) es,
          distinct',
          λ v.
              total v
              ∙ ap (λ b. b && pass v rs) (added v)
              ∙ in_turn (allows (passes_rule d inputs c v) entries) (pass v rs)
                  (passes_rule d inputs c v r') (passes_rule d inputs c v r) (same v),
        )

    -- A cell is built without a panic, and its rules let a value pass just if all the given rules do.
    pub build_cell-allows :
        (rs : List Rule)
        → All (IsRule d inputs kind) rs
        → (cell : Cell) × (build_cell t d inputs rs ≡ some cell)
          × AreDistinct cell.entries
          × ((v : ℕ) → allows (passes_rule d inputs c v) cell.entries ≡ pass v rs)
    unfolding build_cell
    build_cell-allows rs w =
        let (built, e, distinct, total) = build_from-IsBuilt [] rs tt tt w in
        (record { entries = built }, rw e refl, distinct, total)
