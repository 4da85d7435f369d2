-- ===== src/Gen/TruthTable/Building.antt =====
-- telamon-gen/src/truth_table.rs: `Cell::build`, against the rules that it is given.
use telamon.Prelude.{
  ℕ, ◌≡◌, refl, sym, ap, ◌∙◌, ◌≢◌, inl, inr, Bool, true, false, not, ◌&&◌, ◌||◌, Option, some, List,
  [], ◌∷◌, ◌++◌, arith, All,
}
use telamon.Gen.Values.{ValueSet, intersect}
use telamon.Gen.Filter.{◌>>=◌, IrDesc, ChoiceInstance, Rule}
use telamon.Gen.TruthTable.{RuleConds, RuleConds-discrete, get, narrow, add_alternatives, put_rule}
use telamon.Gen.TruthTable.Equality.{
  Entries, AreDistinct, allows, allows_entry, allows-cons, get_here, get_later, key_cases, and_swap,
}
use telamon.Gen.Evaluation.{Context, in_set, applies, passes_rule}
use telamon.Gen.Evaluation.Sets.{is_enum, IsNarrowed, intersect-IsNarrowed}

abbrev pub rule_of : RuleConds → ValueSet → Rule
rule_of key s = record { conditions = key.0; alternatives = s; set_constraints = key.1 }

rotate : (x y z : Bool) → ((x && y) && z) ≡ ((x && z) && y)
rotate x y z = ground arith

assoc : (x y z : Bool) → (x && (y && z)) ≡ ((x && y) && z)
assoc x y z = ground arith

meet : (x a b c : Bool) → c ≡ (a && b) → (not x || c) ≡ ((not x || a) && (not x || b))
meet x a b c e = ground arith

swap_front : (x y z : Bool) → ((x && y) && z) ≡ (y && (x && z))
swap_front x y z = ground arith

module _ (kind : Bool) where
  abbrev pub HasKind : ValueSet → Type 0
  HasKind s = is_enum s ≡ kind

  abbrev pub HaveKind : Entries → Type 0
  HaveKind entries = All (λ e. All HasKind e.1) entries

module _ (d : IrDesc) (inputs : List ChoiceInstance) (c : Context) (kind : Bool) where
  abbrev ok : ℕ → Rule → Bool
  ok v = passes_rule d inputs c v

  -- The sets let pass what they did and what `s` does.
  abbrev IsAdded : RuleConds → ValueSet → List ValueSet → List ValueSet → Type 0
  IsAdded key s sets sets' =
      (v : ℕ)
      → allows_entry (ok v) key sets' ≡ (allows_entry (ok v) key sets && ok v (rule_of key s))

  abbrev IsNarrowedIn : RuleConds → ValueSet → List ValueSet → Bool × List ValueSet → Type 0
  IsNarrowedIn key s sets (true, sets') = IsAdded key s sets sets'
  IsNarrowedIn key s sets (false, sets') = sets' ≡ sets

  narrow-here :
      (key : RuleConds) (alternatives set new : ValueSet) (sets : List ValueSet)
      → ((v : ℕ)
          → in_set d inputs c new v ≡ (in_set d inputs c set v && in_set d inputs c alternatives v))
      → IsAdded key alternatives (set ∷ sets) (new ∷ sets)
  unfolding passes_rule
  narrow-here key alternatives set new sets h v =
      let here =
        meet (applies d inputs c key.0 key.1) (in_set d inputs c set v)
          (in_set d inputs c alternatives v) (in_set d inputs c new v) (h v) in
      ap (λ b. b && allows_entry (ok v) key sets) here
      ∙ rotate (ok v (rule_of key set)) (ok v (rule_of key alternatives))
          (allows_entry (ok v) key sets)

  narrow-IsNarrowedIn :
      (key : RuleConds) (alternatives : ValueSet) (sets : List ValueSet)
      → HasKind kind alternatives
      → All (HasKind kind) sets
      → (r : Bool × List ValueSet) × (narrow sets alternatives ≡ some r)
        × All (HasKind kind) r.1
        × IsNarrowedIn key alternatives sets r
  unfolding narrow
  narrow-IsNarrowedIn key alternatives [] k ks = ((false, []), refl, tt, refl)
  narrow-IsNarrowedIn key alternatives (set ∷ sets) k ks =
      let (r, e, is_narrowed) = intersect-IsNarrowed d inputs c set alternatives (ks.0 ∙ sym k) in
      let (q, later, all_kind, rest) = narrow-IsNarrowedIn key alternatives sets k ks.1 in
      after_intersect r e is_narrowed q later all_kind rest
    where
      after_intersect :
          (r : Bool × ValueSet)
          → intersect set alternatives ≡ some r
          → IsNarrowed d inputs c set alternatives r
          → (q : Bool × List ValueSet) → narrow sets alternatives ≡ some q
          → All (HasKind kind) q.1
          → IsNarrowedIn key alternatives sets q
          → (r : Bool × List ValueSet) × (narrow (set ∷ sets) alternatives ≡ some r)
            × All (HasKind kind) r.1
            × IsNarrowedIn key alternatives (set ∷ sets) r
      after_intersect (true, u) e (values, same) q later all_kind rest = (
        (true, u ∷ sets),
        rw e refl,
        (same ∙ ks.0, ks.1),
        narrow-here key alternatives set u sets values,
      )
      after_intersect (false, u) e same (true, sets') later all_kind rest = (
        (true, u ∷ sets'),
        rw (e, later) refl,
        (ap is_enum same ∙ ks.0, all_kind),
        λ v.
            ap (λ x. ok v (rule_of key x) && allows_entry (ok v) key sets') same
            ∙ ap (λ b. ok v (rule_of key set) && b) (rest v)
            ∙ assoc (ok v (rule_of key set)) (allows_entry (ok v) key sets)
                (ok v (rule_of key alternatives)),
      )
      after_intersect (false, u) e same (false, sets') later all_kind rest = (
        (false, u ∷ sets'),
        rw (e, later) refl,
        (ap is_enum same ∙ ks.0, all_kind),
        ap (λ x. x ∷ sets') same ∙ ap (λ xs. set ∷ xs) rest,
      )

  allows_entry-push :
      (v : ℕ) (key : RuleConds) (s : ValueSet) (sets : List ValueSet)
      → allows_entry (ok v) key (sets ++ s ∷ [])
        ≡ (allows_entry (ok v) key sets && ok v (rule_of key s))
  allows_entry-push v key s [] = ground arith
  allows_entry-push v key s (x ∷ sets) =
      ap (λ b. ok v (rule_of key x) && b) (allows_entry-push v key s sets)
      ∙ assoc (ok v (rule_of key x)) (allows_entry (ok v) key sets) (ok v (rule_of key s))

  All-push :
      (s : ValueSet) (sets : List ValueSet)
      → All (HasKind kind) sets
      → HasKind kind s
      → All (HasKind kind) (sets ++ s ∷ [])
  All-push s [] h k = (k, tt)
  All-push s (x ∷ sets) h k = (h.0, All-push s sets h.1 k)

  add_alternatives-IsAdded :
      (key : RuleConds) (alternatives : ValueSet) (sets : List ValueSet)
      → HasKind kind alternatives
      → All (HasKind kind) sets
      → (sets' : List ValueSet) × (add_alternatives sets alternatives ≡ some sets')
        × All (HasKind kind) sets'
        × IsAdded key alternatives sets sets'
  unfolding add_alternatives
  add_alternatives-IsAdded key alternatives sets k ks =
      let (r, e, kinds, result) = narrow-IsNarrowedIn key alternatives sets k ks in
      after_narrow r e kinds result
    where
      after_narrow :
          (r : Bool × List ValueSet)
          → narrow sets alternatives ≡ some r
          → All (HasKind kind) r.1
          → IsNarrowedIn key alternatives sets r
          → (sets' : List ValueSet) × (add_alternatives sets alternatives ≡ some sets')
            × All (HasKind kind) sets'
            × IsAdded key alternatives sets sets'
      after_narrow (true, sets') e kinds result =
          (sets', rw (add_alternatives, e) refl, kinds, result)
      after_narrow (false, sets') e kinds result = (
        sets' ++ alternatives ∷ [],
        rw (add_alternatives, e) refl,
        All-push alternatives sets' kinds k,
        λ v.
            allows_entry-push v key alternatives sets'
            ∙ ap (λ xs. allows_entry (ok v) key xs && ok v (rule_of key alternatives)) result,
      )

  -- A rule is added to the entries.
  abbrev pub IsPut : RuleConds → ValueSet → Entries → Entries → Type 0
  IsPut key s entries entries' =
      HaveKind kind entries'
      × AreDistinct entries'
      × ((j : RuleConds) → j ≢ key → get j entries' ≡ get j entries)
      × ((v : ℕ) → allows (ok v) entries' ≡ (ok v (rule_of key s) && allows (ok v) entries))

  IsPut-here :
      (key k : RuleConds) (s : ValueSet) (sets sets' : List ValueSet) (entries : Entries)
      → key ≡ k
      → HaveKind kind ((k, sets) ∷ entries)
      → AreDistinct ((k, sets) ∷ entries)
      → All (HasKind kind) sets'
      → IsAdded k s sets sets'
      → IsPut key s ((k, sets) ∷ entries) ((k, sets') ∷ entries)
  IsPut-here key k s sets sets' entries e h a kinds added = (
    (kinds, h.1),
    a,
    λ j n.
        (get_later j k sets' entries (λ q. n (q ∙ sym e))).0
        ∙ sym (get_later j k sets entries (λ q. n (q ∙ sym e))).0,
    λ v.
        allows-cons (ok v) k sets' entries
        ∙ ap (λ b. b && allows (ok v) entries) (added v)
        ∙ swap_front (allows_entry (ok v) k sets) (ok v (rule_of k s)) (allows (ok v) entries)
        ∙ ap (λ b. ok v (rule_of k s) && b) (sym (allows-cons (ok v) k sets entries))
        ∙ ap (λ x. ok v (rule_of x s) && allows (ok v) ((k, sets) ∷ entries)) (sym e),
  )

  IsPut-later :
      (key k : RuleConds) (s : ValueSet) (sets : List ValueSet) (entries entries' : Entries)
      → key ≢ k
      → HaveKind kind ((k, sets) ∷ entries)
      → AreDistinct ((k, sets) ∷ entries)
      → IsPut key s entries entries'
      → IsPut key s ((k, sets) ∷ entries) ((k, sets) ∷ entries')
  IsPut-later key k s sets entries entries' n h a p = (
    (h.0, p.0),
    (p.2 k (λ q. n (sym q)) ∙ a.0, p.1),
    λ j m. elim (key_cases j k) [
      | inl e ↦ (get_here j k sets entries' e).0 ∙ sym (get_here j k sets entries e).0
      | inr o ↦ (get_later j k sets entries' o).0 ∙ p.2 j m ∙ sym (get_later j k sets entries o).0
    ],
    λ v.
        allows-cons (ok v) k sets entries'
        ∙ ap (λ b. allows_entry (ok v) k sets && b) (p.3 v)
        ∙ and_swap (allows_entry (ok v) k sets) (ok v (rule_of key s)) (allows (ok v) entries)
        ∙ ap (λ b. ok v (rule_of key s) && b) (sym (allows-cons (ok v) k sets entries)),
  )

  pub put_rule-IsPut :
      (key : RuleConds) (s : ValueSet) (entries : Entries)
      → HasKind kind s
      → HaveKind kind entries
      → AreDistinct entries
      → (entries' : Entries) × (put_rule key s entries ≡ some entries')
        × IsPut key s entries entries'
  unfolding put_rule get
  put_rule-IsPut key s [] k h a = (
    (key, s ∷ []) ∷ [],
    refl,
    (((k, tt), tt), (refl, tt), λ j n. (get_later j key (s ∷ []) [] n).0, λ v. refl),
  )
  put_rule-IsPut key s ((j, sets) ∷ entries) k h a =
      let (sets', e, kinds, added) = add_alternatives-IsAdded j s sets k h.0 in
      let (entries', later, rest) = put_rule-IsPut key s entries k h.1 a.1 in
      elim (RuleConds-discrete key j)
        as (λ dec.
          (entries'' : Entries) × (elim dec as (λ x. Option Entries) [
            | yes q ↦ add_alternatives sets s >>= λ sets'. some ((j, sets') ∷ entries)
            | no q ↦ put_rule key s entries >>= λ entries'. some ((j, sets) ∷ entries')
          ]
            ≡ some entries'')
          × IsPut key s ((j, sets) ∷ entries) entries'') [
            | yes q ↦ (
              (j, sets') ∷ entries,
              rw e refl,
              IsPut-here key j s sets sets' entries q h a kinds added,
            )
            | no q ↦ (
              (j, sets) ∷ entries',
              rw later refl,
              IsPut-later key j s sets entries entries' q h a rest,
            )
          ]
