-- ===== src/Gen/TruthTable/Equality.antt =====
-- telamon-gen/src/truth_table.rs: `Cell::is_empty` and `==` of cells, against the rules of a cell.
use telamon.Prelude.{
  suc, ◌≡◌, refl, sym, ap, ◌∙◌, ◌≢◌, ◌⊎◌, inl, inr, Bool, true, false, ◌&&◌, Option, none, some,
  List, [], ◌∷◌, ◌++◌, map, arith, ==→≡, Bool-cases, Option-cases, length,
}
use telamon.Prelude.Keys.{any, every}
use telamon.Gen.Values.{ValueSet, is_empty}
use telamon.Gen.Filter.{Rule}
use telamon.Gen.TruthTable.{
  RuleConds, RuleConds-discrete, sets-discrete, Cell, get, rules_of, cell_is_empty, cell_eq,
  are_sets, has_empty, unconditional,
}
use mathlib.Core.Option.{some-injective}

abbrev pub Entries : Type 0
Entries = List (RuleConds × List ValueSet)

-- No key stands twice.
abbrev pub AreDistinct : Entries → Type 0
AreDistinct [] = Unit
AreDistinct ((key, sets) ∷ entries) = (get key entries ≡ none) × AreDistinct entries

-- The entries but the first one with the key.
abbrev without : RuleConds → Entries → Entries
without key [] = []
without key ((k, sets) ∷ entries) =
    let rest = without key entries in
    elim (RuleConds-discrete key k) [ yes h ↦ entries | no h ↦ (k, sets) ∷ rest ]

abbrev pub is_found : Entries → RuleConds × List ValueSet → Bool
is_found others p = are_sets p.1 (get p.0 others)

pub get_here :
    (key k : RuleConds) (sets : List ValueSet) (entries : Entries)
    → key ≡ k
    → (get key ((k, sets) ∷ entries) ≡ some sets) × (without key ((k, sets) ∷ entries) ≡ entries)
unfolding get
get_here key k sets entries e =
    elim (RuleConds-discrete key k)
      as (λ d.
        (elim d as (λ x. Option (List ValueSet)) [ yes h ↦ some sets | no h ↦ get key entries ]
          ≡ some sets)
        × (elim d as (λ x. Entries) [ yes h ↦ entries | no h ↦ (k, sets) ∷ without key entries ]
            ≡ entries)) [ yes h ↦ (refl, refl) | no h ↦ absurd (h e) ]

pub get_later :
    (key k : RuleConds) (sets : List ValueSet) (entries : Entries)
    → key ≢ k
    → (get key ((k, sets) ∷ entries) ≡ get key entries)
      × (without key ((k, sets) ∷ entries) ≡ (k, sets) ∷ without key entries)
unfolding get
get_later key k sets entries n =
    elim (RuleConds-discrete key k)
      as (λ d.
        (elim d as (λ x. Option (List ValueSet)) [ yes h ↦ some sets | no h ↦ get key entries ]
          ≡ get key entries)
        × (elim d as (λ x. Entries) [ yes h ↦ entries | no h ↦ (k, sets) ∷ without key entries ]
            ≡ (k, sets) ∷ without key entries)) [ yes h ↦ absurd (n h) | no h ↦ (refl, refl) ]

pub key_cases : (key k : RuleConds) → (key ≡ k) ⊎ (key ≢ k)
key_cases key k = elim (RuleConds-discrete key k) [ yes h ↦ inl h | no h ↦ inr h ]

get-without :
    (key j : RuleConds) (entries : Entries) → j ≢ key → get j (without key entries) ≡ get j entries
get-without key j [] n = refl
get-without key j ((k, sets) ∷ entries) n = elim (key_cases key k) [
  | inl e ↦
      let (a, b) = get_here key k sets entries e in
      let (c, d) = get_later j k sets entries (λ h. n (h ∙ sym e)) in ap (get j) b ∙ sym c
  | inr m ↦
      let (a, b) = get_later key k sets entries m in
      ap (get j) b ∙ elim (key_cases j k) [
        | inl e ↦
            (get_here j k sets (without key entries) e).0 ∙ sym (get_here j k sets entries e).0
        | inr o ↦
            (get_later j k sets (without key entries) o).0
            ∙ get-without key j entries n
            ∙ sym (get_later j k sets entries o).0
      ]
]

length-without :
    (key : RuleConds) (entries : Entries) {sets : List ValueSet}
    → get key entries ≡ some sets
    → suc (length (without key entries)) ≡ length entries
unfolding get
length-without key [] e = ground arith
length-without key ((k, s) ∷ entries) e = elim (key_cases key k) [
  | inl h ↦ ap (λ t. suc (length t)) (get_here key k s entries h).1
  | inr n ↦
      ap (λ t. suc (length t)) (get_later key k s entries n).1
      ∙ ap suc (length-without key entries (sym (get_later key k s entries n).0 ∙ e))
]

-- What is found in the other entries is found there without a key that is not its own.
every-without :
    (key : RuleConds) (entries others : Entries)
    → get key entries ≡ none
    → every (is_found others) entries ≡ true
    → every (is_found (without key others)) entries ≡ true
every-without key [] others fresh e = refl
every-without key ((k, sets) ∷ entries) others fresh e = elim (key_cases key k) [
  | inl h ↦ ground (arith, sym (get_here key k sets entries h).0 ∙ fresh)
  | inr n ↦
      let here = ap (are_sets sets) (get-without key k others (λ h. n (sym h))) in
      let later =
        every-without key entries others (sym (get_later key k sets entries n).0 ∙ fresh)
          (ground (arith)) in
      ground arith
]

are_sets-some :
    (sets : List ValueSet) (found : Option (List ValueSet))
    → are_sets sets found ≡ true
    → found ≡ some sets
are_sets-some sets none e = ground arith
are_sets-some sets (some others) e =
    elim (sets-discrete sets others)
        as (λ d.
          elim d as (λ x. Bool) [ yes h ↦ true | no h ↦ false ] ≡ true → some others ≡ some sets) [
            | yes h ↦ λ f. ap some (sym h)
            | no h ↦ λ f. ground arith
          ]
      e

pub and_swap : (x y z : Bool) → (x && (y && z)) ≡ (y && (x && z))
and_swap x y z = ground arith

-- `ok` says whether a rule lets a value pass.
module _ (ok : Rule → Bool) where
  abbrev pub allows : Entries → Bool
  allows entries = every ok (rules_of entries)

  pub every-append : (rs qs : List Rule) → every ok (rs ++ qs) ≡ (every ok rs && every ok qs)
  every-append [] qs = refl
  every-append (r ∷ rs) qs = ground (arith, every-append rs qs)

  abbrev pub allows_entry : RuleConds → List ValueSet → Bool
  allows_entry (conds, set_conds) sets = every ok (
      map (λ alts. record { conditions = conds; alternatives = alts; set_constraints = set_conds })
        sets)

  pub allows-cons :
      (key : RuleConds) (sets : List ValueSet) (entries : Entries)
      → allows ((key, sets) ∷ entries) ≡ (allows_entry key sets && allows entries)
  allows-cons (conds, set_conds) sets entries = every-append _ (rules_of entries)

  allows-without :
      (key : RuleConds) (entries : Entries) (sets : List ValueSet)
      → get key entries ≡ some sets
      → allows entries ≡ (allows_entry key sets && allows (without key entries))
  unfolding get
  allows-without key [] sets e = ground arith
  allows-without key ((k, s) ∷ entries) sets e = elim (key_cases key k) [
    | inl h ↦
        let same = sym (get_here key k s entries h).0 ∙ e in
        allows-cons k s entries
        ∙ ap (λ t. allows_entry t s && allows entries) (sym h)
        ∙ ap (λ t. allows_entry key t && allows entries) (some-injective _ _ same)
        ∙ ap (λ t. allows_entry key sets && allows t) (sym (get_here key k s entries h).1)
    | inr n ↦
        let (a, b) = get_later key k s entries n in
        let ih = allows-without key entries sets (sym a ∙ e) in
        allows-cons k s entries
        ∙ ap (λ t. allows_entry k s && t) ih
        ∙ and_swap (allows_entry k s) (allows_entry key sets) (allows (without key entries))
        ∙ ap (λ t. allows_entry key sets && t) (sym (allows-cons k s (without key entries)))
        ∙ ap (λ t. allows_entry key sets && allows t) (sym b)
  ]

  -- Cells that are equal let the same values pass.
  pub allows-found :
      (entries others : Entries)
      → AreDistinct entries
      → length entries ≡ length others
      → every (is_found others) entries ≡ true
      → allows entries ≡ allows others
  allows-found [] [] d l e = refl
  allows-found [] (o ∷ others) d l e = ground arith
  allows-found ((key, sets) ∷ entries) others d l e =
      let found = are_sets-some sets (get key others) (ground arith) in
      let rest =
        allows-found entries (without key others) d.1
          (omega (arith, l, length-without key others found))
          (every-without key entries others d.0 (ground arith)) in
      allows-cons key sets entries
      ∙ ap (λ b. allows_entry key sets && b) rest
      ∙ sym (allows-without key others sets found)

  pub allows-cell_eq :
      (c e : Cell)
      → AreDistinct c.entries
      → cell_eq c e ≡ true
      → allows c.entries ≡ allows e.entries
  unfolding cell_eq
  allows-cell_eq c e d h =
      allows-found c.entries e.entries d (==→≡ _ _ (ground arith)) (ground arith)

  -- An entry whose rules always apply, with an empty set, lets nothing pass.
  empty_entry :
      (conds : RuleConds) (sets : List ValueSet)
      → ((r : Rule)
          → conds ≡ (r.conditions, r.set_constraints)
          → is_empty r.alternatives ≡ true
          → ok r ≡ false)
      → any is_empty sets ≡ true
      → allows_entry conds sets ≡ false
  empty_entry conds [] h e = ground arith
  empty_entry conds (s ∷ sets) h e = elim (Bool-cases (is_empty s)) [
    | inl gone ↦ ground (
      arith,
      h (record { conditions = conds.0; alternatives = s; set_constraints = conds.1 }) refl gone,
    )
    | inr more ↦ ground (arith, empty_entry conds sets h (ground arith))
  ]

  pub allows-cell_is_empty :
      (c : Cell)
      → ((r : Rule)
          → unconditional ≡ (r.conditions, r.set_constraints)
          → is_empty r.alternatives ≡ true
          → ok r ≡ false)
      → cell_is_empty c ≡ true
      → allows c.entries ≡ false
  unfolding cell_is_empty has_empty
  allows-cell_is_empty c h e = elim (Option-cases (get unconditional c.entries)) [
    | inl missing ↦ ground (arith, sym (ap has_empty missing) ∙ e)
    | inr (sets, found) ↦
        allows-without unconditional c.entries sets found
        ∙ ap (λ b. b && allows (without unconditional c.entries))
            (empty_entry unconditional sets h (sym (ap has_empty found) ∙ e))
  ]
