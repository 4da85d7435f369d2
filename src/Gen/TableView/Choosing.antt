-- ===== src/Gen/TableView/Choosing.antt =====
-- telamon-gen/src/truth_table.rs: `table_min_split`, the choice of the input to switch on.
use telamon.Prelude.{
  ℕ, zero, suc, ◌+◌, ◌<◌, ◌-◌, ◌≡◌, refl, sym, ap, ◌∙◌, subst, ◌⊎◌, inl, inr, Bool, true, ◌&&◌,
  ◌||◌, Option, none, some, List, [], ◌∷◌, arith, ltb, ◌==◌, ==→≡, Bool-cases, length, get_elem?,
  get_elem?-total, All,
}
use telamon.Prelude.Keys.{any}
use telamon.Gen.Values.{ValueSet}
use telamon.Gen.Filter.{◌>>=◌}
use telamon.Gen.TruthTable.{Cell}
use telamon.Gen.TableView.{
  TableView, num_inputs, input_from_pos, Instance, instantiate, split_at, last, config_of, better,
  find_view, replicate_split, finish_split, min_split_from, table_min_split, TableSplit, switch_on,
  forward,
}
use telamon.Gen.TableView.Branches.{IsTable, IsBranch, AreBranches, instantiate-AreBranches}
use telamon.Gen.TableView.Meaning.{Meaning, HasDistinctKeys}
use telamon.Gen.TableView.Merging.{AreInstances, IsCovered, IsState, merge_branches-IsState}
use telamon.Gen.TableView.Splitting.{
  IsAt, passes_table, Position, Position-of, branch-IsAt, passes_rest, passes_branch_rest,
  passes_instance_rest, branch-IsSub, branch-passes, any-branches, IsBranch-at, length-branches,
}
use telamon.Utils.NdArray.{NdArray, remove}
use telamon.Gen.TableView.Configurations.{
  any-onto, All-onto, All-at, last-at, case_of, cases_of, find_view-at, in_range, only, only_known,
}

module _ (a : NdArray Cell) (m : Meaning) (t : TableView) (is : List ℕ)
    (distinct : HasDistinctKeys a) (h : IsTable a t) (at : IsAt m t is) where
  module _ (pos : ℕ) (below : pos < num_inputs t) (p : Position a m t is pos) where
    abbrev AreInstancesHere : List (ValueSet × TableView) → ℕ → ℕ → List Instance → Type 0
    AreInstancesHere =
        AreInstances a m distinct p.input (remove t.view.bounds pos) (remove is pos) p.rest

    abbrev IsCoveredHere : List Instance → Bool → Type 0
    IsCoveredHere = IsCovered a m distinct p.input (remove t.view.bounds pos) (remove is pos) p.rest

    abbrev passes_here : TableView → Bool
    passes_here = passes_rest a m t is distinct h at pos below p

    -- What the instances of a position say of the table.
    pub record IsCandidate (instances : List Instance) : Type 0 where
      pub bs : List (ValueSet × TableView)
      pub read : instantiate t pos ≡ some bs
      pub branches : AreBranches a t h pos below 0 p.sets bs
      pub are_instances : AreInstancesHere bs 0 (length bs) instances
      pub total :
          any (passes_instance_rest a m t is distinct h at pos below p) instances
          ≡ passes_table a m t is

    -- A view that may stand for the table.
    pub record IsNext (u : TableView) : Type 0 where
      pub table : IsTable a u
      pub at_rest : IsAt m u (remove is pos)
      pub fewer : suc (num_inputs u) ≡ num_inputs t

    IsNext-of : (n : ℕ) (u : TableView) → IsBranch a t pos n u → IsNext u
    IsNext-of n u b =
        let (rest, fewer) = branch-IsAt a m t is distinct h at pos below p n u b in
        record { table = b.table; at_rest = rest; fewer = fewer }

    -- If all branches are covered by one instance, they all stand for the table.
    last-stands :
        (bs : List (ValueSet × TableView)) (instances : List Instance)
        → AreBranches a t h pos below 0 p.sets bs
        → length instances ≡ 1
        → All (λ b. IsCoveredHere instances (passes_here b.1)) bs
        → (u : TableView) × (last bs ≡ some u) × IsNext u × (passes_here u ≡ passes_table a m t is)
    last-stands bs [] b l c = absurd (omega (arith, l))
    last-stands bs (i ∷ j ∷ instances) b l c = absurd (omega (arith, l))
    last-stands [] (i ∷ []) b l c =
        absurd
          (omega (arith, p.below, length-branches a m t is distinct h at pos below p 0 p.sets [] b))
    last-stands (x ∷ bs) (i ∷ []) b l c =
        let count = length-branches a m t is distinct h at pos below p 0 p.sets (x ∷ bs) b in
        let (y, read) = get_elem?-total (x ∷ bs) p.k (omega (arith, p.below, count)) in
        let (n, z, read', e) = last-at x bs in
        let chosen =
          IsBranch-at a m t is distinct h at pos below p 0 p.k p.sets (x ∷ bs) y b read in
        let taken = IsBranch-at a m t is distinct h at pos below p 0 n p.sets (x ∷ bs) z b read' in
        let P = λ (w : ValueSet × TableView). IsCoveredHere (i ∷ []) (passes_here w.1) in
        (
          z.1,
          e,
          IsNext-of (0 + n) z.1 taken,
          sym (only (All-at P (x ∷ bs) n z c read'))
              ∙ only (All-at P (x ∷ bs) p.k y c read)
              ∙ branch-passes a m t is distinct h at pos below p y.1
                  (subst (λ (n : ℕ). IsBranch a t pos n y.1) (omega arith) chosen),
        )

    -- The result of `split_at`: if the flag is set, the last view stands for the table.
    split_at-IsCandidate :
        (instances : List Instance) × (flag : Bool) × (split_at a t pos ≡ some (instances, flag))
        × (c : IsCandidate instances) × (flag ≡ true
            → (u : TableView) × (last c.bs ≡ some u)
              × IsNext u
              × (passes_here u ≡ passes_table a m t is))
    unfolding split_at
    split_at-IsCandidate =
        let (bs, read, branches) =
          instantiate-AreBranches a t h pos below p.dim p.input p.sets p.at_dim p.at_values
            p.at_bounds in
        let start : IsState a m distinct p.input (remove t.view.bounds pos) (remove is pos) p.rest
            bs 0 [] ([], true) =
          record { instances = omega arith; total = refl; covered = λ f. tt } in
        let (final, merged, state) =
          merge_branches-IsState a m distinct p.input (remove t.view.bounds pos) (remove is pos)
            p.rest bs 0 [] bs ([], true) (λ k. ap (get_elem? bs) (omega arith))
            (branch-IsSub a m t is distinct h at pos below p 0 p.sets bs p.enums branches) start in
        let (instances, fwd) = final in
        let total =
          state.total
          ∙ any-onto (passes_branch_rest a m t is distinct h at pos below p) [] bs
          ∙ any-branches a m t is distinct h at pos below p 0 p.sets bs branches (λ j s e.
            at.selected pos p.dim p.input p.k p.sets p.at_dim p.at_values p.at_index j s e
            ∙ ap (λ (n : ℕ). n == p.k) (omega arith))
          ∙ in_range p.k (length p.sets) (passes_table a m t is) p.below in
        (
          instances,
          fwd && length instances == 1,
          rw (split_at, read, merged) refl,
          record {
            bs = bs;
            read = read;
            branches = branches;
            are_instances =
                subst (λ (n : ℕ). AreInstancesHere bs 0 n instances) (omega arith) state.instances;
            total = total;
          },
          λ flag.
              last-stands bs instances branches (==→≡ (length instances) 1 (ground arith))
                (All-onto (λ b. IsCoveredHere instances (passes_here b.1)) [] bs
                  (state.covered (ground arith))).1,
        )

    abbrev Replicated : List (ValueSet × TableView) → ℕ → List (ValueSet × TableView) → Type 0
    Replicated bs lo views = (k : ℕ) → get_elem? views k ≡ get_elem? bs (lo + k)

    -- The views of the instances are found again, in their order.
    replicate_split-cases_of :
        (bs : List (ValueSet × TableView)) (lo hi : ℕ) (instances : List Instance)
        (views : List (ValueSet × TableView))
        → AreInstancesHere bs lo hi instances
        → Replicated bs lo views
        → replicate_split a (config_of instances) lo views ≡ some (cases_of instances)
    unfolding replicate_split
    replicate_split-cases_of bs lo hi [] views i r = refl
    replicate_split-cases_of bs lo hi (x ∷ instances) views i r =
        let d = x.pos - lo in
        let place : lo + d ≡ x.pos = omega (arith, i.0) in
        let (s, read) = i.1 in
        let (rest, found, tail) =
          find_view-at lo d views (s, x.table) (r d ∙ ap (get_elem? bs) place ∙ read) in
        let later =
          replicate_split-cases_of bs (suc x.pos) hi instances rest i.5
            (λ k. tail k ∙ r (suc (d + k)) ∙ ap (get_elem? bs) (omega (arith, place))) in
        let found' = ap (λ (n : ℕ). find_view n lo views) (sym place) ∙ found in
        rw (replicate_split, found', i.4)
          (ap
              (λ (n : ℕ).
                replicate_split a (config_of instances) n rest >>= λ c. some (case_of x ∷ c))
              (omega arith)
            ∙ ap (λ o. o >>= λ c. some (case_of x ∷ c)) later)

    any-cases_of :
        (instances : List Instance)
        → any (passes_branch_rest a m t is distinct h at pos below p) (cases_of instances)
          ≡ any (passes_instance_rest a m t is distinct h at pos below p) instances
    any-cases_of [] = refl
    any-cases_of (i ∷ instances) =
        ap (λ b. passes_instance_rest a m t is distinct h at pos below p i || b)
          (any-cases_of instances)

    cases_of-IsNext :
        (bs : List (ValueSet × TableView)) (lo hi : ℕ) (instances : List Instance)
        → AreBranches a t h pos below 0 p.sets bs
        → AreInstancesHere bs lo hi instances
        → All (λ c. IsNext c.1) (cases_of instances)
    cases_of-IsNext bs lo hi [] b i = tt
    cases_of-IsNext bs lo hi (x ∷ instances) b i =
        let (s, read) = i.1 in
        (
          IsNext-of (0 + x.pos) x.table (
              IsBranch-at a m t is distinct h at pos below p 0 x.pos p.sets bs (s, x.table) b read),
          cases_of-IsNext bs (suc x.pos) hi instances b i.5,
        )

    -- A split on this position: its cases stand for the table.
    abbrev pub IsSwitch : ℕ → List (ValueSet × TableView) → Type 0
    IsSwitch i cases =
        (i ≡ p.input)
        × All (λ c. IsNext c.1) cases
        × (any (passes_branch_rest a m t is distinct h at pos below p) cases
            ≡ passes_table a m t is)

    finish_split-IsSwitch :
        (instances : List Instance)
        → IsCandidate instances
        → (i : ℕ) × (cases : List (ValueSet × TableView)) × (finish_split a t
              (some (pos, config_of instances))
            ≡ some (some (switch_on i cases)))
          × IsSwitch i cases
    unfolding finish_split input_from_pos
    finish_split-IsSwitch instances c = (
      p.input,
      cases_of instances,
      rw
          (
            finish_split,
            c.read,
            p.at_dim,
            p.at_values,
            replicate_split-cases_of c.bs 0 (length c.bs) instances c.bs c.are_instances
                (λ k. ap (get_elem? c.bs) (omega arith)),
          )
          refl,
      (
        refl,
        cases_of-IsNext c.bs 0 (length c.bs) instances c.branches c.are_instances,
        any-cases_of instances ∙ c.total,
      ),
    )

  -- The best split so far.
  abbrev IsBest : Option (ℕ × List (ValueSet × ℕ)) → Type 0
  IsBest none = Unit
  IsBest (some (pos, config)) =
      (below : pos < num_inputs t) × (p : Position a m t is pos) × (instances : List Instance)
      × (config ≡ config_of instances)
      × IsCandidate pos below p instances

  abbrev IsKnown : Option (ℕ × List (ValueSet × ℕ)) → Type 0
  IsKnown none = ⊥
  IsKnown (some best) = Unit

  -- What a split says of the table.
  abbrev pub IsSplit : TableSplit → Type 0
  IsSplit (forward u) =
      (pos : ℕ) × (below : pos < num_inputs t) × (p : Position a m t is pos) × IsNext pos below p u
      × (passes_rest a m t is distinct h at pos below p u ≡ passes_table a m t is)
  IsSplit (switch_on i cases) =
      (pos : ℕ) × (below : pos < num_inputs t) × (p : Position a m t is pos) × IsSwitch pos below p
        i cases

  better-IsBest :
      (best : Option (ℕ × List (ValueSet × ℕ))) (pos : ℕ) (below : pos < num_inputs t)
      (p : Position a m t is pos) (instances : List Instance)
      → IsBest best
      → IsCandidate pos below p instances
      → IsBest (better best pos instances) × IsKnown (better best pos instances)
  better-IsBest none pos below p instances b c = ((below, p, instances, refl, c), tt)
  better-IsBest (some (q, config)) pos below p instances b c =
      elim (Bool-cases (ltb (length instances) (length config))) [
        | inl e ↦ rw e ((below, p, instances, refl, c), tt)
        | inr e ↦ rw e (b, tt)
      ]

  min_split_from-IsSplit :
      (pos left : ℕ) (best : Option (ℕ × List (ValueSet × ℕ)))
      → pos + left ≡ num_inputs t
      → IsBest best
      → IsKnown best ⊎ (0 < left)
      → (s : TableSplit) × (min_split_from a t pos left best ≡ some (some s)) × IsSplit s
  unfolding min_split_from
  min_split_from-IsSplit pos zero none e b k = absurd (only_known k)
  min_split_from-IsSplit pos zero (some (q, config)) e b k =
      let (below, p, instances, same, c) = b in
      let (i, cases, read, is_switch) = finish_split-IsSwitch q below p instances c in
      (
        switch_on i cases,
        ap (λ cs. finish_split a t (some (q, cs))) same ∙ read,
        (q, below, p, is_switch),
      )
  min_split_from-IsSplit pos (suc left) best e b k =
      let below : pos < num_inputs t = omega (arith, e) in
      let p = Position-of a m t is pos h at below in
      let (instances, flag, read, c, ahead) = split_at-IsCandidate pos below p in
      elim (Bool-cases flag) [
        | inl yes_ ↦
            let (u, taken, next, same) = ahead yes_ in
            (
              forward u,
              rw (min_split_from, read, yes_, c.read, taken) refl,
              (pos, below, p, next, same),
            )
        | inr no_ ↦
            let (best', known) = better-IsBest best pos below p instances b c in
            let (s, later, split_) =
              min_split_from-IsSplit (pos + 1) left (better best pos instances) (omega (arith, e))
                best' (inl known) in
            (s, rw (min_split_from, read, no_) later, split_)
      ]

  -- A table with an input is split on one of its inputs.
  pub table_min_split-IsSplit :
      0 < num_inputs t → (s : TableSplit) × (table_min_split a t ≡ some (some s)) × IsSplit s
  unfolding table_min_split
  table_min_split-IsSplit some_ =
      min_split_from-IsSplit 0 (num_inputs t) none (omega arith) tt (inr some_)
