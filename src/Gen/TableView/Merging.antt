-- ===== src/Gen/TableView/Merging.antt =====
-- telamon-gen/src/truth_table.rs: the loop of `table_min_split` that merges the branches of one position.
use telamon.Prelude.{
  ℕ, suc, ◌+◌, ◌≤◌, ◌≡◌, refl, sym, ap, ◌∙◌, subst, ◌⊎◌, inl, inr, Bool, true, false, ◌&&◌, ◌||◌,
  Option, none, some, List, [], ◌∷◌, ◌++◌, arith, Bool-cases, length, get_elem?, All,
}
use telamon.Prelude.Keys.{any}
use telamon.Gen.Values.{ValueSet, extend_set}
use telamon.Gen.TruthTable.{Cell}
use telamon.Gen.TruthTable.Equality.{allows-cell_eq, allows-cell_is_empty}
use telamon.Gen.TableView.{
  TableView, Instance, equal_content, merge_into, merge_branch, merge_branches, keep_first,
  merged_or_pushed, is_empty as view_is_empty,
}
use telamon.Gen.TableView.Cells.{IsReadable, equal_content-reads, is_empty-reads}
use telamon.Gen.TableView.Branches.{IsEnumSet}
use telamon.Utils.NdArray.{NdArray, view_index}
use telamon.Utils.NdArray.Enumeration.{IsWithin}
use telamon.Gen.TableView.Meaning.{
  Meaning, passes_cell, HasDistinctKeys, view_index-AreDistinct, extend_set-enum, or_assoc, onto,
}

module _ (a : NdArray Cell) (m : Meaning) (distinct : HasDistinctKeys a) (input : ℕ)
    (bounds js : List ℕ) (within : IsWithin bounds js) where
  -- Whether the cell of a view at the index `js` lets the value pass.
  abbrev pub passes_at : TableView → Bool
  passes_at u = passes_cell m (view_index a u.view js)

  abbrev pub IsSub : TableView → Type 0
  IsSub u = IsReadable a u.view × (u.view.bounds ≡ bounds)

  equal_content-passes :
      (t u : TableView)
      → IsSub t
      → IsSub u
      → (b : Bool) × (equal_content a t u ≡ some b) × (b ≡ true → passes_at t ≡ passes_at u)
  equal_content-passes t u p q =
      let (b, e, reads) = equal_content-reads a t u p.0 q.0 (p.1 ∙ sym q.1) in
      (
        b,
        e,
        λ yes_.
            let (c, d, at_t, at_u, same) =
              reads yes_ js (subst (λ ds. IsWithin ds js) (sym p.1) within) in
            ap (passes_cell m) at_t
            ∙ allows-cell_eq m.ok c d (view_index-AreDistinct a t.view js c distinct at_t) same
            ∙ sym (ap (passes_cell m) at_u),
      )

  is_empty-passes :
      (t : TableView)
      → IsSub t
      → (b : Bool) × (view_is_empty a t ≡ some b) × (b ≡ true → passes_at t ≡ false)
  is_empty-passes t p =
      let (b, e, reads) = is_empty-reads a t p.0 in
      (
        b,
        e,
        λ yes_.
            let (c, at_t, gone) = reads yes_ js (subst (λ ds. IsWithin ds js) (sym p.1) within) in
            ap (passes_cell m) at_t ∙ allows-cell_is_empty m.ok c m.ok_empty gone,
      )

  -- Whether a branch is selected and lets the value pass.
  abbrev pub passes_branch : ValueSet × TableView → Bool
  passes_branch b = m.selects input b.0 && passes_at b.1

  abbrev pub passes_instance : Instance → Bool
  passes_instance i = m.selects input i.values && passes_at i.table

  -- The instances come from branches, in their order and at positions from `lo` on below `hi`.
  abbrev pub AreInstances : List (ValueSet × TableView) → ℕ → ℕ → List Instance → Type 0
  AreInstances bs lo hi [] = lo ≤ hi
  AreInstances bs lo hi (i ∷ is) =
      (lo ≤ i.pos)
      × ((s : ValueSet) × (get_elem? bs i.pos ≡ some (s, i.table)))
      × IsSub i.table
      × IsEnumSet i.values
      × (view_is_empty a i.table ≡ some false)
      × AreInstances bs (suc i.pos) hi is

  -- Some instance lets the value pass just if `b`.
  abbrev pub IsCovered : List Instance → Bool → Type 0
  IsCovered [] b = ⊥
  IsCovered (i ∷ is) b = (passes_at i.table ≡ b) ⊎ IsCovered is b

  -- A merged list: the branch that is merged counts, and what was covered still is.
  abbrev pub IsMerged :
      List (ValueSet × TableView)
      → ℕ
      → ℕ
      → ValueSet × TableView
      → List Instance
      → List Instance
      → Type 0
  IsMerged bs lo hi b is is' =
      AreInstances bs lo hi is'
      × (any passes_instance is' ≡ (any passes_instance is || passes_branch b))
      × IsCovered is' (passes_at b.1)
      × ((c : Bool) → IsCovered is c → IsCovered is' c)

  abbrev pub IsMergeResult :
      List (ValueSet × TableView)
      → ℕ
      → ℕ
      → ValueSet × TableView
      → List Instance
      → Option (List Instance)
      → Type 0
  IsMergeResult bs lo hi b is none = Unit
  IsMergeResult bs lo hi b is (some is') = IsMerged bs lo hi b is is'

  merge_later :
      (bs : List (ValueSet × TableView)) (lo hi : ℕ) (b : ValueSet × TableView) (i : Instance)
      (is : List Instance) (r : Option (List Instance))
      → AreInstances bs lo hi (i ∷ is)
      → IsMergeResult bs (suc i.pos) hi b is r
      → IsMergeResult bs lo hi b (i ∷ is) (keep_first i r)
  merge_later bs lo hi b i is none h k = tt
  merge_later bs lo hi b i is (some is') h k = (
    (h.0, h.1, h.2, h.3, h.4, k.0),
    ap (λ x. passes_instance i || x) k.1
        ∙ or_assoc (passes_instance i) (any passes_instance is) (passes_branch b),
    inr k.2,
    λ c. elim [ inl e ↦ inl e | inr e ↦ inr (k.3 c e) ],
  )

  merge_here :
      (bs : List (ValueSet × TableView)) (lo hi : ℕ) (b : ValueSet × TableView) (i : Instance)
      (is : List Instance) (s : ValueSet)
      → AreInstances bs lo hi (i ∷ is)
      → extend_set i.values b.0 ≡ some s
      → IsEnumSet s
      → passes_at b.1 ≡ passes_at i.table
      → IsMerged bs lo hi b (i ∷ is) (record i { values = s } ∷ is)
  merge_here bs lo hi b i is s h e q same = (
    (h.0, h.1, h.2, q, h.4, h.5),
    ground (arith, m.selects_extend input i.values b.0 s e, same),
    inl (sym same),
    λ c. elim [ inl k ↦ inl k | inr k ↦ inr k ],
  )

  merge_into-lem :
      (bs : List (ValueSet × TableView)) (lo hi : ℕ) (b : ValueSet × TableView) (is : List Instance)
      → IsSub b.1
      → IsEnumSet b.0
      → AreInstances bs lo hi is
      → (r : Option (List Instance)) × (merge_into a b.0 b.1 is ≡ some r)
        × IsMergeResult bs lo hi b is r
  unfolding merge_into
  merge_into-lem bs lo hi b [] p q h = (none, refl, tt)
  merge_into-lem bs lo hi b (i ∷ is) p q h =
      let (same, e, agree) = equal_content-passes b.1 i.table p h.2 in
      let (s, extended, still) = extend_set-enum i.values b.0 h.3 q in
      let (r, later, result) = merge_into-lem bs (suc i.pos) hi b is p q h.5 in
      elim (Bool-cases same) [
        | inl yes_ ↦ (
          some (record i { values = s } ∷ is),
          rw (merge_into, e, yes_, extended) refl,
          merge_here bs lo hi b i is s h extended still (agree yes_),
        )
        | inr no_ ↦ (
          keep_first i r,
          rw (merge_into, e, no_, later) refl,
          merge_later bs lo hi b i is r h result,
        )
      ]

  AreInstances-le :
      (bs : List (ValueSet × TableView)) (lo hi top : ℕ) (is : List Instance)
      → hi ≤ top
      → AreInstances bs lo hi is
      → AreInstances bs lo top is
  AreInstances-le bs lo hi top [] l h = omega arith
  AreInstances-le bs lo hi top (i ∷ is) l h =
      (h.0, h.1, h.2, h.3, h.4, AreInstances-le bs (suc i.pos) hi top is l h.5)

  push-AreInstances :
      (bs : List (ValueSet × TableView)) (lo hi : ℕ) (is : List Instance) (b : ValueSet × TableView)
      → get_elem? bs hi ≡ some b
      → IsSub b.1
      → IsEnumSet b.0
      → view_is_empty a b.1 ≡ some false
      → AreInstances bs lo hi is
      → AreInstances bs lo (suc hi) (is ++ record { values = b.0; pos = hi; table = b.1 } ∷ [])
  push-AreInstances bs lo hi [] b at p q full h = (h, (b.0, at), p, q, full, omega arith)
  push-AreInstances bs lo hi (i ∷ is) b at p q full h =
      (h.0, h.1, h.2, h.3, h.4, push-AreInstances bs (suc i.pos) hi is b at p q full h.5)

  any-push :
      (is : List Instance) (i : Instance)
      → any passes_instance (is ++ i ∷ []) ≡ (any passes_instance is || passes_instance i)
  any-push [] i = ground arith
  any-push (j ∷ is) i =
      ap (λ x. passes_instance j || x) (any-push is i)
      ∙ or_assoc (passes_instance j) (any passes_instance is) (passes_instance i)

  push-IsCovered_old :
      (is : List Instance) (i : Instance) (b : Bool) → IsCovered is b → IsCovered (is ++ i ∷ []) b
  push-IsCovered_old [] i b h = absurd h
  push-IsCovered_old (j ∷ is) i b (inl e) = inl e
  push-IsCovered_old (j ∷ is) i b (inr h) = inr (push-IsCovered_old is i b h)

  push-IsCovered_new :
      (is : List Instance) (i : Instance) → IsCovered (is ++ i ∷ []) (passes_at i.table)
  push-IsCovered_new [] i = inl refl
  push-IsCovered_new (j ∷ is) i = inr (push-IsCovered_new is i)

  abbrev pub AllCovered : List Instance → List (ValueSet × TableView) → Type 0
  AllCovered is seen = All (λ b. IsCovered is (passes_at b.1)) seen

  AllCovered-map :
      (is is' : List Instance) (seen : List (ValueSet × TableView))
      → ((c : Bool) → IsCovered is c → IsCovered is' c)
      → AllCovered is seen
      → AllCovered is' seen
  AllCovered-map is is' [] f h = tt
  AllCovered-map is is' (b ∷ seen) f h = (f (passes_at b.1) h.0, AllCovered-map is is' seen f h.1)

  -- The loop after the branches `seen`, of which the first `hi` of `bs` are.
  pub record IsState (bs : List (ValueSet × TableView)) (hi : ℕ)
      (seen : List (ValueSet × TableView)) (state : List Instance × Bool) : Type 0 where
    pub instances : AreInstances bs 0 hi state.0
    pub total : any passes_instance state.0 ≡ any passes_branch seen
    pub covered : state.1 ≡ true → AllCovered state.0 seen

  or_comm : (x y : Bool) → (x || y) ≡ (y || x)
  or_comm x y = ground arith

  after_merge :
      (bs : List (ValueSet × TableView)) (hi : ℕ) (seen : List (ValueSet × TableView))
      (is : List Instance) (fwd : Bool) (b : ValueSet × TableView) (r : Option (List Instance))
      → get_elem? bs hi ≡ some b
      → IsSub b.1
      → IsEnumSet b.0
      → view_is_empty a b.1 ≡ some false
      → IsState bs hi seen (is, fwd)
      → IsMergeResult bs 0 hi b is r
      → IsState bs
          (suc hi)
          (b ∷ seen)
          (merged_or_pushed is (record { values = b.0; pos = hi; table = b.1 }) r, fwd)
  after_merge bs hi seen is fwd b none at p q full h result =
      let new : Instance = record { values = b.0; pos = hi; table = b.1 } in
      record {
        instances = push-AreInstances bs 0 hi is b at p q full h.instances;
        total =
            any-push is new
            ∙ ap (λ x. x || passes_branch b) h.total
            ∙ or_comm (any passes_branch seen) (passes_branch b);
        covered = λ f. (
          push-IsCovered_new is new,
          AllCovered-map is (is ++ new ∷ []) seen (push-IsCovered_old is new) (h.covered f),
        );
      }
  after_merge bs hi seen is fwd b (some is') at p q full h result = record {
    instances = AreInstances-le bs 0 hi (suc hi) is' (omega arith) result.0;
    total =
        result.1
        ∙ ap (λ x. x || passes_branch b) h.total
        ∙ or_comm (any passes_branch seen) (passes_branch b);
    covered = λ f. (result.2, AllCovered-map is is' seen result.3 (h.covered f));
  }

  merge_branch-IsState :
      (bs : List (ValueSet × TableView)) (hi : ℕ) (seen : List (ValueSet × TableView))
      (state : List Instance × Bool) (b : ValueSet × TableView)
      → get_elem? bs hi ≡ some b
      → IsSub b.1
      → IsEnumSet b.0
      → IsState bs hi seen state
      → (state' : List Instance × Bool) × (merge_branch a hi b state ≡ some state')
        × IsState bs (suc hi) (b ∷ seen) state'
  unfolding merge_branch
  merge_branch-IsState bs hi seen (is, fwd) b at p q h =
      let (gone, e, empty) = is_empty-passes b.1 p in
      elim (Bool-cases gone) [
        | inl yes_ ↦ (
          (is, false),
          rw (merge_branch, e, yes_) refl,
          record {
            instances = AreInstances-le bs 0 hi (suc hi) is (omega arith) h.instances;
            total = h.total ∙ ground (arith, empty yes_);
            covered = λ f. ground arith;
          },
        )
        | inr no_ ↦
            let (r, merged, result) = merge_into-lem bs 0 hi b is p q h.instances in
            (
              (merged_or_pushed is (record { values = b.0; pos = hi; table = b.1 }) r, fwd),
              rw (merge_branch, e, no_, merged) refl,
              after_merge bs hi seen is fwd b r at p q (e ∙ ap some no_) h result,
            )
      ]

  pub merge_branches-IsState :
      (bs : List (ValueSet × TableView)) (hi : ℕ) (seen rest : List (ValueSet × TableView))
      (state : List Instance × Bool)
      → ((k : ℕ) → get_elem? bs (hi + k) ≡ get_elem? rest k)
      → All (λ b. IsSub b.1 × IsEnumSet b.0) rest
      → IsState bs hi seen state
      → (state' : List Instance × Bool) × (merge_branches a hi rest state ≡ some state')
        × IsState bs (hi + length rest) (onto seen rest) state'
  unfolding merge_branches
  merge_branches-IsState bs hi seen [] state at p h =
      (state, refl, subst (λ (n : ℕ). IsState bs n seen state) (omega arith) h)
  merge_branches-IsState bs hi seen (b ∷ rest) state at p h =
      let here : get_elem? bs hi ≡ some b = ap (get_elem? bs) (omega arith) ∙ at 0 in
      let (next, step, kept) = merge_branch-IsState bs hi seen state b here p.0.0 p.0.1 h in
      let (final, steps, last) =
        merge_branches-IsState bs (suc hi) (b ∷ seen) rest next
          (λ k. ap (get_elem? bs) (omega arith) ∙ at (suc k)) p.1 kept in
      (
        final,
        rw step (ap (λ (n : ℕ). merge_branches a n rest next) (omega arith) ∙ steps),
        subst (λ (n : ℕ). IsState bs n (onto (b ∷ seen) rest) final) (omega arith) last,
      )
