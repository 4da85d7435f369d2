-- ===== src/Explorer/LocalSelection/Backtracking.antt =====
-- src/explorer/local_selection.rs: `descend_backtrack` and the loop over the children of a node.
use telamon.Prelude.{
  ℕ, zero, suc, ◌≤◌, ◌<◌, ◌≡◌, refl, sym, ◌∙◌, subst, inl, inr, true, false, Option, none, some,
  List, arith, Option-cases, length, get_elem?, set, ◌∈◌,
}
use telamon.Prelude.Order.{Ord}
use telamon.Explorer.Candidate.{Candidate, apply_choice}
use telamon.Explorer.LocalSelection.{
  Rollout, pick, slots_of, live_from, try_children, descend_backtrack,
}
use telamon.Explorer.NodeOrder.{is_below}
use telamon.Explorer.LocalSelection.Weights.{IsLight, IsLight-sub}
use telamon.Explorer.LocalSelection.Picking.{IsPick, pick_index-IsPick}
use telamon.Explorer.LocalSelection.Slots.{
  filled, filled-le, slots_iff, live_from-read, live_from-mem, length-live_from, filled-set,
  set_cases, set_was, mem_of_read,
}
use mathlib.Core.Option.{some-injective}

module _ {S A B G : Type 0} ⦃o : Ord B⦄ (w : Rollout S A B G) where
  -- `d` is fully specified, and every decision from `c` to `d` was valid and below the cut.
  pub data Leads : Candidate S A B → Candidate S A B → Type 0 where
    leaf : (c : Candidate S A B) → w.next_choice c.space ≡ none → Leads c c
    decide :
        (c child d : Candidate S A B) (choice : List A)
        → w.next_choice c.space ≡ some choice
        → child ∈ apply_choice w.world c choice
        → is_below child.bound w.cut ≡ true
        → Leads child d
        → Leads c d

  -- No path of decisions from `c` has more than `n` candidates.
  abbrev pub IsWithin : ℕ → Candidate S A B → Type 0
  IsWithin zero c = ⊥
  IsWithin (suc n) c =
      (choice : List A)
      → w.next_choice c.space ≡ some choice
      → (child : Candidate S A B) → child ∈ apply_choice w.world c choice
      → IsWithin n child

  -- What an answer says of the children that are left.
  abbrev Answers : List (Option (Candidate S A B)) → Option (Candidate S A B) → Type 0
  Answers slots none =
      (child : Candidate S A B)
      → some child ∈ slots
      → is_below child.bound w.cut ≡ true
      → (d : Candidate S A B) → ¬ Leads child d
  Answers slots (some d) =
      (child : Candidate S A B) × (some child ∈ slots)
      × (is_below child.bound w.cut ≡ true)
      × Leads child d

  -- What an answer says of one candidate.
  abbrev pub IsAnswer : Candidate S A B → Option (Candidate S A B) → Type 0
  IsAnswer c none = (d : Candidate S A B) → ¬ Leads c d
  IsAnswer c (some d) = Leads c d

  -- The weights of the children of `c`, if they are weighted.
  abbrev pub LightChildren : Candidate S A B → List A → Type 0
  LightChildren c choice =
      IsLight w.floats w.node_order w.cut (length choice) (λ x.
        (child : Candidate S A B) × (child ∈ apply_choice w.world c choice) × (x ≡ child.bound))

  -- The weights of the children are not too large at any candidate, for paths of `n` candidates.
  abbrev pub AreLight : ℕ → Candidate S A B → Type 0
  AreLight zero c = Unit
  AreLight (suc n) c =
      (choice : List A)
      → w.next_choice c.space ≡ some choice
      → LightChildren c choice
        × ((child : Candidate S A B) → child ∈ apply_choice w.world c choice → AreLight n child)

  abbrev LightSlots : ℕ → List (Option (Candidate S A B)) → Type 0
  LightSlots n slots =
      IsLight w.floats w.node_order w.cut n
        (λ x. (child : Candidate S A B) × (some child ∈ slots) × (x ≡ child.bound))

  abbrev Search : Type 0
  Search = Candidate S A B → G → Option (Option (Candidate S A B) × G)

  abbrev Descends : Search → Candidate S A B → Type 0
  Descends descend c =
      (g : G)
      → (r : Option (Candidate S A B)) × (next : G) × (descend c g ≡ some (r, next)) × IsAnswer c r

  abbrev Tried : Search → ℕ → List (Option (Candidate S A B)) → G → Type 0
  Tried descend rounds slots g =
      (r : Option (Candidate S A B)) × (next : G) × (try_children w descend rounds slots g
        ≡ some (r, next))
      × Answers slots r

  -- The child in slot `i` was picked, and its subtree was searched.
  pick-outcome :
      (descend : Search) (rounds i : ℕ) (slots : List (Option (Candidate S A B)))
      (child : Candidate S A B) (g picked next : G)
      → pick w (live_from w 0 slots) g ≡ some (some i, picked)
      → get_elem? slots i ≡ some (some child)
      → is_below child.bound w.cut ≡ true
      → (r : Option (Candidate S A B)) → descend child picked ≡ some (r, next)
      → IsAnswer child r
      → Tried descend rounds (set slots i none) next
      → Tried descend (suc rounds) slots g
  unfolding try_children
  pick-outcome descend rounds i slots child g picked next drawn read low (some d) ran leads later =
      (
        some d,
        next,
        rw (drawn, try_children, read, ran) refl,
        (child, mem_of_read slots i child read, low, leads),
      )
  pick-outcome descend rounds i slots child g picked next drawn read low none ran dead
        (none, last, after, all_dead) =
      (
        none,
        last,
        rw (drawn, try_children, read, ran) after,
        λ c m b d l. elim (set_cases slots i child c read m) [
          | inl e ↦ dead d (subst (λ x. Leads x d) e l)
          | inr n ↦ all_dead c n b d l
        ],
      )
  pick-outcome descend rounds i slots child g picked next drawn read low none ran dead
        (some d, last, after, rest) =
      let (found, m, b, l) = rest in
      (
        some d,
        last,
        rw (drawn, try_children, read, ran) after,
        (found, set_was slots i found m, b, l),
      )

  try_picked :
      (descend : Search) (rounds : ℕ) (slots : List (Option (Candidate S A B))) (g next : G)
      → ((child : Candidate S A B) → some child ∈ slots → Descends descend child)
      → ((i : ℕ) (child : Candidate S A B) (g : G)
          → get_elem? slots i ≡ some (some child)
          → Tried descend rounds (set slots i none) g)
      → (r : Option ℕ) → pick w (live_from w 0 slots) g ≡ some (r, next)
      → IsPick (live_from w 0 slots) w.cut r
      → Tried descend (suc rounds) slots g
  unfolding try_children
  try_picked descend rounds slots g next ih again none e above = (
    none,
    next,
    rw (e, try_children) refl,
    λ child m b d l.
        let (i, n) = live_from-mem w 0 slots child m in
        absurd (true_false (sym b ∙ above (i, child.bound) n)),
  )
    where
      true_false : ¬ (true ≡ false)
      true_false e = ground arith
  try_picked descend rounds slots g next ih again (some i) e (b, m, low) =
      let (j, child, place, read, same) = live_from-read w 0 slots i b m in
      let at_i : get_elem? slots i ≡ some (some child) =
        subst (λ k. get_elem? slots k ≡ some (some child)) (omega arith) read in
      let (r, after, ran, answer) = ih child (mem_of_read slots i child at_i) next in
      pick-outcome descend rounds i slots child g next after e at_i
        (subst (λ x. is_below x w.cut ≡ true) same low) r ran answer (again i child after at_i)

  live_from-IsLight :
      (n : ℕ) (slots : List (Option (Candidate S A B)))
      → filled slots ≤ n
      → LightSlots n slots
      → IsLight w.floats w.node_order w.cut
          (length (live_from w 0 slots))
          (λ x. (i : ℕ) × ((i, x) ∈ live_from w 0 slots))
  live_from-IsLight n slots l h =
      IsLight-sub w.floats w.node_order w.cut n (length (live_from w 0 slots))
        (λ x. (child : Candidate S A B) × (some child ∈ slots) × (x ≡ child.bound))
        (λ x. (i : ℕ) × ((i, x) ∈ live_from w 0 slots))
        (omega (arith, length-live_from w 0 slots, l))
        (λ x (i, m).
          let (j, child, place, read, same) = live_from-read w 0 slots i x m in
          (child, mem_of_read slots j child read, same))
        h

  try_children_lem :
      (descend : Search) (rounds n : ℕ) (slots : List (Option (Candidate S A B))) (g : G)
      → filled slots < rounds
      → filled slots ≤ n
      → LightSlots n slots
      → ((child : Candidate S A B) → some child ∈ slots → Descends descend child)
      → Tried descend rounds slots g
  unfolding pick
  try_children_lem descend zero n slots g f l light ih = absurd (omega arith)
  try_children_lem descend (suc rounds) n slots g f l light ih =
      let (picked, next, drawn, p, _) =
        pick_index-IsPick w.generator w.floats w.node_order (live_from w 0 slots) w.cut g
          (live_from-IsLight n slots l light) in
      try_picked descend rounds slots g next ih
        (λ i child g read.
          try_children_lem descend rounds n (set slots i none) g
            (omega (arith, filled-set slots i child read))
            (omega (arith, filled-set slots i child read))
            (IsLight-sub w.floats w.node_order w.cut n n
              (λ x. (child : Candidate S A B) × (some child ∈ slots) × (x ≡ child.bound))
              (λ x. (child : Candidate S A B) × (some child ∈ set slots i none) × (x ≡ child.bound))
              (omega arith) (λ x (c, m, e). (c, set_was slots i c m, e)) light)
            (λ c m. ih c (set_was slots i c m)))
        picked drawn p

  choice-outcome :
      (c : Candidate S A B) (choice : List A)
      → w.next_choice c.space ≡ some choice
      → (r : Option (Candidate S A B)) → Answers (slots_of w c choice) r
      → IsAnswer c r
  choice-outcome c choice e (some d) (child, m, b, l) =
      decide c child d choice e ((slots_iff w c child choice).0 m) b l
  choice-outcome c choice e none all_dead = λ d l. refuted d l
    where
      refuted : (d : Candidate S A B) → ¬ Leads c d
      refuted d (leaf x last) = ground arith
      refuted d (decide x child y other f m b l) =
          let same : other ≡ choice = some-injective _ _ (sym f ∙ e) in
          all_dead child
            ((slots_iff w x child choice).1
              (subst (λ ch. child ∈ apply_choice w.world x ch) same m))
            b d l

  -- If no path of decisions from the candidate has more than `n` candidates, the search with fuel `n` ends
  -- without a panic, whatever the policy and the draws. It returns a fully specified candidate, reached by
  -- valid decisions below the cut, and returns nothing only if there is none. For the weighted policy the
  -- weights of the children of a candidate are positive, and the number of its decisions times the greatest
  -- of them is a `u32` (`AreLight`); `gen_range` draws within its range, and `WeightedChoice` draws an item
  -- if the total is a positive `u32`.
  pub descend_backtrack-IsAnswer :
      (n : ℕ) (c : Candidate S A B) (g : G)
      → IsWithin n c
      → AreLight n c
      → (r : Option (Candidate S A B)) × (next : G) × (descend_backtrack w n c g ≡ some (r, next))
        × IsAnswer c r
  unfolding descend_backtrack
  descend_backtrack-IsAnswer zero c g h light = absurd h
  descend_backtrack-IsAnswer (suc n) c g h light = elim (Option-cases (w.next_choice c.space)) [
    | inl last ↦ (some c, g, rw (last, descend_backtrack) refl, leaf c last)
    | inr (choice, e) ↦
        let slots = slots_of w c choice in
        let (here, below) = light choice e in
        let (r, next, ran, answers) =
          try_children_lem (descend_backtrack w n) (suc (length choice)) (length choice) slots g
            (omega (arith, filled-le w c choice)) (filled-le w c choice)
            (IsLight-sub w.floats w.node_order w.cut (length choice) (length choice)
              (λ x.
                (child : Candidate S A B) × (child ∈ apply_choice w.world c choice)
                × (x ≡ child.bound))
              (λ x. (child : Candidate S A B) × (some child ∈ slots) × (x ≡ child.bound))
              (omega arith) (λ x (child, m, same). (child, (slots_iff w c child choice).0 m, same))
              here)
            (λ child m g.
              descend_backtrack-IsAnswer n child g
                (h choice e child ((slots_iff w c child choice).0 m))
                (below child ((slots_iff w c child choice).0 m))) in
        (r, next, rw (e, descend_backtrack) ran, choice-outcome c choice e r answers)
  ]
