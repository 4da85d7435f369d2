-- ===== src/Explorer/LocalSelection/Paths.antt =====
-- src/explorer/local_selection.rs: `descend` and the rollout that records its path.
use telamon.Prelude.{
  ℕ, zero, suc, ◌+◌, ◌≡◌, refl, ap, ◌∙◌, subst, inl, inr, true, false, Option, none, some, List, [],
  ◌∷◌, ◌++◌, arith, Option-cases, get_elem?, ◌∈◌, length, ◌≤◌,
}
use mathlib.Core.List.{append_assoc, append-nil}
use telamon.Prelude.Order.{Ord}
use telamon.Explorer.Candidate.{Candidate, apply_choice, apply_decision}
use telamon.Explorer.LocalSelection.{
  Rollout, pick, nodes_from, Stepped, moved, dead_end, implementation, step, descend,
  descend_with_path, moved_to,
}
use telamon.Explorer.NodeOrder.{is_below}
use telamon.Explorer.LocalSelection.Weights.{IsLight-sub}
use telamon.Explorer.LocalSelection.Picking.{IsPick, pick_index-IsPick}
use telamon.Explorer.LocalSelection.Backtracking.{IsWithin, LightChildren, AreLight}

module _ {S A B G : Type 0} ⦃o : Ord B⦄ (w : Rollout S A B G) where
  nodes_from-read :
      (k : ℕ) (cs : List (Candidate S A B)) (i : ℕ) (b : B)
      → (i, b) ∈ nodes_from w k cs
      → (j : ℕ) × (child : Candidate S A B) × (i ≡ k + j)
        × (get_elem? cs j ≡ some child)
        × (child ∈ cs)
        × (b ≡ child.bound)
  unfolding nodes_from
  nodes_from-read k [] i b m = absurd m
  nodes_from-read k (c ∷ cs) i b (inl e) =
      (0, c, ap (λ n. n.0) e ∙ omega arith, refl, inl refl, ap (λ n. n.1) e)
  nodes_from-read k (c ∷ cs) i b (inr m) =
      let (j, child, e, read, n, same) = nodes_from-read (k + 1) cs i b m in
      (suc j, child, omega arith, read, inr n, same)

  -- A path of valid decisions below the cut from `c`, each candidate with the choice that was made, that
  -- ends in a fully specified candidate or in a dead end.
  pub data IsTrail
      : Candidate S A B → List (Candidate S A B) → Option (Candidate S A B) → Type 0 where
    found : (c : Candidate S A B) → w.next_choice c.space ≡ none → IsTrail c [] (some c)
    stuck :
        (c : Candidate S A B) (choice : List A)
        → w.next_choice c.space ≡ some choice
        → ((child : Candidate S A B)
            → child ∈ apply_choice w.world c choice
            → is_below child.bound w.cut ≡ false)
        → IsTrail c (c ∷ []) none
    decided :
        (c child : Candidate S A B) (choice : List A) (trail : List (Candidate S A B))
        (r : Option (Candidate S A B))
        → w.next_choice c.space ≡ some choice
        → child ∈ apply_choice w.world c choice
        → is_below child.bound w.cut ≡ true
        → IsTrail child trail r
        → IsTrail c (c ∷ trail) r

  -- What a step means. It never panics.
  data IsStep (c : Candidate S A B) : Stepped w → Type 0 where
    to_child :
        (child : Candidate S A B) (choice : List A)
        → w.next_choice c.space ≡ some choice
        → child ∈ apply_choice w.world c choice
        → is_below child.bound w.cut ≡ true
        → IsStep c (moved child)
    ends :
        (choice : List A)
        → w.next_choice c.space ≡ some choice
        → ((child : Candidate S A B)
            → child ∈ apply_choice w.world c choice
            → is_below child.bound w.cut ≡ false)
        → IsStep c dead_end
    specified : w.next_choice c.space ≡ none → IsStep c implementation

  nodes_from-mem :
      (k : ℕ) (cs : List (Candidate S A B)) (child : Candidate S A B)
      → child ∈ cs
      → (i : ℕ) × ((i, child.bound) ∈ nodes_from w k cs)
  unfolding nodes_from
  nodes_from-mem k [] child m = absurd m
  nodes_from-mem k (c ∷ cs) child (inl e) = (k, inl (ap (λ (c : Candidate S A B). (k, c.bound)) e))
  nodes_from-mem k (c ∷ cs) child (inr m) =
      let (i, n) = nodes_from-mem (k + 1) cs child m in (i, inr n)

  length-nodes_from : (k : ℕ) (cs : List (Candidate S A B)) → length (nodes_from w k cs) ≡ length cs
  unfolding nodes_from
  length-nodes_from k [] = refl
  length-nodes_from k (c ∷ cs) = ap suc (length-nodes_from (k + 1) cs)

  length-apply_choice :
      (c : Candidate S A B) (choice : List A)
      → length (apply_choice w.world c choice) ≤ length choice
  unfolding apply_choice
  length-apply_choice c [] = omega arith
  length-apply_choice c (a ∷ choice) = elim (Option-cases (apply_decision w.world c a)) [
    | inl e ↦ rw (e, apply_choice) (omega (arith, length-apply_choice c choice))
    | inr (child, e) ↦ rw (e, apply_choice) (omega (arith, length-apply_choice c choice))
  ]

  -- What a step from a state of the generator comes to.
  abbrev Steps : Candidate S A B → G → Type 0
  Steps c g = (s : Stepped w) × (next : G) × (step w c g ≡ (s, next)) × IsStep c s

  picked-IsStep :
      (c : Candidate S A B) (choice : List A) (r : Option ℕ) (g next : G)
      → w.next_choice c.space ≡ some choice
      → pick w (nodes_from w 0 (apply_choice w.world c choice)) g ≡ some (r, next)
      → IsPick (nodes_from w 0 (apply_choice w.world c choice)) w.cut r
      → Steps c g
  unfolding step
  picked-IsStep c choice none g next e drawn above = (
    dead_end,
    next,
    rw (e, step, drawn) refl,
    ends choice e λ child m.
        let (i, n) = nodes_from-mem 0 (apply_choice w.world c choice) child m in
        above (i, child.bound) n,
  )
  picked-IsStep c choice (some i) g next e drawn (b, m, low) =
      let (j, child, place, read, n, same) =
        nodes_from-read 0 (apply_choice w.world c choice) i b m in
      let at_i : get_elem? (apply_choice w.world c choice) i ≡ some child =
        subst (λ k. get_elem? (apply_choice w.world c choice) k ≡ some child) (omega arith) read in
      (
        moved child,
        next,
        rw (e, step, drawn, at_i, moved_to) refl,
        to_child child choice e n (subst (λ x. is_below x w.cut ≡ true) same low),
      )

  step-IsStep :
      (c : Candidate S A B) (g : G)
      → ((choice : List A) → w.next_choice c.space ≡ some choice → LightChildren w c choice)
      → Steps c g
  unfolding step pick
  step-IsStep c g light = elim (Option-cases (w.next_choice c.space)) [
    | inl last ↦ (implementation, g, rw (last, step) refl, specified last)
    | inr (choice, e) ↦
        let children = apply_choice w.world c choice in
        let nodes = nodes_from w 0 children in
        let (r, next, drawn, p, _) =
          pick_index-IsPick w.generator w.floats w.node_order nodes w.cut g (
            IsLight-sub w.floats w.node_order w.cut (length choice) (length nodes)
              (λ x. (child : Candidate S A B) × (child ∈ children) × (x ≡ child.bound))
              (λ x. (i : ℕ) × ((i, x) ∈ nodes))
              (omega (arith, length-nodes_from 0 children, length-apply_choice c choice))
              (λ x (i, m).
                let (j, child, place, read, n, same) = nodes_from-read 0 children i x m in
                (child, n, same))
              (light choice e)) in
        picked-IsStep c choice r g next e drawn p
  ]

  -- Both rollouts return `r` and leave the generator in one state, and the one with the path records
  -- `trail`.
  abbrev pub Rolls : ℕ → Candidate S A B → G → Type 0
  Rolls n c g =
      (r : Option (Candidate S A B)) × (trail : List (Candidate S A B)) × (next : G) × (descend w n
          c g
        ≡ some (r, next))
      × ((path : List (Candidate S A B))
          → descend_with_path w n c path g ≡ some ((r, next), path ++ trail))
      × IsTrail c trail r

  step-outcome :
      (n : ℕ) (c : Candidate S A B) (g after : G) (s : Stepped w)
      → step w c g ≡ (s, after)
      → IsStep c s
      → ((child : Candidate S A B) (choice : List A) (g : G)
          → w.next_choice c.space ≡ some choice
          → child ∈ apply_choice w.world c choice
          → Rolls n child g)
      → Rolls (suc n) c g
  unfolding descend descend_with_path
  step-outcome n c g after s e (specified last) ih = (
    some c,
    [],
    after,
    rw (e, descend) (ap (λ (p : Stepped w × G). some (some c, p.1)) e),
    λ path.
        rw (e, descend_with_path, append-nil path)
          (ap (λ (p : Stepped w × G). some ((some c, p.1), path)) e),
    found c last,
  )
  step-outcome n c g after s e (ends choice f none_below) ih = (
    none,
    c ∷ [],
    after,
    rw (e, descend) (ap (λ (p : Stepped w × G). some (none, p.1)) e),
    λ path.
        rw (e, descend_with_path)
          (ap (λ (p : Stepped w × G). some ((none, p.1), path ++ (c ∷ []))) e),
    stuck c choice f none_below,
  )
  step-outcome n c g after s e (to_child child choice f m low) ih =
      let (r, trail, next, ran, ran_with, t) = ih child choice after f m in
      (
        r,
        c ∷ trail,
        next,
        rw (e, descend) (ap (λ (p : Stepped w × G). descend w n child p.1) e ∙ ran),
        λ path.
            rw (e, descend_with_path)
              (ap (λ (p : Stepped w × G). descend_with_path w n child (path ++ (c ∷ [])) p.1) e
                ∙ ran_with (path ++ (c ∷ []))
                ∙ ap (λ xs. some ((r, next), xs)) (append_assoc path (c ∷ []) trail)),
        decided c child choice trail r f m low t,
      )

  -- With fuel for the depth of the tree, both rollouts end without a panic whatever the policy and the draws,
  -- and started from one state of the generator they return the same and leave it in one state. The path
  -- recorded consists of valid decisions below the cut, up to a fully specified candidate or to a candidate
  -- that has no child below the cut. For the weighted policy the weights of the children of a candidate are
  -- positive, and the number of its decisions times the greatest of them is a `u32` (`AreLight`); `gen_range`
  -- draws within its range, and `WeightedChoice` draws an item if the total is a positive `u32`.
  pub descend-IsTrail :
      (n : ℕ) (c : Candidate S A B) (g : G) → IsWithin w n c → AreLight w n c → Rolls n c g
  descend-IsTrail zero c g h light = absurd h
  descend-IsTrail (suc n) c g h light =
      let (s, after, e, p) = step-IsStep c g (λ choice e. (light choice e).0) in
      step-outcome n c g after s e p (λ child choice g e m.
        descend-IsTrail n child g (h choice e child m) ((light choice e).1 child m))
