-- ===== src/Explorer/LocalSelection/Picking.antt =====
-- src/explorer/local_selection.rs: `pick_index` under every policy.
use telamon.Prelude.{
  ap, ℕ, zero, suc, ◌≤◌, ◌≡◌, refl, sym, ◌∙◌, subst, ◌↔◌, inl, inr, true, false, Option, none, some,
  List, [], ◌∷◌, arith, Bool-cases, ◌∈◌, All, length, get_elem?, get_elem?-total, ◌==◌,
}
use mathlib.Core.Option.{some-injective}
use telamon.Prelude.Order.{Ord}
use telamon.Explorer.NodeOrder.{
  NewNodeOrder, api, weighted_random, bound_order, random, Floats, Generator, is_below, below_cut,
  choose_cand_best, first_index, pick_index, choose_cand_rand,
}
use telamon.Explorer.LocalSelection.Best.{HasLeast, IsLeast, choose_cand_best-IsLeast, least_below}
use telamon.Explorer.LocalSelection.Weights.{
  IsLight, IsLight-sub, choose_cand_weighted-IsDrawn, Picked, IsDrawn,
}

module _ {B : Type 0} ⦃o : Ord B⦄ where
  below_cut_iff :
      (cut : B) (nodes : List (ℕ × B)) (node : ℕ × B)
      → (node ∈ below_cut cut nodes) ↔ (node ∈ nodes) × (is_below node.1 cut ≡ true)
  unfolding below_cut
  below_cut_iff cut [] node = (λ m. absurd m, λ m. m.0)
  below_cut_iff cut ((i, b) ∷ nodes) node =
      let rest = below_cut_iff cut nodes node in
      elim (Bool-cases (is_below b cut)) [
        | inl keep ↦
            rw (keep, below_cut)
              (
                elim [
                  | inl e ↦ (inl e, subst (λ n. is_below n.1 cut ≡ true) (sym e) keep)
                  | inr m ↦ (inr (rest.0 m).0, (rest.0 m).1)
                ],
                λ (m, k). elim m [ inl e ↦ inl e | inr n ↦ inr (rest.1 (n, k)) ],
              )
        | inr over ↦
            rw (over, below_cut)
              (
                λ m. (inr (rest.0 m).0, (rest.0 m).1),
                λ (m, k). elim m [
                  | inl e ↦
                      absurd (false_true (sym over ∙ subst (λ n. is_below n.1 cut ≡ true) e k))
                  | inr n ↦ rest.1 (n, k)
                ],
              )
      ]
    where
      false_true : ¬ (false ≡ true)
      false_true e = ground arith

  first_index-Picked : (nodes : List (ℕ × B)) → Picked nodes (first_index nodes)
  first_index-Picked [] = refl
  first_index-Picked ((i, b) ∷ nodes) = (b, inl refl)

  below_cut-le : (cut : B) (nodes : List (ℕ × B)) → length (below_cut cut nodes) ≤ length nodes
  unfolding below_cut
  below_cut-le cut [] = omega arith
  below_cut-le cut ((i, b) ∷ nodes) = elim (Bool-cases (is_below b cut)) [
    | inl keep ↦ rw (keep, below_cut) (omega (arith, below_cut-le cut nodes))
    | inr over ↦ rw (over, below_cut) (omega (arith, below_cut-le cut nodes))
  ]

  -- What a pick means for the nodes: one of them below the cut, or that none is.
  abbrev pub IsPick : List (ℕ × B) → B → Option ℕ → Type 0
  IsPick nodes cut none = (node : ℕ × B) → node ∈ nodes → is_below node.1 cut ≡ false
  IsPick nodes cut (some i) = (b : B) × ((i, b) ∈ nodes) × (is_below b cut ≡ true)

  -- What the policy asks of the pick: under `Bound` no node has a lower bound.
  abbrev pub IsBest : NewNodeOrder → List (ℕ × B) → Option ℕ → Type 0
  IsBest bound_order nodes (some i) = HasLeast nodes i
  IsBest bound_order nodes none = Unit
  IsBest api nodes picked = Unit
  IsBest random nodes picked = Unit
  IsBest weighted_random nodes picked = Unit

  IsLeast-Picked : (nodes : List (ℕ × B)) (r : Option ℕ) → IsLeast nodes r → Picked nodes r
  IsLeast-Picked nodes none h = h
  IsLeast-Picked nodes (some i) h = (h.0, h.1)

  is_best :
      (nodes : List (ℕ × B)) (cut : B) (r : Option ℕ)
      → IsLeast (below_cut cut nodes) r
      → IsBest bound_order nodes r
  is_best nodes cut none h = tt
  is_best nodes cut (some i) (b, m, least) =
      let (k, low) = (below_cut_iff cut nodes (i, b)).0 m in
      (
        b,
        k,
        λ node n.
            least_below cut b node.1 low
              (λ l. least node ((below_cut_iff cut nodes node).1 (n, l))),
      )

  is_pick :
      (nodes : List (ℕ × B)) (cut : B) (r : Option ℕ)
      → Picked (below_cut cut nodes) r
      → IsPick nodes cut r
  is_pick nodes cut none h = λ node m. elim (Bool-cases (is_below node.1 cut)) [
    | inl b ↦ absurd (subst (λ xs. node ∈ xs) h ((below_cut_iff cut nodes node).1 (m, b)))
    | inr b ↦ b
  ]
  is_pick nodes cut (some i) (b, m) = let (k, l) = (below_cut_iff cut nodes (i, b)).0 m in (b, k, l)

  get_elem?-mem :
      (nodes : List (ℕ × B)) (n : ℕ) (node : ℕ × B) → get_elem? nodes n ≡ some node → node ∈ nodes
  get_elem?-mem [] n node e = ground arith
  get_elem?-mem (x ∷ nodes) zero node e = inl (sym (some-injective _ _ e))
  get_elem?-mem (x ∷ nodes) (suc n) node e = inr (get_elem?-mem nodes n node e)

  not_above : (a b : B) → is_below a b ≡ true → is_below b a ≡ false
  not_above a b e = ground (arith, o.turned a b, e)

  below_cut-not_above :
      (cut : B) (nodes : List (ℕ × B))
      → All (λ node. is_below cut node.1 ≡ false) (below_cut cut nodes)
  unfolding below_cut
  below_cut-not_above cut [] = tt
  below_cut-not_above cut ((i, b) ∷ nodes) = elim (Bool-cases (is_below b cut)) [
    | inl keep ↦ rw (keep, below_cut) (not_above b cut keep, below_cut-not_above cut nodes)
    | inr over ↦ rw (over, below_cut) (below_cut-not_above cut nodes)
  ]

  module _ {G : Type 0} (r : Generator G) (f : Floats B) where
    choose_cand_rand-IsDrawn :
        (nodes : List (ℕ × B)) (g : G) → IsDrawn nodes (choose_cand_rand r nodes g)
    unfolding choose_cand_rand
    choose_cand_rand-IsDrawn [] g = (none, g, refl, refl)
    choose_cand_rand-IsDrawn (node ∷ nodes) g =
        let n = (r.gen_range 0 (length (node ∷ nodes)) g).0 in
        let bounds = r.gen_range-within 0 (length (node ∷ nodes)) g (omega arith) in
        let (found, read) = get_elem?-total (node ∷ nodes) n bounds.1 in
        let filled : (length (node ∷ nodes) == 0) ≡ false = ground arith in
        (
          some found.0,
          (r.gen_range 0 (length (node ∷ nodes)) g).1,
          rw (choose_cand_rand, filled, read) refl,
          (found.1, get_elem?-mem (node ∷ nodes) n found read),
        )

    pick_index-IsDrawn :
        (order : NewNodeOrder) (nodes : List (ℕ × B)) (cut : B) (g : G)
        → IsLight f order cut (length nodes) (λ x. (i : ℕ) × ((i, x) ∈ nodes))
        → IsDrawn (below_cut cut nodes) (pick_index r f order nodes cut g)
    unfolding pick_index
    pick_index-IsDrawn api nodes cut g h =
        (first_index (below_cut cut nodes), g, refl, first_index-Picked (below_cut cut nodes))
    pick_index-IsDrawn bound_order nodes cut g h = (
      choose_cand_best (below_cut cut nodes),
      g,
      refl,
      IsLeast-Picked (below_cut cut nodes) (choose_cand_best (below_cut cut nodes))
          (choose_cand_best-IsLeast (below_cut cut nodes)),
    )
    pick_index-IsDrawn random nodes cut g h = choose_cand_rand-IsDrawn (below_cut cut nodes) g
    pick_index-IsDrawn weighted_random nodes cut g h =
        choose_cand_weighted-IsDrawn f r cut (below_cut cut nodes) g (below_cut-not_above cut nodes)
          (IsLight-sub f weighted_random cut (length nodes) (length (below_cut cut nodes))
            (λ x. (i : ℕ) × ((i, x) ∈ nodes)) (λ x. (i : ℕ) × ((i, x) ∈ below_cut cut nodes))
            (below_cut-le cut nodes) (λ x (i, m). (i, ((below_cut_iff cut nodes (i, x)).0 m).0)) h)

    pick_index-IsBest :
        (order : NewNodeOrder) (nodes : List (ℕ × B)) (cut : B) (g next : G) (picked : Option ℕ)
        → pick_index r f order nodes cut g ≡ some (picked, next)
        → IsBest order nodes picked
    unfolding pick_index
    pick_index-IsBest api nodes cut g next picked e = tt
    pick_index-IsBest random nodes cut g next picked e = tt
    pick_index-IsBest weighted_random nodes cut g next picked e = tt
    pick_index-IsBest bound_order nodes cut g next picked e =
        subst (λ p. IsBest bound_order nodes p)
          (ap (λ (p : Option ℕ × G). p.0) (some-injective _ _ e))
          (is_best nodes cut (choose_cand_best (below_cut cut nodes))
            (choose_cand_best-IsLeast (below_cut cut nodes)))

    -- Whatever the policy and the draws, `pick_index` returns without a panic the index of a node whose bound
    -- is below the cut, and nothing only if every bound is at the cut or above; under the policy `Bound` no
    -- node has a lower bound than the one it returns. For the weighted policy the weights of the nodes are
    -- positive, and their number times the greatest of them is a `u32` (`IsLight`); `gen_range` draws within
    -- its range, and `WeightedChoice` draws an item if the total is a positive `u32`.
    pub pick_index-IsPick :
        (order : NewNodeOrder) (nodes : List (ℕ × B)) (cut : B) (g : G)
        → IsLight f order cut (length nodes) (λ x. (i : ℕ) × ((i, x) ∈ nodes))
        → (picked : Option ℕ) × (next : G) × (pick_index r f order nodes cut g
            ≡ some (picked, next))
          × IsPick nodes cut picked
          × IsBest order nodes picked
    pick_index-IsPick order nodes cut g h =
        let (picked, next, e, p) = pick_index-IsDrawn order nodes cut g h in
        (
          picked,
          next,
          e,
          is_pick nodes cut picked p,
          pick_index-IsBest order nodes cut g next picked e,
        )
