-- ===== src/Explorer/LocalSelection/Weights.antt =====
-- src/explorer/local_selection.rs: `choose_cand_weighted`.
use telamon.Prelude.{
  ℕ, ◌+◌, ◌-◌, ◌*◌, ◌≤◌, ◌<◌, ◌≡◌, refl, sym, ap, subst, inl, inr, false, Option, none, some, List,
  [], ◌∷◌, arith, Bool-cases, length, All, ◌∈◌, u32_mod,
}
use telamon.Prelude.Order.{Ord}
use telamon.Explorer.NodeOrder.{
  NewNodeOrder, weighted_random, Floats, Generator, total_weight, is_below, greatest_of, weight_of,
  weighted_items, choose_cand_weighted,
}

module _ {B : Type 0} ⦃o : Ord B⦄ where
  -- Some node of the list has the index.
  abbrev pub Picked : List (ℕ × B) → Option ℕ → Type 0
  Picked nodes none = nodes ≡ []
  Picked nodes (some i) = (b : B) × ((i, b) ∈ nodes)

  -- The draw does not panic and picks a node.
  abbrev pub IsDrawn : {G : Type 0} → List (ℕ × B) → Option (Option ℕ × G) → Type 0
  IsDrawn {G} nodes drawn =
      (picked : Option ℕ) × (next : G) × (drawn ≡ some (picked, next)) × Picked nodes picked

  module _ (f : Floats B) where
    -- If the policy is the weighted one, the weights of the bounds of `P` are positive, and `n` of them add
    -- up to a `u32`.
    abbrev pub IsLight : NewNodeOrder → B → ℕ → (B → Type 0) → Type 0
    IsLight order cut n P =
        order ≡ weighted_random
        → (most : ℕ) × (most * n < u32_mod)
          × ((x y : B) → P x → P y → (1 ≤ weight_of f cut y x) × (weight_of f cut y x ≤ most))

    at_most : (most k n : ℕ) → k ≤ n → most * k ≤ most * n
    at_most most k n l = omega (arith, ap (λ (t : ℕ). most * t) (split_le k n l).1)
      where
        split_le : (k n : ℕ) → k ≤ n → (j : ℕ) × (n ≡ k + j)
        split_le k n l = (n - k, omega (arith, l))

    pub IsLight-sub :
        (order : NewNodeOrder) (cut : B) (n k : ℕ) (P Q : B → Type 0)
        → k ≤ n
        → ((x : B) → Q x → P x)
        → IsLight order cut n P
        → IsLight order cut k Q
    IsLight-sub order cut n k P Q l sub h e =
        let (most, small, weights) = h e in
        (most, omega (arith, small, at_most most k n l), λ x y p q. weights x y (sub x p) (sub y q))

    abbrev items_of : B → B → List (ℕ × B) → List (ℕ × ℕ)
    items_of cut max_bound [] = []
    items_of cut max_bound ((i, x) ∷ nodes) =
        (weight_of f cut max_bound x, i) ∷ items_of cut max_bound nodes

    -- No node is above the cut, so the assertion holds.
    weighted_items-items_of :
        (cut max_bound : B) (nodes : List (ℕ × B))
        → All (λ node. is_below cut node.1 ≡ false) nodes
        → weighted_items f cut max_bound nodes ≡ some (items_of cut max_bound nodes)
    unfolding weighted_items
    weighted_items-items_of cut max_bound [] h = refl
    weighted_items-items_of cut max_bound ((i, x) ∷ nodes) h =
        let rest = weighted_items-items_of cut max_bound nodes h.1 in
        elim (Bool-cases (f.is_infinite cut)) [
          | inl e ↦ rw (weighted_items, e, rest) refl
          | inr e ↦ rw (weighted_items, e, h.0, rest) refl
        ]

    total-le :
        (most : ℕ) (cut max_bound : B) (nodes : List (ℕ × B))
        → ((i : ℕ) (x : B) → (i, x) ∈ nodes → weight_of f cut max_bound x ≤ most)
        → total_weight (items_of cut max_bound nodes) ≤ most * length nodes
    total-le most cut max_bound [] h = omega arith
    total-le most cut max_bound ((i, x) ∷ nodes) h =
        omega (arith, h i x (inl refl), total-le most cut max_bound nodes (λ j y m. h j y (inr m)))

    items_of-mem :
        (cut max_bound : B) (nodes : List (ℕ × B)) (weight i : ℕ)
        → (weight, i) ∈ items_of cut max_bound nodes
        → (x : B) × ((i, x) ∈ nodes)
    items_of-mem cut max_bound [] weight i m = absurd m
    items_of-mem cut max_bound ((j, x) ∷ nodes) weight i (inl e) =
        (x, inl (ap (λ (k : ℕ). (k, x)) (ap (λ p. p.1) e)))
    items_of-mem cut max_bound ((j, x) ∷ nodes) weight i (inr m) =
        let (y, n) = items_of-mem cut max_bound nodes weight i m in (y, inr n)

    greatest_of-mem :
        (i : ℕ) (best : B) (nodes : List (ℕ × B))
        → (j : ℕ) × ((j, greatest_of best nodes) ∈ (i, best) ∷ nodes)
    greatest_of-mem i best [] = (i, inl refl)
    greatest_of-mem i best ((k, b) ∷ nodes) = elim (Bool-cases (is_below b best)) [
      | inl less ↦
          let e : greatest_of best ((k, b) ∷ nodes) ≡ greatest_of best nodes =
            rw (less, greatest_of) refl in
          let (j, m) = greatest_of-mem i best nodes in
          (
            j,
            subst (λ x. (j, x) ∈ (i, best) ∷ (k, b) ∷ nodes) (sym e)
                (elim m [ inl same ↦ inl same | inr n ↦ inr (inr n) ]),
          )
      | inr more ↦
          let e : greatest_of best ((k, b) ∷ nodes) ≡ greatest_of b nodes =
            rw (more, greatest_of) refl in
          let (j, m) = greatest_of-mem k b nodes in
          (j, subst (λ x. (j, x) ∈ (i, best) ∷ (k, b) ∷ nodes) (sym e) (inr m))
    ]

    module _ {G : Type 0} (r : Generator G) where
      -- Over nodes that are not above the cut and not too heavy, the draw is from the nodes.
      pub choose_cand_weighted-IsDrawn :
          (cut : B) (nodes : List (ℕ × B)) (g : G)
          → All (λ node. is_below cut node.1 ≡ false) nodes
          → IsLight weighted_random cut (length nodes) (λ x. (i : ℕ) × ((i, x) ∈ nodes))
          → IsDrawn nodes (choose_cand_weighted r f nodes cut g)
      unfolding choose_cand_weighted
      choose_cand_weighted-IsDrawn cut [] g low light = (none, g, refl, refl)
      choose_cand_weighted-IsDrawn cut ((i, b) ∷ nodes) g low light =
          let (most, small, weights) = light refl in
          let max_bound = greatest_of b nodes in
          let greatest = greatest_of-mem i b nodes in
          let here = weights b max_bound (i, inl refl) greatest in
          let total =
            total-le most cut max_bound ((i, b) ∷ nodes)
              (λ j x m. (weights x max_bound (j, m) greatest).1) in
          let (item, next, drawn, weight, m) =
            r.weighted_choice-draws (items_of cut max_bound ((i, b) ∷ nodes)) g
              (omega (arith, here.0)) (omega (arith, total, small)) in
          let read = weighted_items-items_of cut max_bound ((i, b) ∷ nodes) low in
          (
            some item,
            next,
            rw (choose_cand_weighted, read, drawn) refl,
            items_of-mem cut max_bound ((i, b) ∷ nodes) weight item m,
          )
