-- ===== src/Explorer/NodeOrder.antt =====
-- src/explorer/local_selection.rs and src/explorer/config.rs: the policies that pick a child. A draw takes
-- the state of the thread's generator and gives the next one; an outer `none` is a panic.
use package.telamon.Prelude.{
  ℕ, ◌+◌, ◌<◌, ◌≤◌, ◌≡◌, Bool, true, false, Option, none, some, List, [], ◌∷◌, ltb, if◌then◌else◌,
  ◌==◌, length, get_elem?, ◌∈◌, u32_mod, add32,
}
use package.telamon.Prelude.Order.{Ord}
use Prim.Native.Nat.Ordering.{lt}

-- src/explorer/config.rs: the policy that picks a child.
pub data NewNodeOrder : Type 0 where
  api : NewNodeOrder
  weighted_random : NewNodeOrder
  bound_order : NewNodeOrder
  random : NewNodeOrder

-- What the weights compute with in `f64`. `floor_u32` is `floor` with the cast to `u32`, and `of_nat` a
-- literal.
pub record Floats (B : Type 0) : Type 0 where
  pub of_nat : ℕ → B
  pub mul : B → B → B
  pub div : B → B → B
  pub sub : B → B → B
  pub floor_u32 : B → ℕ
  pub is_infinite : B → Bool

-- The items of a weighted choice, each with its weight first.
abbrev pub total_weight : List (ℕ × ℕ) → ℕ
total_weight [] = 0
total_weight ((weight, item) ∷ items) = weight + total_weight items

-- The crate rand: `gen_range` of the thread's generator, with its state, and `WeightedChoice`, with `new`
-- and `sample` in one. `WeightedChoice::new` is documented to panic if there is no weight or if the total
-- is not a `u32`.
pub record Generator (G : Type 0) : Type 0 where
  pub gen_range : ℕ → ℕ → G → ℕ × G
  pub weighted_choice : List (ℕ × ℕ) → G → Option (ℕ × G)
  pub gen_range-within :
      (low high : ℕ) (g : G)
      → low < high
      → (low ≤ (gen_range low high g).0) × ((gen_range low high g).0 < high)
  pub weighted_choice-draws :
      (items : List (ℕ × ℕ)) (g : G)
      → 0 < total_weight items
      → total_weight items < u32_mod
      → (item : ℕ) × (next : G) × (weighted_choice items g ≡ some (item, next))
        × (weight : ℕ) × ((weight, item) ∈ items)

abbrev pub push_item : ℕ × ℕ → Option (List (ℕ × ℕ)) → Option (List (ℕ × ℕ))
push_item item none = none
push_item item (some items) = some (item ∷ items)

module _ {G : Type 0} (r : Generator G) where
  -- The draw from the items.
  abbrev pub draw_from : Option (List (ℕ × ℕ)) → G → Option (Option ℕ × G)
  draw_from none g = none
  draw_from (some []) g = some (none, g)
  draw_from (some (item ∷ items)) g = elim (r.weighted_choice (item ∷ items) g) [
    | none ↦ none
    | some (i, next) ↦ some (some i, next)
  ]

module _ {B : Type 0} ⦃o : Ord B⦄ where
  abbrev pub is_below : B → B → Bool
  is_below a b = elim (o.cmp a b) [ lt ↦ true | _ ↦ false ]

  -- `nodes.filter(|&(_, b)| b < cut)`
  unfoldable pub below_cut : B → List (ℕ × B) → List (ℕ × B)
  below_cut cut [] = []
  below_cut cut ((i, b) ∷ nodes) =
      let rest = below_cut cut nodes in if is_below b cut then (i, b) ∷ rest else rest

  -- `min_by` returns the first of the least nodes.
  abbrev pub least_of : ℕ × B → List (ℕ × B) → ℕ × B
  least_of best [] = best
  least_of best ((i, b) ∷ nodes) =
      if is_below b best.1 then least_of (i, b) nodes else least_of best nodes

  unfoldable pub choose_cand_best : List (ℕ × B) → Option ℕ
  choose_cand_best [] = none
  choose_cand_best (node ∷ nodes) = some (least_of node nodes).0

  abbrev pub first_index : List (ℕ × B) → Option ℕ
  first_index [] = none
  first_index ((i, b) ∷ nodes) = some i

  -- `max_by` returns the last of the greatest nodes, of which the bound is taken.
  abbrev pub greatest_of : B → List (ℕ × B) → B
  greatest_of best [] = best
  greatest_of best ((i, b) ∷ nodes) =
      if is_below b best then greatest_of best nodes else greatest_of b nodes

  module _ (f : Floats B) where
    -- The weight of the bound `x`: the addition to 1 wraps, as in a release build.
    unfoldable pub weight_of : B → B → B → ℕ
    weight_of cut max_bound x =
        if f.is_infinite cut
        then add32 1 (f.floor_u32 (f.div (f.mul (f.of_nat 10) max_bound) x))
        else (let weight = f.floor_u32 (f.mul (f.of_nat 1000) (f.sub (f.of_nat 1) (f.div x cut))) in
            if ltb weight 1 then 1 else weight)

    -- The loop over the nodes; `none` is the panic of the assertion `x <= cut`.
    unfoldable pub weighted_items : B → B → List (ℕ × B) → Option (List (ℕ × ℕ))
    unfolding weight_of
    weighted_items cut max_bound [] = some []
    weighted_items cut max_bound ((ind, x) ∷ nodes) =
        let later = weighted_items cut max_bound nodes in
        let checked = push_item (weight_of cut max_bound x, ind) later in
        if f.is_infinite cut then checked else if is_below cut x then none else checked

  module _ {G : Type 0} (r : Generator G) where
    unfoldable pub choose_cand_rand : List (ℕ × B) → G → Option (Option ℕ × G)
    choose_cand_rand nodes g =
        if length nodes == 0
        then some (none, g)
        else (let (n, next) = r.gen_range 0 (length nodes) g in
            some (elim (get_elem? nodes n) [ none ↦ none | some node ↦ some node.0 ], next))

    unfoldable pub choose_cand_weighted : Floats B → List (ℕ × B) → B → G → Option (Option ℕ × G)
    unfolding weighted_items
    choose_cand_weighted f [] cut g = some (none, g)
    choose_cand_weighted f ((i, b) ∷ nodes) cut g =
        draw_from r (weighted_items f cut (greatest_of b nodes) ((i, b) ∷ nodes)) g

    unfoldable pub pick_index :
        Floats B → NewNodeOrder → List (ℕ × B) → B → G → Option (Option ℕ × G)
    unfolding below_cut choose_cand_best choose_cand_rand choose_cand_weighted
    pick_index f api nodes cut g = some (first_index (below_cut cut nodes), g)
    pick_index f weighted_random nodes cut g = choose_cand_weighted f (below_cut cut nodes) cut g
    pick_index f bound_order nodes cut g = some (choose_cand_best (below_cut cut nodes), g)
    pick_index f random nodes cut g = choose_cand_rand (below_cut cut nodes) g
