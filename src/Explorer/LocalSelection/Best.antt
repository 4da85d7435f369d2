-- ===== src/Explorer/LocalSelection/Best.antt =====
-- src/explorer/local_selection.rs: `choose_cand_best`, which takes the least node as `cmp_f64` orders them.
use telamon.Prelude.{
  ℕ, ◌≡◌, refl, sym, subst, inl, inr, true, false, Option, none, some, List, [], ◌∷◌, arith,
  Bool-cases, ◌∈◌,
}
use telamon.Prelude.Order.{Ord}
use telamon.Explorer.NodeOrder.{is_below, least_of, choose_cand_best}
use Prim.Native.Nat.Ordering.{lt}

module _ {B : Type 0} ⦃o : Ord B⦄ where
  is_below_trans : (a b c : B) → is_below a b ≡ true → is_below b c ≡ true → is_below a c ≡ true
  is_below_trans a b c p q =
      let less : o.cmp a b ≡ lt = ground arith in
      let less' : o.cmp b c ≡ lt = ground arith in rw (o.lt_trans a b c less less', is_below) refl

  not_below_self : (a : B) → is_below a a ≡ false
  not_below_self a = rw ((o.same a a).1 refl, is_below) refl

  -- As the order is total, `a <= b` and `c <= a` give `c <= b`.
  not_below_trans : (a b c : B) → is_below b a ≡ false → is_below a c ≡ false → is_below b c ≡ false
  not_below_trans a b c p q = elim (Bool-cases (is_below b c)) [
    | inr e ↦ e
    | inl e ↦ elim (Bool-cases (is_below a b)) [
      | inl l ↦ absurd (ground (arith, is_below_trans a b c l e))
      | inr l ↦
          let level : a ≡ b = (o.same a b).0 (ground (arith, o.turned a b)) in
          subst (λ x. is_below x c ≡ false) level q
    ]
  ]

  -- No node has a lower bound than the one that is taken.
  least_of-least :
      (best : ℕ × B) (nodes : List (ℕ × B)) (node : ℕ × B)
      → node ∈ best ∷ nodes
      → is_below node.1 (least_of best nodes).1 ≡ false
  least_of-least best [] node (inl e) =
      subst (λ n. is_below n.1 best.1 ≡ false) (sym e) (not_below_self best.1)
  least_of-least best [] node (inr m) = absurd m
  least_of-least best ((i, b) ∷ nodes) node m = elim (Bool-cases (is_below b best.1)) [
    | inl less ↦
        let first = least_of-least (i, b) nodes (i, b) (inl refl) in
        let turned : is_below best.1 b ≡ false = ground (arith, o.turned b best.1) in
        rw (less, least_of)
          elim m [
            | inl e ↦
                subst (λ n. is_below n.1 (least_of (i, b) nodes).1 ≡ false) (sym e)
                  (not_below_trans b best.1 _ turned first)
            | inr later ↦ least_of-least (i, b) nodes node later
          ]
    | inr more ↦
        let first = least_of-least best nodes best (inl refl) in
        rw (more, least_of)
          elim m [
            | inl e ↦ least_of-least best nodes node (inl e)
            | inr (inl e) ↦
                subst (λ n. is_below n.1 (least_of best nodes).1 ≡ false) (sym e)
                  (not_below_trans best.1 b _ more first)
            | inr (inr later) ↦ least_of-least best nodes node (inr later)
          ]
  ]

  least_of-mem : (best : ℕ × B) (nodes : List (ℕ × B)) → least_of best nodes ∈ best ∷ nodes
  least_of-mem best [] = inl refl
  least_of-mem best ((i, b) ∷ nodes) = elim (Bool-cases (is_below b best.1)) [
    | inl less ↦
        let e : least_of best ((i, b) ∷ nodes) ≡ least_of (i, b) nodes = rw (less, least_of) refl in
        subst (λ n. n ∈ best ∷ (i, b) ∷ nodes) (sym e) (inr (least_of-mem (i, b) nodes))
    | inr more ↦
        let e : least_of best ((i, b) ∷ nodes) ≡ least_of best nodes = rw (more, least_of) refl in
        subst (λ n. n ∈ best ∷ (i, b) ∷ nodes) (sym e)
          (elim (least_of-mem best nodes) [ inl k ↦ inl k | inr m ↦ inr (inr m) ])
  ]

  -- A node with this index has the least bound of the nodes.
  abbrev pub HasLeast : List (ℕ × B) → ℕ → Type 0
  HasLeast nodes i =
      (b : B) × ((i, b) ∈ nodes) × ((node : ℕ × B) → node ∈ nodes → is_below node.1 b ≡ false)

  abbrev pub IsLeast : List (ℕ × B) → Option ℕ → Type 0
  IsLeast nodes none = nodes ≡ []
  IsLeast nodes (some i) = HasLeast nodes i

  pub choose_cand_best-IsLeast : (nodes : List (ℕ × B)) → IsLeast nodes (choose_cand_best nodes)
  unfolding choose_cand_best
  choose_cand_best-IsLeast [] = refl
  choose_cand_best-IsLeast (node ∷ nodes) =
      ((least_of node nodes).1, least_of-mem node nodes, least_of-least node nodes)

  -- Below the cut, the least of the nodes below the cut is the least of all.
  pub least_below :
      (cut b x : B)
      → is_below b cut ≡ true
      → (is_below x cut ≡ true → is_below x b ≡ false)
      → is_below x b ≡ false
  least_below cut b x low h = elim (Bool-cases (is_below x b)) [
    | inl e ↦ h (is_below_trans x b cut e low)
    | inr e ↦ e
  ]
