-- ===== src/Explorer/LocalSelection.antt =====
-- src/explorer/local_selection.rs: the rollouts, over the policies of Explorer/NodeOrder. The order of the
-- choices, `choice::list(..).next()`, is a parameter. The state of the thread's generator is passed on from
-- one draw to the next.
pub mod Slots
pub mod Weights
pub mod Best
pub mod Picking
pub mod Backtracking
pub mod Paths
use package.telamon.Prelude.{
  ℕ, zero, suc, ◌+◌, ◌-◌, ◌*◌, ◌/◌, ◌%◌, ◌^◌, ◌≤◌, ◌<◌, compare, Ordering, bit_and, bit_or, ◌≡◌,
  refl, sym, ap, ◌∙◌, subst, fun_ext, ◌≢◌, ◌↔◌, ◌⊎◌, inl, inr, Bool, true, false, not, ◌&&◌, ◌||◌,
  Option, none, some, List, [], ◌∷◌, ◌++◌, map, arith, ltb, leb, ◌==◌, if◌then◌else◌, ltb→lt,
  lt→ltb, leb→le, ==→≡, tests, Bool-cases, Option-cases, Ordering-cases, length, get_elem?, set,
  take, drop, replicate, ◌∈◌, All, length-append, length-replicate, length-set, take-append,
  drop-append, All-get_elem?, get_elem?-total, get_elem?-lt, mem-append_left, mem-append_right,
  mem-append_cases, u32_max, u32_mod, u16_mod, IsU32, add32, sub32, mul32, saturating_add,
  saturating_sub, saturating_mul, shl16_one, pred16,
}
use package.telamon.Prelude.Order.{Ord}
use package.telamon.Explorer.Candidate.{Candidate, Space, apply_decision, apply_choice}
use package.telamon.Explorer.NodeOrder.{NewNodeOrder, Floats, Generator, pick_index}

-- `Rollout`: the next choice of a space, the policy, what it computes and draws with, and the cut.
pub record Rollout (S A B G : Type 0) : Type 0 where
  pub world : Space S A B
  pub next_choice : S → Option (List A)
  pub node_order : NewNodeOrder
  pub floats : Floats B
  pub generator : Generator G
  pub cut : B

module _ {S A B G : Type 0} ⦃o : Ord B⦄ (w : Rollout S A B G) where
  -- The vector of children, in which an invalid action leaves a hole.
  unfoldable pub slots_of : Candidate S A B → List A → List (Option (Candidate S A B))
  unfolding apply_decision
  slots_of c [] = []
  slots_of c (action ∷ choice) = apply_decision w.world c action ∷ slots_of c choice

  -- The children that are left, with their places from `i` on.
  unfoldable pub live_from : ℕ → List (Option (Candidate S A B)) → List (ℕ × B)
  live_from i [] = []
  live_from i (none ∷ slots) = live_from (i + 1) slots
  live_from i (some child ∷ slots) = (i, child.bound) ∷ live_from (i + 1) slots

  -- The policy of the rollout.
  unfoldable pub pick : List (ℕ × B) → G → Option (Option ℕ × G)
  unfolding pick_index
  pick nodes g = pick_index w.generator w.floats w.node_order nodes w.cut g

  -- The loop of `descend_backtrack`, with the recursive call `descend`: each round empties a slot. The
  -- outer `none` is a panic or a search that is cut short.
  unfoldable pub try_children :
      (Candidate S A B → G → Option (Option (Candidate S A B) × G))
      → ℕ
      → List (Option (Candidate S A B))
      → G
      → Option (Option (Candidate S A B) × G)
  unfolding pick live_from
  try_children descend zero slots g = none
  try_children descend (suc rounds) slots g = elim (pick (live_from 0 slots) g) [
    | none ↦ none
    | some (picked, g') ↦ elim picked [
      | none ↦ some (none, g')
      | some i ↦ elim (get_elem? slots i) [
        | none ↦ none
        | some slot ↦ elim slot [
          | none ↦ none
          | some child ↦ elim (descend child g') [
            | none ↦ none
            | some (answer, next) ↦ elim answer [
              | some implementation ↦ some (some implementation, next)
              | none ↦ try_children descend rounds (set slots i none) next
            ]
          ]
        ]
      ]
    ]
  ]

  -- The fuel bounds the depth of the tree below the candidate.
  unfoldable pub descend_backtrack : ℕ → Candidate S A B → G → Option (Option (Candidate S A B) × G)
  unfolding try_children slots_of
  descend_backtrack zero c g = none
  descend_backtrack (suc fuel) c g = elim (w.next_choice c.space) [
    | none ↦ some (some c, g)
    | some choice ↦
        try_children (descend_backtrack fuel) (suc (length choice)) (slots_of c choice) g
  ]

  -- `pick_candidate`: the bounds of the candidates, with their places from `i` on.
  unfoldable pub nodes_from : ℕ → List (Candidate S A B) → List (ℕ × B)
  nodes_from i [] = []
  nodes_from i (c ∷ cs) = (i, c.bound) ∷ nodes_from (i + 1) cs

  -- The results of `step`: the next candidate, or an error of `RolloutError`. A `panic` is an index out
  -- of the children, or one of the policy.
  pub data Stepped : Type 0 where
    moved : Candidate S A B → Stepped
    dead_end : Stepped
    implementation : Stepped
    panic : Stepped

  abbrev pub moved_to : Option (Candidate S A B) → Stepped
  moved_to none = panic
  moved_to (some child) = moved child

  unfoldable pub step : Candidate S A B → G → Stepped × G
  unfolding pick nodes_from apply_choice
  step c g = elim (w.next_choice c.space) [
    | none ↦ (implementation, g)
    | some choice ↦
        let children = apply_choice w.world c choice in
        elim (pick (nodes_from 0 children) g) [
          | none ↦ (panic, g)
          | some (picked, next) ↦ elim picked [
            | none ↦ (dead_end, next)
            | some i ↦ (moved_to (get_elem? children i), next)
          ]
        ]
  ]

  -- The loop of `descend`; the outer `none` is a panic or a loop that is cut short.
  unfoldable pub descend : ℕ → Candidate S A B → G → Option (Option (Candidate S A B) × G)
  unfolding step
  descend zero c g = none
  descend (suc fuel) c g = elim (step c g).0 [
    | moved next ↦ descend fuel next (step c g).1
    | dead_end ↦ some (none, (step c g).1)
    | implementation ↦ some (some c, (step c g).1)
    | panic ↦ none
  ]

  -- `descend_with_path` pushes the candidates that it leaves onto the path.
  unfoldable pub descend_with_path :
      ℕ
      → Candidate S A B
      → List (Candidate S A B)
      → G
      → Option ((Option (Candidate S A B) × G) × List (Candidate S A B))
  unfolding step
  descend_with_path zero c path g = none
  descend_with_path (suc fuel) c path g = elim (step c g).0 [
    | moved next ↦ descend_with_path fuel next (path ++ (c ∷ [])) (step c g).1
    | implementation ↦ some ((some c, (step c g).1), path)
    | dead_end ↦ some ((none, (step c g).1), path ++ (c ∷ []))
    | panic ↦ none
  ]
