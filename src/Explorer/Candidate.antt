-- ===== src/Explorer/Candidate.antt =====
-- src/explorer/candidate.rs: a node of the search tree. The search space, its actions and the bounds of
-- the performance model are given by `Space`; a bound is an `f64` that is not a NaN, so ordered.
use package.telamon.Prelude.{ℕ, ◌+◌, Option, none, some, List, [], ◌∷◌, length}

-- What the search tree needs of a search space `S` with actions `A` and bounds `B`: `ActionEx::apply_to`,
-- where `none` is an invalid action, and `model::bound`.
pub record Space (S A B : Type 0) : Type 0 where
  pub apply_to : A → S → Option S
  pub bound : S → B

pub record Candidate (S A B : Type 0) : Type 0 where
  pub space : S
  pub bound : B
  pub depth : ℕ
  pub actions : List A

module _ {S A B : Type 0} (world : Space S A B) where
  unfoldable pub with_actions : S → B → List A → Candidate S A B
  with_actions space bound actions = record {
    space = space;
    bound = bound;
    depth = length actions;
    actions = actions;
  }

  abbrev pub new : S → B → Candidate S A B
  new space bound = with_actions space bound []

  unfoldable pub apply_decision : Candidate S A B → A → Option (Candidate S A B)
  apply_decision c action = elim (world.apply_to action c.space) [
    | none ↦ none
    | some space ↦ some record {
      space = space;
      bound = world.bound space;
      depth = c.depth + 1;
      actions = action ∷ c.actions;
    }
  ]

  -- The valid children of a candidate, in the order of the choice.
  unfoldable pub apply_choice : Candidate S A B → List A → List (Candidate S A B)
  unfolding apply_decision
  apply_choice c [] = []
  apply_choice c (action ∷ choice) =
      let rest = apply_choice c choice in
      elim (apply_decision c action) [ none ↦ rest | some child ↦ child ∷ rest ]
