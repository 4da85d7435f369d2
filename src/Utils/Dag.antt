-- ===== src/Utils/Dag.antt =====
-- telamon-utils/src/dag.rs: a directed acyclic graph given by its adjacency lists, with the walks on it. A
-- missing index is a panic, `none`.
pub mod Minima
use package.telamon.Prelude.{
  ℕ, zero, suc, ◌+◌, ◌-◌, ◌*◌, ◌/◌, ◌%◌, ◌^◌, ◌≤◌, ◌<◌, min, max, compare, Ordering, bit_and,
  bit_or, ◌≡◌, refl, sym, ap, ◌∙◌, subst, fun_ext, ◌≢◌, ◌↔◌, ◌⊎◌, inl, inr, Bool, true, false, not,
  ◌&&◌, ◌||◌, Option, none, some, List, [], ◌∷◌, ◌++◌, map, arith, ltb, leb, ◌==◌, if◌then◌else◌,
  ltb→lt, lt→ltb, leb→le, ==→≡, tests, Bool-cases, Option-cases, Ordering-cases, length, get_elem?,
  set, take, drop, replicate, ◌∈◌, All, length-append, length-replicate, length-set, take-append,
  drop-append, All-get_elem?, get_elem?-total, get_elem?-lt, mem-append_left, mem-append_right,
  mem-append_cases, u32_max, u32_mod, u16_mod, IsU32, add32, sub32, mul32, saturating_add,
  saturating_sub, saturating_mul, shl16_one, pred16,
}

pub record Dag (T : Type 0) : Type 0 where
  pub nodes : List T
  pub before : List (List ℕ)
  pub after : List (List ℕ)

-- The variables of the loop of `predecessors`; the stack has its top first.
pub record Walk : Type 0 where
  pub visited : List Bool
  pub stack : List ℕ
  pub preds : List ℕ

-- The places of the empty lists, from `i` on.
unfoldable pub minima_from : ℕ → List (List ℕ) → List ℕ
minima_from i [] = []
minima_from i ([] ∷ before) = i ∷ minima_from (i + 1) before
minima_from i ((x ∷ xs) ∷ before) = minima_from (i + 1) before

-- The `for` loop of `predecessors` over the nodes before one.
unfoldable pub visit_before : List ℕ → Walk → Option Walk
visit_before [] w = some w
visit_before (b ∷ ids) w =
    let skip = visit_before ids w in
    let enter =
      visit_before ids record {
        visited = set w.visited b true;
        stack = b ∷ w.stack;
        preds = w.preds ++ (b ∷ []);
      } in
    elim (get_elem? w.visited b) [ none ↦ none | some seen ↦ if seen then skip else enter ]

module _ {T : Type 0} where
  unfoldable pub before_of : Dag T → ℕ → Option (List ℕ)
  before_of g id = get_elem? g.before id

  unfoldable pub after_of : Dag T → ℕ → Option (List ℕ)
  after_of g id = get_elem? g.after id

  unfoldable pub minima : Dag T → List ℕ
  unfolding minima_from
  minima g = minima_from 0 g.before

  -- The `while` loop. Each round pops a node, and a node is pushed once, so one round more than there are
  -- nodes below `id`, and one for `id`, is enough; `none` is also a loop that is cut short.
  unfoldable pub walk : Dag T → ℕ → Walk → Option (List ℕ)
  unfolding before_of visit_before
  walk g zero w = none
  walk g (suc fuel) w = elim w.stack [
    | [] ↦ some w.preds
    | id ∷ stack ↦ elim (before_of g id) [
      | none ↦ none
      | some ids ↦
          elim (visit_before ids record { visited = w.visited; stack = stack; preds = w.preds }) [
            | none ↦ none
            | some next ↦ walk g fuel next
          ]
    ]
  ]

  unfoldable pub predecessors : Dag T → ℕ → Option (List ℕ)
  unfolding walk
  predecessors g id =
      walk g (id + 2) record { visited = replicate id false; stack = id ∷ []; preds = [] }
