-- ===== src/Tests/Graphs.antt =====
-- Runs and instances for graphs: a chain of three nodes, and one on its own.
use telamon.Prelude.{ℕ, ◌≡◌, refl, some, [], ◌∷◌}
use telamon.Utils.Dag.{Dag, minima, predecessors}

abbrev chain : Dag ℕ
chain = record {
  nodes = 10 ∷ 20 ∷ 30 ∷ 40 ∷ [];
  before = [] ∷ [] ∷ (0 ∷ []) ∷ (2 ∷ []) ∷ [];
  after = (2 ∷ []) ∷ [] ∷ (3 ∷ []) ∷ [] ∷ [];
}

minima_run : minima chain ≡ 0 ∷ 1 ∷ []
unfolding minima
minima_run = refl

predecessors_run : predecessors chain 3 ≡ some (2 ∷ 0 ∷ [])
unfolding predecessors
predecessors_run = refl
