-- ===== src/Utils/Dag/Minima.antt =====
-- telamon-utils/src/dag.rs: `minima`, the nodes without predecessors.
use telamon.Prelude.{
  ℕ, zero, suc, ◌+◌, ◌≡◌, refl, subst, ◌↔◌, inl, inr, some, List, [], ◌∷◌, arith, get_elem?, ◌∈◌,
}
use telamon.Utils.Dag.{Dag, minima_from, minima, before_of}

minima_from-read :
    (k m : ℕ) (before : List (List ℕ))
    → m ∈ minima_from k before
    → (j : ℕ) × (m ≡ k + j) × (get_elem? before j ≡ some [])
unfolding minima_from
minima_from-read k m [] h = absurd h
minima_from-read k m ([] ∷ before) (inl e) = (0, omega arith, refl)
minima_from-read k m ([] ∷ before) (inr h) =
    let (j, e, read) = minima_from-read (k + 1) m before h in (suc j, omega arith, read)
minima_from-read k m ((x ∷ xs) ∷ before) h =
    let (j, e, read) = minima_from-read (k + 1) m before h in (suc j, omega arith, read)

minima_from-mem :
    (k j m : ℕ) (before : List (List ℕ))
    → m ≡ k + j
    → get_elem? before j ≡ some []
    → m ∈ minima_from k before
unfolding minima_from
minima_from-mem k j m [] e read = ground arith
minima_from-mem k zero m ([] ∷ before) e read = inl (omega arith)
minima_from-mem k zero m ((x ∷ xs) ∷ before) e read = ground arith
minima_from-mem k (suc j) m ([] ∷ before) e read =
    inr (minima_from-mem (k + 1) j m before (omega arith) read)
minima_from-mem k (suc j) m ((x ∷ xs) ∷ before) e read =
    minima_from-mem (k + 1) j m before (omega arith) read

-- `minima` lists the nodes whose list of predecessors is empty, and those alone.
pub minima_iff : {T : Type 0} (g : Dag T) (id : ℕ) → (id ∈ minima g) ↔ (before_of g id ≡ some [])
unfolding minima before_of
minima_iff g id = (
  λ m.
      let (j, e, read) = minima_from-read 0 id g.before m in
      subst (λ (i : ℕ). get_elem? g.before i ≡ some []) (omega arith) read,
  λ read. minima_from-mem 0 id id g.before (omega arith) read,
)
