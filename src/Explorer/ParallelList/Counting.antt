-- ===== src/Explorer/ParallelList/Counting.antt =====
-- src/explorer/parallel_list.rs: counting the workers of `ParallelCandidateList` that run.
use telamon.Prelude.{
  ℕ, zero, suc, ◌+◌, ◌≤◌, ◌<◌, ◌≡◌, refl, sym, ap, ◌⊎◌, inl, inr, Option, none, some, List, [], ◌∷◌,
  arith, length, get_elem?, set, ◌∈◌,
}
use telamon.Explorer.ParallelList.{Worker, working, waiting, done}

abbrev pub value : Worker → ℕ
value working = 1
value waiting = 0
value done = 0

abbrev pub count_working : List Worker → ℕ
count_working [] = 0
count_working (w ∷ ws) = value w + count_working ws

abbrev worth : Option Worker → ℕ
worth none = 0
worth (some w) = value w

abbrev worker_or : Worker → Option Worker → Worker
worker_or d none = d
worker_or d (some w) = w

pub same_worker : (w a : Worker) → some w ≡ some a → w ≡ a
same_worker w a e = ap (worker_or w) e

pub count_working-set :
    (ws : List Worker) (i : ℕ) (a b : Worker)
    → get_elem? ws i ≡ some a
    → count_working (set ws i b) + value a ≡ count_working ws + value b
count_working-set [] i a b e = ground arith
count_working-set (w ∷ ws) zero a b e = ground (arith, ap worth e)
count_working-set (w ∷ ws) (suc i) a b e = omega (arith, count_working-set ws i a b e)

pub count_working-le : (ws : List Worker) → count_working ws ≤ length ws
count_working-le [] = omega arith
count_working-le (working ∷ ws) = omega (arith, count_working-le ws)
count_working-le (waiting ∷ ws) = omega (arith, count_working-le ws)
count_working-le (done ∷ ws) = omega (arith, count_working-le ws)

pub mem-count_working : (ws : List Worker) → working ∈ ws → 0 < count_working ws
mem-count_working [] m = absurd m
mem-count_working (w ∷ ws) (inl e) = omega (arith, ap value e)
mem-count_working (w ∷ ws) (inr m) = omega (arith, mem-count_working ws m)

pub mem-set : (ws : List Worker) (i : ℕ) (a b : Worker) → a ∈ set ws i b → (a ≡ b) ⊎ (a ∈ ws)
mem-set [] i a b m = absurd m
mem-set (w ∷ ws) zero a b (inl e) = inl e
mem-set (w ∷ ws) zero a b (inr m) = inr (inr m)
mem-set (w ∷ ws) (suc i) a b (inl e) = inr (inl e)
mem-set (w ∷ ws) (suc i) a b (inr m) = elim (mem-set ws i a b m) [
  | inl e ↦ inl e
  | inr k ↦ inr (inr k)
]

pub set-mem : (ws : List Worker) (i : ℕ) (a b : Worker) → get_elem? ws i ≡ some a → b ∈ set ws i b
set-mem [] i a b e = ground arith
set-mem (w ∷ ws) zero a b e = inl refl
set-mem (w ∷ ws) (suc i) a b e = inr (set-mem ws i a b e)

pub get_elem?-set :
    (ws : List Worker) (i : ℕ) (a b : Worker)
    → get_elem? ws i ≡ some a
    → get_elem? (set ws i b) i ≡ some b
get_elem?-set [] i a b e = ground arith
get_elem?-set (w ∷ ws) zero a b e = refl
get_elem?-set (w ∷ ws) (suc i) a b e = get_elem?-set ws i a b e

pub empty_of_none : {A : Type 0} (xs : List A) → ((x : A) → ¬ (x ∈ xs)) → xs ≡ []
empty_of_none [] n = refl
empty_of_none (x ∷ xs) n = absurd (n x (inl refl))

pub mem_of_get_elem? : (ws : List Worker) (i : ℕ) (a : Worker) → get_elem? ws i ≡ some a → a ∈ ws
mem_of_get_elem? [] i a e = ground arith
mem_of_get_elem? (w ∷ ws) zero a e = inl (sym (same_worker w a e))
mem_of_get_elem? (w ∷ ws) (suc i) a e = inr (mem_of_get_elem? ws i a e)
