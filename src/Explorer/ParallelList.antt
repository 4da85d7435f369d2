-- ===== src/Explorer/ParallelList.antt =====
-- src/explorer/parallel_list.rs: `ParallelCandidateList`, shared by the workers. What a worker does while
-- it holds the lock is one step. `notify_all` lets a sleeping worker wake, which the relation allows at
-- any time, as a condition variable does.
pub mod Counting
pub mod Workers
use package.telamon.Prelude.{
  ℕ, zero, suc, ◌+◌, ◌-◌, ◌*◌, ◌/◌, ◌%◌, ◌^◌, ◌≤◌, ◌<◌, compare, Ordering, bit_and, bit_or, ◌≡◌,
  refl, sym, ap, ◌∙◌, subst, fun_ext, ◌≢◌, ◌↔◌, ◌⊎◌, inl, inr, Bool, true, false, not, ◌&&◌, ◌||◌,
  Option, none, some, List, [], ◌∷◌, ◌++◌, map, arith, ltb, leb, ◌==◌, if◌then◌else◌, ltb→lt,
  lt→ltb, leb→le, ==→≡, tests, Bool-cases, Option-cases, Ordering-cases, length, get_elem?, set,
  take, drop, replicate, ◌∈◌, All, length-append, length-replicate, length-set, take-append,
  drop-append, All-get_elem?, get_elem?-total, get_elem?-lt, mem-append_left, mem-append_right,
  mem-append_cases, u32_max, u32_mod, u16_mod, IsU32, add32, sub32, mul32, saturating_add,
  saturating_sub, saturating_mul, shl16_one, pred16,
}
use package.telamon.Prelude.Order.{Ord}
use package.telamon.Explorer.Heap.{IntervalHeap}
use package.telamon.Explorer.CandidateList
use package.telamon.Explorer.CandidateList.{CandidateList, increment, decrement}

-- A worker runs outside of `pop`, sleeps in it on the condition variable, or got `None` from it, upon
-- which its loop in explorer/mod.rs ends.
pub data Worker : Type 0 where
  working : Worker
  waiting : Worker
  done : Worker

pub data Answer (C : Type 0) : Type 0 where
  found : C → Answer C
  finished : Answer C
  asleep : Answer C

abbrev pub after : {C : Type 0} → Answer C → Worker
after (found c) = working
after finished = done
after asleep = waiting

module _ {B : Type 0} ⦃o : Ord B⦄ {C : Type 0} (bound : C → B) (h : IntervalHeap bound) where
  -- The mutex with its content, and the workers.
  pub record Pool : Type 0 where
    pub list : CandidateList bound h
    pub running : ℕ
    pub workers : List Worker

  unfoldable pub insert_all : CandidateList bound h → List C → CandidateList bound h
  insert_all l [] = l
  insert_all l (c ∷ cs) = insert_all (CandidateList.insert bound h l c) cs

  -- One round of the loop of `pop`, up to its `return` or to `wait`.
  unfoldable pub after_pop :
      Option C × CandidateList bound h → ℕ → Answer C × (CandidateList bound h × ℕ)
  after_pop (some candidate, list) running = (found candidate, (list, running))
  after_pop (none, list) running =
      if running == 1
      then (finished, (list, decrement running))
      else (asleep, (list, decrement running))

  unfoldable pub pop_round : CandidateList bound h → ℕ → Answer C × (CandidateList bound h × ℕ)
  unfolding after_pop
  pop_round list running = after_pop (CandidateList.pop bound h list) running

  unfoldable pub new : B → ℕ → List Worker → Pool
  new infinity num_worker workers = record {
    list = CandidateList.new bound h infinity;
    running = num_worker;
    workers = workers;
  }

  abbrev pub with_list : Pool → CandidateList bound h → Pool
  with_list p list = record { list = list; running = p.running; workers = p.workers }

  unfoldable pub insert_many : Pool → List C → Pool
  unfolding insert_all
  insert_many p candidates = with_list p (insert_all p.list candidates)

  -- Worker `i` has made a round of `pop` from the count `running`.
  unfoldable pub enter : Pool → ℕ → ℕ → Pool
  unfolding pop_round
  enter p i running =
      let (answer, (list, left)) = pop_round p.list running in
      record { list = list; running = left; workers = set p.workers i (after answer) }

  -- A worker calls `pop`, or goes on after `wait`, where the count is restored.
  abbrev pub pop : Pool → ℕ → Pool
  pop p i = enter p i p.running

  abbrev pub wake : Pool → ℕ → Pool
  wake p i = enter p i (increment p.running)

  pub data Step : Pool → Pool → Type 0 where
    inserts :
        (p : Pool) (i : ℕ) (candidates : List C)
        → get_elem? p.workers i ≡ some working
        → Step p (insert_many p candidates)
    cuts :
        (p : Pool) (new_cut : B) (list : CandidateList bound h)
        → CandidateList.update_cut bound h p.list new_cut ≡ some list
        → Step p (with_list p list)
    pops : (p : Pool) (i : ℕ) → get_elem? p.workers i ≡ some working → Step p (pop p i)
    wakes : (p : Pool) (i : ℕ) → get_elem? p.workers i ≡ some waiting → Step p (wake p i)

  -- `find_best_ex` fills the list before it starts its workers.
  unfoldable pub start : B → ℕ → List C → Pool
  unfolding new insert_many
  start infinity num_workers candidates =
      insert_many (new infinity num_workers (replicate num_workers working)) candidates

  pub data Reachable (p : Pool) : Pool → Type 0 where
    here : Reachable p p
    next : (q r : Pool) → Reachable p q → Step q r → Reachable p r
