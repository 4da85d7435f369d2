-- ===== src/Explorer/ParallelList/Workers.antt =====
-- src/explorer/parallel_list.rs: `ParallelCandidateList` under every order of the workers' steps.
use telamon.Prelude.{
  ℕ, zero, suc, ◌+◌, ◌<◌, ◌≡◌, refl, sym, ◌∙◌, subst, ◌≢◌, ◌⊎◌, inl, inr, true, some, List, [], ◌∷◌,
  arith, ◌==◌, ==→≡, Bool-cases, length, get_elem?, set, replicate, ◌∈◌, length-replicate,
  length-set,
}
use mathlib.Core.Option.{some-injective}
use telamon.Prelude.Order.{Ord}
use telamon.Explorer.Heap.{IntervalHeap, Takes}
use telamon.Explorer.CandidateList
use telamon.Explorer.CandidateList.{CandidateList, below, increment, decrement, usize_mod}
use telamon.Explorer.CandidateList.Cut.{AllBelow, update_cut-AllBelow, insert-AllBelow, pop-least}
use telamon.Explorer.ParallelList.Counting.{
  value, count_working, count_working-set, count_working-le, mem-count_working, mem-set, set-mem,
  get_elem?-set, empty_of_none, mem_of_get_elem?,
}
use telamon.Explorer.ParallelList.{
  Worker, working, waiting, done, Answer, found, finished, asleep, after, Pool, insert_all,
  insert_many, pop_round, after_pop, enter, wake, start, new, Step, inserts, cuts, pops, wakes,
  Reachable, here, next, with_list,
}

module _ {B : Type 0} ⦃o : Ord B⦄ {C : Type 0} (bound : C → B) (h : IntervalHeap bound) where
  -- The count is that of the workers outside of `pop`, some worker runs or has ended, and where one has
  -- ended there is nothing left.
  record IsCoherent (p : Pool bound h) : Type 0 where
    pub counts : p.running ≡ count_working p.workers
    pub small : length p.workers < usize_mod
    pub ended : done ∈ p.workers → (h.contents p.list.queue ≡ []) × (count_working p.workers ≡ 0)
    pub awake : (0 < count_working p.workers) ⊎ (done ∈ p.workers)
    pub all_below : AllBelow bound h p.list

  insert_all-AllBelow :
      (l : CandidateList bound h) (cs : List C)
      → AllBelow bound h l
      → AllBelow bound h (insert_all bound h l cs)
  unfolding insert_all
  insert_all-AllBelow l [] b = b
  insert_all-AllBelow l (c ∷ cs) b =
      insert_all-AllBelow (CandidateList.insert bound h l c) cs (insert-AllBelow bound h l c 0 b).0

  -- What one round of `pop` does.
  data Round (l : CandidateList bound h) (k : ℕ)
      : Answer C × (CandidateList bound h × ℕ) → Type 0 where
    ends : h.contents l.queue ≡ [] → k ≡ 1 → Round l k (finished, (l, decrement k))
    sleeps : h.contents l.queue ≡ [] → k ≢ 1 → Round l k (asleep, (l, decrement k))
    takes :
        (x : C) (r : CandidateList bound h)
        → Takes bound (h.contents l.queue) x (h.contents r.queue)
        → r.cut ≡ l.cut
        → Round l k (found x, (r, k))

  pop_round-Round : (l : CandidateList bound h) (k : ℕ) → Round l k (pop_round bound h l k)
  unfolding pop_round
  pop_round-Round l k = elim (pop-least bound h l) [
    | inl (nothing, empty) ↦ elim (Bool-cases (k == 1)) [
      | inl last ↦ rw (nothing, pop_round, after_pop, last) (ends empty (==→≡ k 1 last))
      | inr more ↦ rw (nothing, pop_round, after_pop, more) (sleeps empty (λ e. ground arith))
    ]
    | inr (x, r, popped, t, least, same) ↦ rw (popped, pop_round, after_pop) (takes x r t same)
  ]

  -- The pool after a round, by what the round returned.
  abbrev settle : Pool bound h → ℕ → Answer C × (CandidateList bound h × ℕ) → Pool bound h
  settle p i (answer, (list, left)) = record {
    list = list;
    running = left;
    workers = set p.workers i (after answer);
  }

  settle-IsCoherent :
      (p : Pool bound h) (i k : ℕ) (a : Worker) (result : Answer C × (CandidateList bound h × ℕ))
      → IsCoherent p
      → get_elem? p.workers i ≡ some a
      → ¬ (a ≡ done)
      → k + value a ≡ count_working p.workers + 1
      → k < usize_mod
      → Round p.list k result
      → IsCoherent (settle p i result)
  settle-IsCoherent p i k a result c read n e w (ends empty last) =
      let count = count_working-set p.workers i a done read in
      record {
        counts = omega (arith, count);
        small = omega (arith, length-set p.workers i done, c.small);
        ended = λ m. (empty, omega (arith, count));
        awake = inr (set-mem p.workers i a done read);
        all_below = c.all_below;
      }
  settle-IsCoherent p i k a result c read n e w (sleeps empty more) =
      let count = count_working-set p.workers i a waiting read in
      record {
        counts = omega (arith, count);
        small = omega (arith, length-set p.workers i waiting, c.small);
        ended = λ m. elim (mem-set p.workers i done waiting m) [
          | inl k ↦ ground arith
          | inr d ↦ absurd (omega (arith, count, (c.ended d).1))
        ];
        awake = inl (omega (arith, count));
        all_below = c.all_below;
      }
  settle-IsCoherent p i k a result c read n e w (takes x r t same) =
      let count = count_working-set p.workers i a working read in
      record {
        counts = omega (arith, count);
        small = omega (arith, length-set p.workers i working, c.small);
        ended = λ m. elim (mem-set p.workers i done working m) [
          | inl k ↦ ground arith
          | inr d ↦ absurd (subst (λ xs. x ∈ xs) (c.ended d).0 t.taken)
        ];
        awake = inl (omega (arith, count, count_working-set p.workers i a done read));
        all_below = λ y m.
            subst (λ z. below bound h (bound y) z ≡ true) (sym same) (c.all_below y (t.kept y m));
      }

  enter-IsCoherent :
      (p : Pool bound h) (i k : ℕ) (a : Worker)
      → IsCoherent p
      → get_elem? p.workers i ≡ some a
      → ¬ (a ≡ done)
      → k + value a ≡ count_working p.workers + 1
      → k < usize_mod
      → IsCoherent (enter bound h p i k)
  unfolding enter
  enter-IsCoherent p i k a c read n e w =
      settle-IsCoherent p i k a (pop_round bound h p.list k) c read n e w (pop_round-Round p.list k)

  Step-IsCoherent : (p q : Pool bound h) → Step bound h p q → IsCoherent p → IsCoherent q
  unfolding insert_many
  Step-IsCoherent p q (inserts r i candidates read) c =
      let busy = mem-count_working r.workers (mem_of_get_elem? r.workers i working read) in
      record {
        counts = c.counts;
        small = c.small;
        ended = λ m. absurd (omega (arith, busy, (c.ended m).1));
        awake = c.awake;
        all_below = insert_all-AllBelow r.list candidates c.all_below;
      }
  Step-IsCoherent p q (cuts r new_cut list cut) c =
      let (l, ran, same, left, counted) = update_cut-AllBelow bound h r.list new_cut in
      let found : l ≡ list = some-injective _ _ (sym ran ∙ cut) in
      subst (λ l. IsCoherent (with_list bound h r l)) found
        record {
          counts = c.counts;
          small = c.small;
          ended = λ m. (
            empty_of_none (h.contents l.queue)
                (λ x k. subst (λ xs. x ∈ xs) (c.ended m).0 ((left x).0 k).0),
            (c.ended m).1,
          );
          awake = c.awake;
          all_below =
              λ x m. subst (λ b. below bound h (bound x) b ≡ true) (sym same) ((left x).0 m).1;
        }
  Step-IsCoherent p q (pops r i read) c =
      enter-IsCoherent r i r.running working c read (λ e. ground arith) (omega (arith, c.counts))
        (omega (arith, c.counts, c.small, count_working-le r.workers))
  Step-IsCoherent p q (wakes r i read) c =
      let idle : count_working r.workers < length r.workers = idle_one r.workers i read in
      let up : increment r.running ≡ r.running + 1 = omega (arith, c.counts, c.small) in
      enter-IsCoherent r i (increment r.running) waiting c read (λ e. ground arith)
        (omega (arith, c.counts, up)) (omega (arith, c.counts, c.small, up))
    where
      idle_one :
          (ws : List Worker) (i : ℕ) → get_elem? ws i ≡ some waiting → count_working ws < length ws
      idle_one ws i read = omega (
        arith,
        count_working-set ws i waiting working read,
        count_working-le (set ws i working),
        length-set ws i working,
      )

  start-IsCoherent :
      (infinity : B) (n : ℕ) (candidates : List C)
      → 0 < n
      → n < usize_mod
      → IsCoherent (start bound h infinity n candidates)
  unfolding start CandidateList.new new insert_many
  start-IsCoherent infinity n candidates pos small = record {
    counts = sym (count_working-replicate n);
    small = omega (arith, length-replicate n working);
    ended = λ m. absurd (all_working n m);
    awake = inl (omega (arith, count_working-replicate n));
    all_below =
        insert_all-AllBelow (CandidateList.new bound h infinity) candidates
          (λ x m. absurd (subst (λ xs. x ∈ xs) h.new_empty m));
  }
    where
      count_working-replicate : (n : ℕ) → count_working (replicate n working) ≡ n
      count_working-replicate zero = refl
      count_working-replicate (suc n) = omega (arith, count_working-replicate n)

      all_working : (n : ℕ) → ¬ (done ∈ replicate n working)
      all_working zero m = m
      all_working (suc n) (inl e) = ground arith
      all_working (suc n) (inr m) = all_working n m

  Reachable-IsCoherent : (p q : Pool bound h) → IsCoherent p → Reachable bound h p q → IsCoherent q
  Reachable-IsCoherent p q c here = c
  Reachable-IsCoherent p q c (next r s path step) =
      Step-IsCoherent r s step (Reachable-IsCoherent p r c path)

  -- However the workers' steps and the updates of the cut are interleaved: once `pop` has answered `None`
  -- to one worker, no candidate is queued and no worker runs that could insert one. Until then at least
  -- one worker runs, so not all of them sleep.
  pub none_only_when_exhausted :
      (infinity : B) (n : ℕ) (candidates : List C) (p : Pool bound h)
      → 0 < n
      → n < usize_mod
      → Reachable bound h (start bound h infinity n candidates) p
      → (done ∈ p.workers → (h.contents p.list.queue ≡ []) × ¬ (working ∈ p.workers))
        × ((done ∈ p.workers) ⊎ (0 < count_working p.workers))
        × AllBelow bound h p.list
  none_only_when_exhausted infinity n candidates p pos small path =
      let c = Reachable-IsCoherent _ p (start-IsCoherent infinity n candidates pos small) path in
      (
        λ m. ((c.ended m).0, λ k. omega (arith, (c.ended m).1, mem-count_working p.workers k)),
        elim c.awake [ inl w ↦ inr w | inr d ↦ inl d ],
        c.all_below,
      )

  settle-done :
      (p : Pool bound h) (i k : ℕ) (result : Answer C × (CandidateList bound h × ℕ))
      → h.contents p.list.queue ≡ []
      → k ≡ 1
      → get_elem? p.workers i ≡ some waiting
      → Round p.list k result
      → get_elem? (settle p i result).workers i ≡ some done
  settle-done p i k result empty one read (ends e last) =
      get_elem?-set p.workers i waiting done read
  settle-done p i k result empty one read (sleeps e more) = absurd (more one)
  settle-done p i k result empty one read (takes x r t same) =
      absurd (subst (λ xs. x ∈ xs) empty t.taken)

  -- After the first `None`, a worker that still sleeps gets `None` as well when it wakes.
  pub wake-done :
      (infinity : B) (n : ℕ) (candidates : List C) (p : Pool bound h) (i : ℕ)
      → 0 < n
      → n < usize_mod
      → Reachable bound h (start bound h infinity n candidates) p
      → done ∈ p.workers
      → get_elem? p.workers i ≡ some waiting
      → get_elem? (wake bound h p i).workers i ≡ some done
  unfolding enter
  wake-done infinity n candidates p i pos small path m read =
      let c = Reachable-IsCoherent _ p (start-IsCoherent infinity n candidates pos small) path in
      let one : increment p.running ≡ 1 = omega (arith, c.counts, (c.ended m).1) in
      settle-done p i (increment p.running) (pop_round bound h p.list (increment p.running))
        (c.ended m).0 one read (pop_round-Round p.list (increment p.running))
