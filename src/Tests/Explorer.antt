-- ===== src/Tests/Explorer.antt =====
-- Runs and instances for the exploration. A candidate is its bound, and the heap is a list.
use telamon.Prelude.{
  ℕ, ◌+◌, ◌<◌, ◌≡◌, refl, ◌↔◌, ◌⊎◌, inl, true, some, [], ◌∷◌, arith, get_elem?, ◌∈◌,
}
use telamon.Prelude.Order.{nat_ord}
use telamon.Explorer.Heap.Selection.{list_heap}
use telamon.Explorer.CandidateList
use telamon.Explorer.CandidateList.{CandidateList, below, usize_mod}
use telamon.Explorer.CandidateList.Cut.{
  AllBelow, Queued, IsCounted, update_cut-AllBelow, insert-AllBelow,
}
use telamon.Explorer.ParallelList.{
  working, waiting, done, Pool, pop, wake, enter, start, Reachable, here, next, pops,
}
use telamon.Explorer.ParallelList.Counting.{count_working}
use telamon.Explorer.ParallelList.Workers.{none_only_when_exhausted, wake-done}

abbrev itself : ℕ → ℕ
itself n = n

abbrev three : CandidateList itself list_heap
three = record { cut = 100; queue = 7 ∷ 3 ∷ 9 ∷ []; n_leaf = 0; n_candidate = 4; n_dropped = 1 }

update_cut_run :
    CandidateList.update_cut itself list_heap three 7
    ≡ some (record { cut = 7; queue = 3 ∷ []; n_leaf = 0; n_candidate = 4; n_dropped = 3 })
unfolding CandidateList.update_cut
update_cut_run = refl

update_cut-AllBelow_example :
    (r : CandidateList itself list_heap) × (CandidateList.update_cut itself list_heap three 7
      ≡ some r)
    × (r.cut ≡ 7)
    × ((x : ℕ)
        → Queued itself list_heap x r
          ↔ Queued itself list_heap x three × (below itself list_heap x 7 ≡ true))
    × ((n : ℕ) → IsCounted itself list_heap n three → IsCounted itself list_heap n r)
update_cut-AllBelow_example = update_cut-AllBelow itself list_heap three 7

three-AllBelow : AllBelow itself list_heap three
three-AllBelow x m = ground arith

insert-AllBelow_example :
    AllBelow itself list_heap (CandidateList.insert itself list_heap three 5)
    × ((x : ℕ)
        → Queued itself list_heap x (CandidateList.insert itself list_heap three 5)
          ↔ (((x ≡ 5) × (below itself list_heap 5 100 ≡ true)) ⊎ Queued itself list_heap x three))
    × (4 + 1 < usize_mod
        → IsCounted itself list_heap 0 three
        → IsCounted itself list_heap 0 (CandidateList.insert itself list_heap three 5))
insert-AllBelow_example = insert-AllBelow itself list_heap three 5 0 three-AllBelow

-- Two workers and one candidate: the first takes it, the second sleeps, and the first gets `None`.
abbrev Workers : Type 0
Workers = Pool itself list_heap

abbrev pool : Workers
pool = start itself list_heap 100 2 (5 ∷ [])

abbrev taken : Workers
taken = pop itself list_heap pool 0

abbrev sleeping : Workers
sleeping = pop itself list_heap taken 1

abbrev ended : Workers
ended = pop itself list_heap sleeping 0

path : Reachable itself list_heap pool ended
unfolding start enter CandidateList.pop CandidateList.insert CandidateList.new
path =
    next sleeping ended
      (next taken sleeping (next pool taken here (pops pool 0 refl)) (pops taken 1 refl))
      (pops sleeping 0 refl)

ended-done : done ∈ ended.workers
unfolding start enter CandidateList.pop CandidateList.insert CandidateList.new
ended-done = inl refl

ended-waiting : get_elem? ended.workers 1 ≡ some waiting
unfolding start enter CandidateList.pop CandidateList.insert CandidateList.new
ended-waiting = refl

none_only_when_exhausted_example :
    (done ∈ ended.workers → (ended.list.queue ≡ []) × ¬ (working ∈ ended.workers))
    × ((done ∈ ended.workers) ⊎ (0 < count_working ended.workers))
    × AllBelow itself list_heap ended.list
none_only_when_exhausted_example =
    none_only_when_exhausted itself list_heap 100 2 (5 ∷ []) ended (omega arith) (omega arith) path

wake-done_example : get_elem? (wake itself list_heap ended 1).workers 1 ≡ some done
wake-done_example =
    wake-done itself list_heap 100 2 (5 ∷ []) ended 1 (omega arith) (omega arith) path ended-done
      ended-waiting
