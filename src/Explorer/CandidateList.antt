-- ===== src/Explorer/CandidateList.antt =====
-- src/explorer/parallel_list.rs: `CandidateList`, the queue of the candidates whose bound is below the cut.
-- The log messages are left out. The counters are `usize`.
pub mod Cut
use package.telamon.Prelude.{
  ℕ, zero, suc, ◌+◌, ◌-◌, ◌*◌, ◌/◌, ◌%◌, ◌^◌, ◌≤◌, ◌<◌, compare, Ordering, bit_and, bit_or, ◌≡◌,
  refl, sym, ap, ◌∙◌, subst, fun_ext, ◌≢◌, ◌↔◌, ◌⊎◌, inl, inr, Bool, true, false, not, ◌&&◌, ◌||◌,
  Option, none, some, List, [], ◌∷◌, ◌++◌, map, arith, ltb, leb, ◌==◌, if◌then◌else◌, ltb→lt,
  lt→ltb, leb→le, ==→≡, tests, Bool-cases, Option-cases, Ordering-cases, length, get_elem?, take,
  drop, replicate, ◌∈◌, All, length-append, length-replicate, length-set, take-append, drop-append,
  All-get_elem?, get_elem?-total, get_elem?-lt, mem-append_left, mem-append_right, mem-append_cases,
  u32_max, u32_mod, u16_mod, IsU32, add32, sub32, mul32, saturating_add, saturating_sub,
  saturating_mul, shl16_one, pred16,
}
use package.telamon.Prelude.Order.{Ord}
use package.telamon.Explorer.Heap.{IntervalHeap}
use Prim.Native.Nat.Ordering.{lt}

abbrev pub usize_mod : ℕ
usize_mod = 18_446_744_073_709_551_616

abbrev pub increment : ℕ → ℕ
increment n = (n + 1) % usize_mod

abbrev pub decrement : ℕ → ℕ
decrement n = (n + usize_mod - 1) % usize_mod

module _ {B : Type 0} ⦃o : Ord B⦄ {C : Type 0} (bound : C → B) (h : IntervalHeap bound) where
  pub record CandidateList : Type 0 where
    pub cut : B
    pub queue : h.Queue
    pub n_leaf : ℕ
    pub n_candidate : ℕ
    pub n_dropped : ℕ

  abbrev pub below : B → B → Bool
  below a b = elim (o.cmp a b) [ lt ↦ true | _ ↦ false ]

  unfoldable pub new : B → CandidateList
  new infinity = record {
    cut = infinity;
    queue = h.new;
    n_leaf = 0;
    n_candidate = 0;
    n_dropped = 0;
  }

  abbrev pub drop_candidate : CandidateList → CandidateList
  drop_candidate l = record {
    cut = l.cut;
    queue = l.queue;
    n_leaf = l.n_leaf;
    n_candidate = l.n_candidate;
    n_dropped = increment l.n_dropped;
  }

  abbrev pub with_queue : CandidateList → h.Queue → CandidateList
  with_queue l queue = record {
    cut = l.cut;
    queue = queue;
    n_leaf = l.n_leaf;
    n_candidate = l.n_candidate;
    n_dropped = l.n_dropped;
  }

  abbrev pub count_candidate : CandidateList → CandidateList
  count_candidate l = record {
    cut = l.cut;
    queue = l.queue;
    n_leaf = l.n_leaf;
    n_candidate = increment l.n_candidate;
    n_dropped = l.n_dropped;
  }

  unfoldable pub insert : CandidateList → C → CandidateList
  insert l c =
      let counted = count_candidate l in
      if below (bound c) l.cut
      then with_queue counted (h.push c counted.queue)
      else drop_candidate counted

  -- The loop of `update_cut`; `none` is the panic of `unwrap!`, or a loop that is cut short.
  unfoldable pub drop_above : ℕ → CandidateList → Option CandidateList
  drop_above zero l = none
  drop_above (suc fuel) l = elim (h.max l.queue) [
    | none ↦ some l
    | some x ↦ if below (bound x) l.cut then some l else elim (h.pop_max l.queue) [
      | none ↦ none
      | some (candidate, queue) ↦ drop_above fuel (drop_candidate (with_queue l queue))
    ]
  ]

  abbrev pub with_cut : CandidateList → B → CandidateList
  with_cut l cut = record {
    cut = cut;
    queue = l.queue;
    n_leaf = l.n_leaf;
    n_candidate = l.n_candidate;
    n_dropped = l.n_dropped;
  }

  -- Each round pops an item, so one round more than there are items is enough.
  unfoldable pub update_cut : CandidateList → B → Option CandidateList
  unfolding drop_above
  update_cut l new_cut = drop_above (suc (h.len l.queue)) (with_cut l new_cut)

  unfoldable pub pop : CandidateList → Option C × CandidateList
  pop l = elim (h.pop_min l.queue) [
    | none ↦ (none, l)
    | some (candidate, queue) ↦ (some candidate, with_queue l queue)
  ]
