-- ===== src/Explorer/CandidateList/Cut.antt =====
-- src/explorer/parallel_list.rs: the queue of `CandidateList`, its cut and its counters.
use telamon.Prelude.{
  ℕ, zero, suc, ◌+◌, ◌<◌, ◌≡◌, refl, sym, ap, ◌∙◌, subst, ◌↔◌, ◌⊎◌, inl, inr, true, false, none,
  some, [], arith, Bool-cases, Option-cases, Ordering-cases, length, ◌∈◌,
}
use telamon.Prelude.Order.{Ord, swap}
use telamon.Explorer.Heap.{IntervalHeap, Takes}
use telamon.Explorer.CandidateList.{
  CandidateList, below, insert, drop_above, update_cut, pop, usize_mod, drop_candidate, with_queue,
  with_cut,
}
use Prim.Native.Nat.Ordering.{lt}

module _ {B : Type 0} ⦃o : Ord B⦄ {C : Type 0} (bound : C → B) (h : IntervalHeap bound) where
  abbrev pub Queued : C → CandidateList bound h → Type 0
  Queued c l = c ∈ h.contents l.queue

  abbrev pub AllBelow : CandidateList bound h → Type 0
  AllBelow l = (x : C) → Queued x l → below bound h (bound x) l.cut ≡ true

  -- The candidates counted are those dropped, those queued, and `popped` others.
  abbrev pub IsCounted : ℕ → CandidateList bound h → Type 0
  IsCounted popped l =
      (l.n_candidate ≡ popped + length (h.contents l.queue) + l.n_dropped)
      × (l.n_candidate < usize_mod)

  below-lt : (a b : B) → below bound h a b ≡ true → o.cmp a b ≡ lt
  below-lt a b e = ground arith

  lt-below : (a b : B) → o.cmp a b ≡ lt → below bound h a b ≡ true
  lt-below a b e = ground arith

  not_less_lt : (a b c : B) → ¬ (o.cmp a b ≡ lt) → o.cmp a c ≡ lt → o.cmp b c ≡ lt
  not_less_lt a b c n l = elim (Ordering-cases (o.cmp a b)) [
    | inl less ↦ absurd (n less)
    | inr (inl same) ↦ subst (λ x. o.cmp x c ≡ lt) ((o.same a b).0 same) l
    | inr (inr more) ↦ o.lt_trans b a c (o.turned a b ∙ ap swap more) l
  ]

  -- What the loop of `update_cut` returns.
  record Cut (l r : CandidateList bound h) : Type 0 where
    pub all_below : AllBelow r
    pub same_cut : r.cut ≡ l.cut
    pub stays : (x : C) → Queued x l → below bound h (bound x) l.cut ≡ true → Queued x r
    pub was : (x : C) → Queued x r → Queued x l
    pub counted : (n : ℕ) → IsCounted n l → IsCounted n r

  -- The largest bound is below the cut.
  Cut-stop :
      (l : CandidateList bound h) (x : C)
      → below bound h (bound x) l.cut ≡ true
      → ((y : C) → Queued y l → ¬ (o.cmp (bound x) (bound y) ≡ lt))
      → Cut l l
  Cut-stop l x keep most = record {
    all_below = λ y m.
        lt-below (bound y) l.cut
          (not_less_lt (bound x) (bound y) l.cut (most y m) (below-lt (bound x) l.cut keep));
    same_cut = refl;
    stays = λ y m b. m;
    was = λ y m. m;
    counted = λ n c. c;
  }

  -- The largest is dropped, and the loop goes on to `r`.
  Cut-drop :
      (l : CandidateList bound h) (x : C) (q : h.Queue) (r : CandidateList bound h)
      → below bound h (bound x) l.cut ≡ false
      → Takes bound (h.contents l.queue) x (h.contents q)
      → Cut (drop_candidate bound h (with_queue bound h l q)) r
      → Cut l r
  Cut-drop l x q r over takes cut = record {
    all_below = cut.all_below;
    same_cut = cut.same_cut;
    stays = λ y m b. elim (takes.rest_of y m) [
      | inl e ↦ ground (arith, ap bound e)
      | inr k ↦ cut.stays y k b
    ];
    was = λ y m. takes.kept y (cut.was y m);
    counted = λ n c. cut.counted n (ground (arith, takes.one_less));
  }

  drop_above-Cut :
      (fuel : ℕ) (l : CandidateList bound h)
      → length (h.contents l.queue) < fuel
      → (r : CandidateList bound h) × (drop_above bound h fuel l ≡ some r) × Cut l r
  unfolding drop_above
  drop_above-Cut zero l f = absurd (omega arith)
  drop_above-Cut (suc fuel) l f = elim (Option-cases (h.max l.queue)) [
    | inl empty ↦
        let nothing = h.max_none l.queue empty in
        (
          l,
          rw (empty, drop_above) refl,
          record {
            all_below = λ x m. absurd (rw nothing at m);
            same_cut = refl;
            stays = λ x m b. m;
            was = λ x m. m;
            counted = λ n c. c;
          },
        )
    | inr (x, top) ↦ elim (Bool-cases (below bound h (bound x) l.cut)) [
      | inl keep ↦
          (l, rw (top, keep, drop_above) refl, Cut-stop l x keep (h.max_takes l.queue x top).3)
      | inr over ↦
          let (q, popped, takes, most) = h.max_takes l.queue x top in
          let (r, ran, cut) =
            drop_above-Cut fuel (drop_candidate bound h (with_queue bound h l q))
              (omega (arith, takes.one_less)) in
          (r, rw (top, over, popped, drop_above) ran, Cut-drop l x q r over takes cut)
    ]
  ]

  -- `update_cut` ends without a panic. What is left are the queued candidates whose bound is below the
  -- new cut, all of them, and the counters still count what is queued and dropped.
  pub update_cut-AllBelow :
      (l : CandidateList bound h) (new_cut : B)
      → (r : CandidateList bound h) × (update_cut bound h l new_cut ≡ some r)
        × (r.cut ≡ new_cut)
        × ((x : C) → Queued x r ↔ Queued x l × (below bound h (bound x) new_cut ≡ true))
        × ((n : ℕ) → IsCounted n l → IsCounted n r)
  unfolding update_cut
  update_cut-AllBelow l new_cut =
      let (r, ran, cut) =
        drop_above-Cut (suc (h.len l.queue)) (with_cut bound h l new_cut)
          (omega (arith, h.len_lem l.queue)) in
      (
        r,
        ran,
        cut.same_cut,
        λ x. (
          λ m. (
            cut.was x m,
            subst (λ c. below bound h (bound x) c ≡ true) cut.same_cut (cut.all_below x m),
          ),
          λ (m, b). cut.stays x m b,
        ),
        cut.counted,
      )

  -- `insert` queues the candidate if its bound is below the cut and drops it otherwise, keeps the queued
  -- candidates below the cut, and counts the candidate.
  pub insert-AllBelow :
      (l : CandidateList bound h) (c : C) (n : ℕ)
      → AllBelow l
      → AllBelow (insert bound h l c)
        × ((x : C)
            → Queued x (insert bound h l c)
              ↔ (((x ≡ c) × (below bound h (bound c) l.cut ≡ true)) ⊎ Queued x l))
        × (l.n_candidate + 1 < usize_mod → IsCounted n l → IsCounted n (insert bound h l c))
  unfolding insert
  insert-AllBelow l c n all = elim (Bool-cases (below bound h (bound c) l.cut)) [
    | inl b ↦
        let takes = h.push_takes c l.queue in
        rw (b, insert)
          (
            λ x m. elim (takes.rest_of x m) [
              | inl e ↦ subst (λ y. below bound h (bound y) l.cut ≡ true) (sym e) b
              | inr k ↦ all x k
            ],
            λ x. (
              λ m. elim (takes.rest_of x m) [ inl e ↦ inl (e, refl) | inr k ↦ inr k ],
              elim [
                | inl (e, r) ↦ subst (λ y. y ∈ h.contents (h.push c l.queue)) (sym e) takes.taken
                | inr k ↦ takes.kept x k
              ],
            ),
            λ small counted. ground (arith, takes.one_less, counted.0),
          )
    | inr b ↦
        rw (b, insert)
          (
            all,
            λ x. (λ m. inr m, elim [ inl (e, r) ↦ absurd (false_true r) | inr k ↦ k ]),
            λ small counted. ground (arith, counted.0),
          )
  ]
    where
      false_true : ¬ (false ≡ true)
      false_true e = ground arith

  -- `pop` returns a candidate of the least bound and takes it out of the queue, or nothing if the queue
  -- is empty.
  pub pop-least :
      (l : CandidateList bound h)
      → ((pop bound h l ≡ (none, l)) × (h.contents l.queue ≡ []))
        ⊎ ((c : C) × (r : CandidateList bound h) × (pop bound h l ≡ (some c, r))
            × Takes bound (h.contents l.queue) c (h.contents r.queue)
            × ((x : C) → Queued x l → ¬ (o.cmp (bound x) (bound c) ≡ lt))
            × (r.cut ≡ l.cut))
  unfolding pop
  pop-least l = elim (Option-cases (h.pop_min l.queue)) [
    | inl empty ↦ inl (rw (empty, pop) refl, h.min_none l.queue empty)
    | inr ((c, q), first) ↦
        let (takes, least) = h.min_takes l.queue c q first in
        inr (c, with_queue bound h l q, rw (first, pop) refl, takes, least, refl)
  ]
