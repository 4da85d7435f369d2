-- ===== src/Runtime/Range/Lattice.antt =====
-- telamon-gen/src/print/runtime/range.rs: `Range` as a lattice of sets of integers.
use telamon.Prelude.{ℕ, ◌≤◌, ◌≡◌, ◌↔◌, true, false, some, arith}
use telamon.Runtime.NumSet.Order.{Lawful}
use telamon.Runtime.Range.{
  Range, range_num_set, insert, restrict, contains, is_failed, is_constrained, as_fixed,
}

-- The integers that a range stands for.
abbrev pub Holds : Range → ℕ → Type 0
Holds r a = (r.min ≤ a) × (a ≤ r.max)

abbrev pub range_lawful : Lawful range_num_set
range_lawful = record {
  Holds = λ r _ a. Holds r a;
  min_le = λ r _ a h. h.0;
  le_max = λ r _ a h. h.1;
}

-- `restrict` is the intersection.
pub restrict_iff : (r s : Range) (a : ℕ) → Holds (restrict r s) a ↔ Holds r a × Holds s a
unfolding restrict
restrict_iff r s a = (ground arith, ground arith)

-- `insert` is the least range that holds both.
pub insert-least :
    (r s t : Range)
    → (contains (insert r s) r ≡ true)
      × (contains (insert r s) s ≡ true)
      × (contains t r ≡ true → contains t s ≡ true → contains t (insert r s) ≡ true)
unfolding insert contains
insert-least r s t = (ground arith, ground arith, ground arith)

-- `is_failed` says that no integer is left.
pub is_failed_iff : (r : Range) → (is_failed r ≡ true) ↔ ((a : ℕ) → ¬ Holds r a)
unfolding is_failed
is_failed_iff r = (λ e a h. ground arith, λ none_left. ground (arith, none_left r.min))

-- Of a range that is not failed, `contains` is inclusion.
pub contains-Holds_iff :
    (r s : Range) → is_failed s ≡ false → (contains r s ≡ true) ↔ ((a : ℕ) → Holds s a → Holds r a)
unfolding is_failed contains
contains-Holds_iff r s live =
    (λ e a h. (ground arith, ground arith), λ sub. ground (arith, sub s.min, sub s.max))

-- A constrained range holds one integer, and `as_fixed` returns it.
pub is_constrained_iff :
    (r : Range) (a : ℕ)
    → (is_constrained r ≡ true → Holds r a → as_fixed r ≡ some a)
      × (as_fixed r ≡ some a → (is_constrained r ≡ true) × Holds r a)
unfolding is_constrained as_fixed
is_constrained_iff r a = (λ e h. ground arith, λ e. (ground arith, (ground arith, ground arith)))
