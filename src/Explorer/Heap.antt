-- ===== src/Explorer/Heap.antt =====
-- The crate interval_heap: a queue with two ends, by the key of its items. Its operations are parameters
-- of the candidate list, and the laws are what its documentation says of them.
pub mod Selection
use package.telamon.Prelude.{
  ℕ, zero, suc, ◌+◌, ◌-◌, ◌*◌, ◌/◌, ◌%◌, ◌^◌, ◌≤◌, ◌<◌, compare, Ordering, bit_and, bit_or, ◌≡◌,
  refl, sym, ap, ◌∙◌, subst, fun_ext, ◌≢◌, ◌↔◌, ◌⊎◌, inl, inr, Bool, true, false, not, ◌&&◌, ◌||◌,
  Option, none, some, List, [], ◌∷◌, ◌++◌, map, arith, ltb, leb, ◌==◌, if◌then◌else◌, ltb→lt,
  lt→ltb, leb→le, ==→≡, tests, Bool-cases, Option-cases, Ordering-cases, length, get_elem?, take,
  drop, replicate, ◌∈◌, All, length-append, length-replicate, length-set, take-append, drop-append,
  All-get_elem?, get_elem?-total, get_elem?-lt, mem-append_left, mem-append_right, mem-append_cases,
  u32_max, u32_mod, u16_mod, IsU32, add32, sub32, mul32, saturating_add, saturating_sub,
  saturating_mul, shl16_one, pred16,
}
use package.telamon.Prelude.Order.{Ord}
use Prim.Native.Nat.Ordering.{lt}

module _ {B : Type 0} ⦃o : Ord B⦄ {C : Type 0} (key : C → B) where
  -- Taking `c` from a queue that holds `all` leaves `rest`.
  pub record Takes (all : List C) (c : C) (rest : List C) : Type 0 where
    pub taken : c ∈ all
    pub one_less : length all ≡ suc (length rest)
    pub kept : (x : C) → x ∈ rest → x ∈ all
    pub rest_of : (x : C) → x ∈ all → (x ≡ c) ⊎ (x ∈ rest)

  pub record IntervalHeap : Type 1 where
    pub Queue : Type 0
    pub new : Queue
    pub len : Queue → ℕ
    pub push : C → Queue → Queue
    pub pop_min : Queue → Option (C × Queue)
    pub pop_max : Queue → Option (C × Queue)
    pub max : Queue → Option C
    pub contents : Queue → List C
    pub new_empty : contents new ≡ []
    pub len_lem : (q : Queue) → len q ≡ length (contents q)
    pub push_takes : (c : C) (q : Queue) → Takes (contents (push c q)) c (contents q)
    pub min_none : (q : Queue) → pop_min q ≡ none → contents q ≡ []
    pub min_takes :
        (q : Queue) (c : C) (r : Queue)
        → pop_min q ≡ some (c, r)
        → Takes (contents q) c (contents r)
          × ((x : C) → x ∈ contents q → ¬ (o.cmp (key x) (key c) ≡ lt))
    pub max_none : (q : Queue) → max q ≡ none → contents q ≡ []
    pub max_takes :
        (q : Queue) (c : C)
        → max q ≡ some c
        → (r : Queue) × (pop_max q ≡ some (c, r))
          × Takes (contents q) c (contents r)
          × ((x : C) → x ∈ contents q → ¬ (o.cmp (key c) (key x) ≡ lt))
