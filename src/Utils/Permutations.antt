-- ===== src/Utils/Permutations.antt =====
-- telamon-utils/src/iterator.rs: `PartialPermutations`. `none` is a panic: an index out of bounds, or an
-- `unwrap` of a position that was not found. The moves between the buffers are written as lists.
pub mod Bounds
use package.telamon.Prelude.{
  ℕ, zero, suc, ◌+◌, ◌-◌, ◌*◌, ◌/◌, ◌%◌, ◌^◌, ◌≤◌, ◌<◌, min, max, compare, Ordering, bit_and,
  bit_or, ◌≡◌, refl, sym, ap, ◌∙◌, subst, fun_ext, ◌≢◌, ◌↔◌, ◌⊎◌, inl, inr, Bool, true, false, not,
  ◌&&◌, ◌||◌, Option, none, some, List, [], ◌∷◌, ◌++◌, map, arith, ltb, leb, ◌==◌, if◌then◌else◌,
  ltb→lt, lt→ltb, leb→le, ==→≡, tests, Bool-cases, Option-cases, Ordering-cases, length, get_elem?,
  set, take, drop, replicate, ◌∈◌, All, length-append, length-replicate, length-set, take-append,
  drop-append, All-get_elem?, get_elem?-total, get_elem?-lt, mem-append_left, mem-append_right,
  mem-append_cases, u32_max, u32_mod, u16_mod, IsU32, add32, sub32, mul32, saturating_add,
  saturating_sub, saturating_mul, shl16_one, pred16,
}
use Prim.Native.Nat.Ordering.{gt}
use package.telamon.Prelude.Order.{Ord}
use package.telamon.Utils.VecSet.{sort_onto}

pub record PartialPermutations (T : Type 0) : Type 0 where
  pub permutation : List T
  pub finished : Bool
  pub k : ℕ

abbrev pub Answer : Type 0 → Type 0
Answer T = Option (Option (List T) × PartialPermutations T)

module _ {T : Type 0} ⦃o : Ord T⦄ where
  abbrev pub reversed_onto : List T → List T → List T
  reversed_onto done [] = done
  reversed_onto done (x ∷ xs) = reversed_onto (x ∷ done) xs

  -- `new`: the values that the first permutation does not use are kept in descending order.
  unfoldable pub new : List T → ℕ → PartialPermutations T
  unfolding sort_onto
  new values k =
      let sorted = sort_onto [] values in
      record {
        permutation = take k sorted ++ reversed_onto [] (drop k sorted);
        finished = ltb (length values) k;
        k = k;
      }

  abbrev pub greater : T → T → Bool
  greater x y = elim (o.cmp x y) [ gt ↦ true | _ ↦ false ]

  -- The loop that goes down from `i` as long as the items descend.
  unfoldable pub pivot : List T → ℕ → Option ℕ
  pivot perm zero = some 0
  pivot perm (suc i) =
      let rest = pivot perm i in
      elim (get_elem? perm i) [
        | none ↦ none
        | some x ↦ elim (get_elem? perm (suc i)) [
          | none ↦ none
          | some y ↦ if greater x y then rest else some (suc i)
        ]
      ]

  -- `rposition`: the last place with an item greater than `a`.
  unfoldable pub last_above : List T → T → Option ℕ
  last_above [] a = none
  last_above (x ∷ xs) a = elim (last_above xs a) [
    | some place ↦ some (suc place)
    | none ↦ if greater x a then some 0 else none
  ]

  unfoldable pub swap_at : List T → ℕ → T → Option ℕ → Option (List T)
  swap_at perm i x none = none
  swap_at perm i x (some place) = elim (get_elem? perm place) [
    | none ↦ none
    | some y ↦ some (set (set perm i y) place x)
  ]

  -- The swap of the item before the pivot `suc i` with the last one greater than it.
  unfoldable pub swapped : List T → ℕ → Option (List T)
  unfolding last_above swap_at
  swapped perm i = elim (get_elem? perm i) [
    | none ↦ none
    | some x ↦ swap_at perm i x (last_above perm x)
  ]

  -- The loop that writes the buffer back, from place `k - 1` down.
  unfoldable pub write_back : List T → ℕ → List T → List T
  write_back perm k [] = perm
  write_back perm k (b ∷ buffer) = write_back (set perm (k - 1) b) (k - 1) buffer

  -- The unsafe block, with `k` at most the number of items and the pivot `i` at most `k`.
  unfoldable pub refilled : List T → ℕ → ℕ → List T
  unfolding write_back
  refilled perm k i =
      let n = length perm in
      let buffer = take (k - i) (drop (n - k + i) perm) in
      write_back (take k perm ++ take (n - k) (drop i perm)) k buffer

  unfoldable pub advance_by : PartialPermutations T → ℕ → Option (List T) → Answer T
  unfolding refilled
  advance_by s i none = none
  advance_by s i (some perm) = some (
    some (take s.k s.permutation),
    record { permutation = refilled perm s.k i; finished = s.finished; k = s.k },
  )

  unfoldable pub advance : PartialPermutations T → Option ℕ → Answer T
  unfolding swapped advance_by
  advance s none = none
  advance s (some zero) = some (
    some (take s.k s.permutation),
    record { permutation = s.permutation; finished = true; k = s.k },
  )
  advance s (some (suc i)) = advance_by s (suc i) (swapped s.permutation i)

  -- `next`
  unfoldable pub next : PartialPermutations T → Answer T
  unfolding pivot advance
  next s =
      if s.finished
      then some (none, s)
      else advance s (pivot s.permutation (min s.k (length s.permutation - 1)))
