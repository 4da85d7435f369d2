-- ===== src/Utils/VecSet/InPlace.antt =====
-- telamon-utils/src/vec_set.rs: `VecSet::relative_difference`, which moves items within the two
-- buffers. A buffer is the list of its slots; a read outside of one is undefined, `none`. Slots whose
-- item was moved or dropped keep their old content here. Who owns an item is not modelled.
pub mod Moves
pub mod Refines
use package.telamon.Prelude.{
  ℕ, zero, suc, ◌+◌, ◌-◌, ◌*◌, ◌/◌, ◌%◌, ◌^◌, ◌≤◌, ◌<◌, min, max, compare, Ordering, bit_and,
  bit_or, ◌≡◌, refl, sym, ap, ◌∙◌, subst, fun_ext, ◌≢◌, ◌↔◌, ◌⊎◌, inl, inr, Bool, true, false, not,
  ◌&&◌, ◌||◌, Option, none, some, List, [], ◌∷◌, ◌++◌, map, arith, ltb, leb, ◌==◌, if◌then◌else◌,
  ltb→lt, lt→ltb, leb→le, ==→≡, tests, Bool-cases, Option-cases, Ordering-cases, length, get_elem?,
  set, take, drop, replicate, ◌∈◌, All, length-append, length-replicate, length-set, take-append,
  drop-append, All-get_elem?, get_elem?-total, get_elem?-lt, mem-append_left, mem-append_right,
  mem-append_cases, u32_max, u32_mod, u16_mod, IsU32, add32, sub32, mul32, saturating_add,
  saturating_sub, saturating_mul, shl16_one, pred16,
}
use Prim.Native.Nat.Ordering.{lt, eq, gt}
use package.telamon.Prelude.Order.{Ord}
use package.telamon.Utils.VecSet.{VecSet}

module _ {T : Type 0} where
  -- `ptr::copy` of `n` items within a buffer, from `src` to `dst`.
  unfoldable pub copy : List T → ℕ → ℕ → ℕ → List T
  copy buffer src dst n = take dst buffer ++ (take n (drop src buffer) ++ drop (dst + n) buffer)

  -- An item that is kept moves down over the `del` dropped before it.
  unfoldable pub keep_item : List T → ℕ → ℕ → T → List T
  keep_item buffer idx del item = if ltb 0 del then set buffer (idx - del) item else buffer

  -- What follows the loop for one vector: the rest moves down, and the length is set.
  unfoldable pub complete : List T → ℕ → ℕ → List T
  unfolding copy
  complete buffer idx del =
      let old_len = length buffer in
      let moved =
        if ltb idx old_len && ltb 0 del
        then copy buffer idx (idx - del) (old_len - idx)
        else buffer in
      take (old_len - del) moved

module _ {T : Type 0} ⦃o : Ord T⦄ where
  -- The loop over `lhs_idx`, `lhs_del`, `rhs_idx` and `rhs_del`. Each round passes an item of one of the
  -- vectors at least.
  unfoldable pub remove_common : ℕ → List T → ℕ → ℕ → List T → ℕ → ℕ → Option (List T × List T)
  unfolding keep_item complete
  remove_common zero lhs lhs_idx lhs_del rhs rhs_idx rhs_del = none
  remove_common (suc fuel) lhs lhs_idx lhs_del rhs rhs_idx rhs_del =
      if ltb lhs_idx (length lhs) && ltb rhs_idx (length rhs)
      then elim (get_elem? lhs lhs_idx) [
        | none ↦ none
        | some x ↦ elim (get_elem? rhs rhs_idx) [
          | none ↦ none
          | some y ↦ elim (o.cmp x y) [
            | lt ↦
                remove_common fuel (keep_item lhs lhs_idx lhs_del x) (suc lhs_idx) lhs_del rhs
                  rhs_idx rhs_del
            | gt ↦
                remove_common fuel lhs lhs_idx lhs_del (keep_item rhs rhs_idx rhs_del y)
                  (suc rhs_idx) rhs_del
            | eq ↦
                remove_common fuel lhs (suc lhs_idx) (suc lhs_del) rhs (suc rhs_idx) (suc rhs_del)
          ]
        ]
      ]
      else some (complete lhs lhs_idx lhs_del, complete rhs rhs_idx rhs_del)

  unfoldable pub relative_difference : VecSet T → VecSet T → Option (VecSet T × VecSet T)
  unfolding remove_common
  relative_difference s other =
      elim (remove_common (suc (length s.items + length other.items)) s.items 0 0 other.items 0 0) [
        | none ↦ none
        | some (lhs, rhs) ↦ some (record { items = lhs }, record { items = rhs })
      ]
