-- ===== src/Utils/VecSet/InPlace/Refines.antt =====
-- telamon-utils/src/vec_set.rs: `relative_difference`, the loop as a whole.
use telamon.Prelude.{
  ℕ, zero, suc, ◌+◌, ◌<◌, ◌≡◌, refl, sym, ap, ◌∙◌, ◌↔◌, ◌⊎◌, inl, inr, true, false, ◌&&◌, some,
  List, [], ◌∷◌, ◌++◌, arith, ltb, Ordering-cases, length, ◌∈◌,
}
use Prim.Native.Nat.Ordering.{lt, eq, gt}
use mathlib.Core.List.{append_assoc}
use telamon.Prelude.Order.{Ord, Above, IsAscending, Above-mem, Above-lt, not-mem_Above, swap}
use telamon.Utils.VecSet.{VecSet}
use telamon.Utils.VecSet.Members.{IsValid, ◌∈ₛ◌}
use telamon.Utils.VecSet.InPlace.{remove_common, relative_difference}
use telamon.Utils.VecSet.InPlace.Moves.{
  Split, Split-read, Split-in_range, Split-drop, Split-keep, Split-complete,
}

module _ {T : Type 0} ⦃o : Ord T⦄ where
  -- The difference of two ascending lists by a merge.
  unfoldable pub minus : List T → List T → List T
  minus [] ys = []
  minus (x ∷ xs) [] = x ∷ xs
  minus (x ∷ xs) (y ∷ ys) = elim (o.cmp x y) [
    | lt ↦ x ∷ minus xs (y ∷ ys)
    | gt ↦ minus (x ∷ xs) ys
    | eq ↦ minus xs ys
  ]

  pub minus-nil : (xs : List T) → minus xs [] ≡ xs
  unfolding minus
  minus-nil [] = refl
  minus-nil (x ∷ xs) = refl

  -- Where one vector is passed, both are completed.
  remove_common-stop :
      (fuel : ℕ) (kept dead rest lhs : List T) (i d : ℕ) (kept' dead' rest' rhs : List T) (j e : ℕ)
      → Split kept dead rest lhs i d
      → Split kept' dead' rest' rhs j e
      → (rest ≡ []) ⊎ (rest' ≡ [])
      → remove_common (suc fuel) lhs i d rhs j e ≡ some (kept ++ rest, kept' ++ rest')
  unfolding remove_common
  remove_common-stop fuel kept dead rest lhs i d kept' dead' rest' rhs j e s t h =
      let size = Split-in_range kept dead rest lhs i d s in
      let size' = Split-in_range kept' dead' rest' rhs j e t in
      let done : (ltb i (length lhs) && ltb j (length rhs)) ≡ false = ended size size' h in
      rw (done, Split-complete kept dead rest lhs i d s, Split-complete kept' dead' rest' rhs j e t)
        refl
    where
      ended :
          length lhs ≡ i + length rest
          → length rhs ≡ j + length rest'
          → (rest ≡ []) ⊎ (rest' ≡ [])
          → (ltb i (length lhs) && ltb j (length rhs)) ≡ false
      ended p q (inl r) = ground (arith, ap length r)
      ended p q (inr r) = ground (arith, ap length r)

  remove_common-minus :
      (fuel : ℕ) (kept dead xs lhs : List T) (i d : ℕ) (kept' dead' ys rhs : List T) (j e : ℕ)
      → Split kept dead xs lhs i d
      → Split kept' dead' ys rhs j e
      → length xs + length ys < fuel
      → remove_common fuel lhs i d rhs j e ≡ some (kept ++ minus xs ys, kept' ++ minus ys xs)
  unfolding remove_common minus
  remove_common-minus zero kept dead xs lhs i d kept' dead' ys rhs j e s t f = absurd (omega arith)
  remove_common-minus (suc fuel) kept dead [] lhs i d kept' dead' ys rhs j e s t f =
      remove_common-stop fuel kept dead [] lhs i d kept' dead' ys rhs j e s t (inl refl)
      ∙ rw (minus-nil ys) refl
  remove_common-minus (suc fuel) kept dead (x ∷ xs) lhs i d kept' dead' [] rhs j e s t f =
      remove_common-stop fuel kept dead (x ∷ xs) lhs i d kept' dead' [] rhs j e s t (inr refl)
  remove_common-minus (suc fuel) kept dead (x ∷ xs) lhs i d kept' dead' (y ∷ ys) rhs j e s t f =
      let size = Split-in_range kept dead (x ∷ xs) lhs i d s in
      let size' = Split-in_range kept' dead' (y ∷ ys) rhs j e t in
      let more : (ltb i (length lhs) && ltb j (length rhs)) ≡ true = ground arith in
      let read = Split-read kept dead x xs lhs i d s in
      let read' = Split-read kept' dead' y ys rhs j e t in
      let turned = o.turned x y in
      elim (Ordering-cases (o.cmp x y)) [
        | inl less ↦
            let (dead2, s') = Split-keep kept dead x xs lhs i d s in
            rw (more, read, read', less, turned ∙ ap swap less, minus)
              (remove_common-minus fuel (kept ++ x ∷ []) dead2 xs _ (suc i) d kept' dead' (y ∷ ys)
                  rhs j e s' t (omega arith)
                ∙ (rw (append_assoc kept (x ∷ []) (minus xs (y ∷ ys))) refl))
        | inr (inl same) ↦
            rw (more, read, read', same, turned ∙ ap swap same, minus)
              (remove_common-minus fuel kept (dead ++ x ∷ []) xs lhs (suc i) (suc d) kept'
                (dead' ++ y ∷ []) ys rhs (suc j) (suc e) (Split-drop kept dead x xs lhs i d s)
                (Split-drop kept' dead' y ys rhs j e t) (omega arith))
        | inr (inr greater) ↦
            let (dead2, t') = Split-keep kept' dead' y ys rhs j e t in
            rw (more, read, read', greater, turned ∙ ap swap greater, minus)
              (remove_common-minus fuel kept dead (x ∷ xs) lhs i d (kept' ++ y ∷ []) dead2 ys _
                  (suc j) e s t' (omega arith)
                ∙ (rw (append_assoc kept' (y ∷ []) (minus ys (x ∷ xs))) refl))
      ]

  pub relative_difference-minus :
      (s t : VecSet T)
      → relative_difference s t
        ≡ some (record { items = minus s.items t.items }, record { items = minus t.items s.items })
  unfolding relative_difference
  relative_difference-minus s t =
      rw
        (
          remove_common-minus (suc (length s.items + length t.items)) [] [] s.items s.items 0 0 []
              [] t.items t.items 0 0 (record { layout = refl; at_idx = refl; at_del = refl })
              (record { layout = refl; at_idx = refl; at_del = refl }) (omega arith),
          relative_difference,
        )
        refl

  Above-minus : (a : T) (xs ys : List T) → Above a xs → Above a (minus xs ys)
  unfolding minus
  Above-minus a [] ys p = tt
  Above-minus a (x ∷ xs) [] p = p
  Above-minus a (x ∷ xs) (y ∷ ys) p =
      ground
        (arith, Above-minus a xs (y ∷ ys) p.1, Above-minus a (x ∷ xs) ys p, Above-minus a xs ys p.1)

  pub minus-IsAscending : (xs ys : List T) → IsAscending xs → IsAscending (minus xs ys)
  unfolding minus
  minus-IsAscending [] ys p = tt
  minus-IsAscending (x ∷ xs) [] p = p
  minus-IsAscending (x ∷ xs) (y ∷ ys) p = ground (
    arith,
    minus-IsAscending xs (y ∷ ys) p.1,
    minus-IsAscending (x ∷ xs) ys p,
    minus-IsAscending xs ys p.1,
    Above-minus x xs (y ∷ ys) p.0,
  )

  past :
      (b x : T) (xs : List T) (a : T)
      → o.cmp b x ≡ lt
      → IsAscending (x ∷ xs)
      → a ∈ x ∷ xs
      → ¬ (a ≡ b)
  past b x xs a l p (inl e) q = ground (arith, (o.same b x).1 (sym q ∙ e))
  past b x xs a l p (inr m) q =
      ground (arith, (o.same b a).1 (sym q), Above-mem b a xs (Above-lt b x xs l p.0) m)

  pub minus_iff :
      (xs ys : List T) (a : T)
      → IsAscending xs
      → IsAscending ys
      → (a ∈ minus xs ys) ↔ (a ∈ xs) × ¬ (a ∈ ys)
  unfolding minus
  minus_iff [] ys a p q = (λ m. absurd m, λ m. m.0)
  minus_iff (x ∷ xs) [] a p q = (λ m. (m, λ n. n), λ m. m.0)
  minus_iff (x ∷ xs) (y ∷ ys) a p q =
      let left = minus_iff xs (y ∷ ys) a p.1 q in
      let right = minus_iff (x ∷ xs) ys a p q.1 in
      let both = minus_iff xs ys a p.1 q.1 in
      elim (Ordering-cases (o.cmp x y)) [
        | inl less ↦
            rw (less, minus)
              (
                elim [
                  | inl e ↦ (inl e, λ n. past x y ys a less q n e)
                  | inr m ↦ (inr (left.0 m).0, (left.0 m).1)
                ],
                λ (m, n). elim m [ inl e ↦ inl e | inr k ↦ inr (left.1 (k, n)) ],
              )
        | inr (inl same) ↦
            let e : x ≡ y = (o.same x y).0 same in
            rw (same, minus)
              (
                λ m.
                    let (k, n) = both.0 m in
                    (
                      inr k,
                      elim [ inl r ↦ not-mem_Above x xs p.0 (rw (r ∙ sym e) at k) | inr j ↦ n j ],
                    ),
                λ (m, n). elim m [
                  | inl r ↦ absurd (n (inl (r ∙ e)))
                  | inr k ↦ both.1 (k, λ j. n (inr j))
                ],
              )
        | inr (inr more) ↦
            let less : o.cmp y x ≡ lt = o.turned x y ∙ ap swap more in
            rw (more, minus)
              (
                λ m.
                    let (k, n) = right.0 m in
                    (k, elim [ inl r ↦ past y x xs a less p k r | inr j ↦ n j ]),
                λ (m, n). right.1 (m, λ j. n (inr j)),
              )
      ]

  -- On valid sets the loop ends, reads no slot out of bounds, and returns two valid sets: what is in
  -- `s` and not in `t`, and what is in `t` and not in `s`.
  pub relative_difference-IsValid :
      (s t : VecSet T)
      → IsValid s
      → IsValid t
      → (s' t' : VecSet T) × (relative_difference s t ≡ some (s', t'))
        × IsValid s'
        × IsValid t'
        × ((a : T) → ((a ∈ₛ s') ↔ (a ∈ₛ s) × ¬ (a ∈ₛ t)) × ((a ∈ₛ t') ↔ (a ∈ₛ t) × ¬ (a ∈ₛ s)))
  relative_difference-IsValid s t p q = (
    record { items = minus s.items t.items },
    record { items = minus t.items s.items },
    relative_difference-minus s t,
    minus-IsAscending s.items t.items p,
    minus-IsAscending t.items s.items q,
    λ a. (minus_iff s.items t.items a p q, minus_iff t.items s.items a q p),
  )
