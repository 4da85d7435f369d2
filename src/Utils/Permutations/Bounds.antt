-- ===== src/Utils/Permutations/Bounds.antt =====
-- telamon-utils/src/iterator.rs: the indexes that `PartialPermutations::next` reads.
use telamon.Prelude.{
  ℕ, zero, suc, ◌+◌, ◌-◌, ◌≤◌, ◌<◌, min, ◌≡◌, refl, sym, ap, ◌∙◌, ◌⊎◌, inl, inr, true, false, none,
  some, List, [], ◌∷◌, ◌++◌, arith, if◌then◌else◌, Bool-cases, Option-cases, Ordering-cases, length,
  get_elem?, set, take, drop, length-append, length-set, get_elem?-total,
}
use telamon.Prelude.Order.{Ord}
use mathlib.Core.Option.{some-injective}
use telamon.Utils.Permutations.{
  PartialPermutations, greater, pivot, last_above, swap_at, swapped, write_back, refilled,
  advance_by, advance, next,
}

not_zero : (i n : ℕ) → (suc i ≡ 0) ⊎ (suc i < n) → suc i < n
not_zero i n (inl e) = omega (arith, e)
not_zero i n (inr l) = l

start_cases : (k n : ℕ) → (min k (n - 1) ≡ 0) ⊎ (min k (n - 1) < n)
start_cases k zero = inl (ground arith)
start_cases k (suc n) = inr (ground arith)

min_le : (k n : ℕ) → min k n ≤ k
min_le k n = ground arith

module _ {A : Type 0} where
  length-take : (n : ℕ) (xs : List A) → n ≤ length xs → length (take n xs) ≡ n
  length-take zero xs l = refl
  length-take (suc n) [] l = ground arith
  length-take (suc n) (x ∷ xs) l = ap suc (length-take n xs (omega (arith, l)))

  length-drop : (n : ℕ) (xs : List A) → length (drop n xs) ≡ length xs - n
  length-drop zero xs = omega arith
  length-drop (suc n) [] = omega arith
  length-drop (suc n) (x ∷ xs) = length-drop n xs ∙ omega arith

module _ {T : Type 0} ⦃o : Ord T⦄ where
  -- No item stands at two places.
  abbrev pub AreDistinct : List T → Type 0
  AreDistinct perm =
      (i j : ℕ) (x : T) → get_elem? perm i ≡ some x → get_elem? perm j ≡ some x → i ≡ j

  -- The items around a pivot ascend.
  abbrev IsPivot : List T → ℕ → Type 0
  IsPivot perm zero = Unit
  IsPivot perm (suc i) =
      (x : T) × (y : T) × (get_elem? perm i ≡ some x)
      × (get_elem? perm (suc i) ≡ some y)
      × (greater x y ≡ false)

  pivot-IsPivot :
      (perm : List T) (i : ℕ)
      → (i ≡ 0) ⊎ (i < length perm)
      → (m : ℕ) × (pivot perm i ≡ some m) × (m ≤ i) × IsPivot perm m
  unfolding pivot
  pivot-IsPivot perm zero h = (0, refl, omega arith, tt)
  pivot-IsPivot perm (suc i) h =
      let below = not_zero i (length perm) h in
      let (x, ex) = get_elem?-total perm i (omega (arith, below)) in
      let (y, ey) = get_elem?-total perm (suc i) below in
      let (m, e, l, p) = pivot-IsPivot perm i (inr (omega (arith, below))) in
      elim (Bool-cases (greater x y)) [
        | inl down ↦ (m, rw (pivot, ex, ey, down) e, omega (arith, l), p)
        | inr up ↦ (suc i, rw (pivot, ex, ey, up) refl, omega arith, (x, y, ex, ey, up))
      ]

  ascends : (x y : T) → greater x y ≡ false → ¬ (x ≡ y) → greater y x ≡ true
  ascends x y e d = elim (Ordering-cases (o.cmp x y)) [
    | inl less ↦ rw (greater, o.turned x y, less) refl
    | inr (inl k) ↦ absurd (d ((o.same x y).0 k))
    | inr (inr more) ↦ ground arith
  ]

  last_above-lt :
      (perm : List T) (a : T) (place : ℕ) → last_above perm a ≡ some place → place < length perm
  unfolding last_above
  last_above-lt [] a place e = ground arith
  last_above-lt (x ∷ xs) a place e = elim (Option-cases (last_above xs a)) [
    | inl missing ↦ ground arith
    | inr (p, found) ↦ ground (arith, last_above-lt xs a p found)
  ]

  last_above-found :
      (perm : List T) (j : ℕ) (a y : T)
      → get_elem? perm j ≡ some y
      → greater y a ≡ true
      → (place : ℕ) × (last_above perm a ≡ some place)
  unfolding last_above
  last_above-found [] j a y e g = ground arith
  last_above-found (x ∷ xs) zero a y e g = elim (Option-cases (last_above xs a)) [
    | inr (place, found) ↦ (suc place, rw found refl)
    | inl missing ↦ (0, rw (missing, some-injective _ _ e, g) refl)
  ]
  last_above-found (x ∷ xs) (suc j) a y e g =
      let (place, found) = last_above-found xs j a y e g in (suc place, rw found refl)

  swapped-found :
      (perm : List T) (i : ℕ)
      → AreDistinct perm
      → IsPivot perm (suc i)
      → (after : List T) × (swapped perm i ≡ some after) × (length after ≡ length perm)
  unfolding swapped swap_at
  swapped-found perm i d (x, y, ex, ey, up) =
      let more = ascends x y up (λ e. ground (arith, d i (suc i) x ex (ey ∙ ap some (sym e)))) in
      let (place, found) = last_above-found perm (suc i) x y ey more in
      let (z, ez) = get_elem?-total perm place (last_above-lt perm x place found) in
      (
        set (set perm i z) place x,
        rw (swapped, ex, found, swap_at, ez) refl,
        length-set (set perm i z) place x ∙ length-set perm i z,
      )

  length-write_back :
      (perm : List T) (k : ℕ) (buffer : List T) → length (write_back perm k buffer) ≡ length perm
  unfolding write_back
  length-write_back perm k [] = refl
  length-write_back perm k (b ∷ buffer) =
      length-write_back (set perm (k - 1) b) (k - 1) buffer ∙ length-set perm (k - 1) b

  length-refilled :
      (perm : List T) (k i : ℕ) → i ≤ k → k ≤ length perm → length (refilled perm k i) ≡ length perm
  unfolding refilled
  length-refilled perm k i p q =
      let n = length perm in
      length-write_back (take k perm ++ take (n - k) (drop i perm)) k
        (take (k - i) (drop (n - k + i) perm))
      ∙ length-append (take k perm) (take (n - k) (drop i perm))
      ∙ omega (
        arith,
        length-take k perm q,
        length-drop i perm,
        length-take (n - k) (drop i perm) (omega (arith, length-drop i perm, p, q)),
      )

  -- `next` yields the first `k` items, and keeps their number and `k`.
  abbrev pub Yields : PartialPermutations T → Type 0
  Yields s =
      (after : PartialPermutations T) × (next s ≡ some (some (take s.k s.permutation), after))
      × (after.k ≡ s.k)
      × (length after.permutation ≡ length s.permutation)

  advanced :
      (s : PartialPermutations T) (m : ℕ)
      → AreDistinct s.permutation
      → m ≤ s.k
      → s.k ≤ length s.permutation
      → IsPivot s.permutation m
      → (after : PartialPermutations T) × (advance s (some m)
          ≡ some (some (take s.k s.permutation), after))
        × (after.k ≡ s.k)
        × (length after.permutation ≡ length s.permutation)
  unfolding advance advance_by
  advanced s zero d l q p =
      (record { permutation = s.permutation; finished = true; k = s.k }, refl, refl, refl)
  advanced s (suc i) d l q p =
      let (perm, found, same) = swapped-found s.permutation i d p in
      (
        record { permutation = refilled perm s.k (suc i); finished = s.finished; k = s.k },
        rw (advance, found, advance_by) refl,
        refl,
        length-refilled perm s.k (suc i) l (omega (arith, same, q)) ∙ same,
      )

  -- While it is not finished, with distinct items and `k` at most their number, `next` does not panic: it
  -- yields the first `k` items, and keeps `k` and the number of items.
  pub next-Yields :
      (s : PartialPermutations T)
      → AreDistinct s.permutation
      → s.finished ≡ false
      → s.k ≤ length s.permutation
      → Yields s
  unfolding next
  next-Yields s d running q =
      let start = min s.k (length s.permutation - 1) in
      let (m, e, l, p) =
        pivot-IsPivot s.permutation start (start_cases s.k (length s.permutation)) in
      let (after, answer, same_k, same_length) =
        advanced s m d (omega (arith, l, min_le s.k (length s.permutation - 1))) q p in
      (
        after,
        ap (λ b. if b then some (none, s) else advance s (pivot s.permutation start)) running
            ∙ ap (advance s) e
            ∙ answer,
        same_k,
        same_length,
      )
