-- ===== src/Utils/VecSet/InPlace/Moves.antt =====
-- telamon-utils/src/vec_set.rs: the moves within one buffer of `relative_difference`: the items kept so
-- far, the slots of those dropped, and the rest.
use telamon.Prelude.{
  ℕ, suc, ◌+◌, ◌-◌, ◌≡◌, refl, sym, ap, ◌∙◌, inl, inr, true, false, ◌&&◌, some, List, [], ◌∷◌, ◌++◌,
  arith, ltb, Bool-cases, length, get_elem?, set, take, drop, length-append, take-append,
  drop-append,
}
use mathlib.Core.List.{append_assoc, append-nil}
use telamon.Utils.VecSet.InPlace.{copy, keep_item, complete}
use mathlib.Core.Path.{ap₂}

module _ {T : Type 0} where
  -- `kept` items stand in front, `dead` slots follow, and `rest` is still to be read.
  pub record Split (kept dead rest buffer : List T) (idx del : ℕ) : Type 0 where
    pub layout : buffer ≡ kept ++ (dead ++ rest)
    pub at_idx : idx ≡ length kept + length dead
    pub at_del : del ≡ length dead

  get_elem?-append :
      (xs : List T) (x : T) (ys : List T) → get_elem? (xs ++ x ∷ ys) (length xs) ≡ some x
  get_elem?-append [] x ys = refl
  get_elem?-append (z ∷ xs) x ys = get_elem?-append xs x ys

  set-append :
      (xs : List T) (x y : T) (ys : List T) → set (xs ++ x ∷ ys) (length xs) y ≡ xs ++ y ∷ ys
  set-append [] x y ys = refl
  set-append (z ∷ xs) x y ys = ap (λ t. z ∷ t) (set-append xs x y ys)

  -- The next item is where the index points.
  pub Split-read :
      (kept dead : List T) (x : T) (rest buffer : List T) (idx del : ℕ)
      → Split kept dead (x ∷ rest) buffer idx del
      → get_elem? buffer idx ≡ some x
  Split-read kept dead x rest buffer idx del s =
      let place : idx ≡ length (kept ++ dead) = s.at_idx ∙ sym (length-append kept dead) in
      rw (s.layout, place, ← append_assoc kept dead (x ∷ rest))
        (get_elem?-append (kept ++ dead) x rest)

  pub Split-in_range :
      (kept dead rest buffer : List T) (idx del : ℕ)
      → Split kept dead rest buffer idx del
      → length buffer ≡ idx + length rest
  Split-in_range kept dead rest buffer idx del s = omega (
    arith,
    ap length s.layout,
    s.at_idx,
    length-append kept (dead ++ rest),
    length-append dead rest,
  )

  -- Dropping the next item leaves its slot dead.
  pub Split-drop :
      (kept dead : List T) (x : T) (rest buffer : List T) (idx del : ℕ)
      → Split kept dead (x ∷ rest) buffer idx del
      → Split kept (dead ++ x ∷ []) rest buffer (suc idx) (suc del)
  Split-drop kept dead x rest buffer idx del s = record {
    layout = s.layout ∙ ap (λ t. kept ++ t) (sym (append_assoc dead (x ∷ []) rest));
    at_idx = omega (arith, s.at_idx, length-append dead (x ∷ []));
    at_del = omega (arith, s.at_del, length-append dead (x ∷ []));
  }

  -- Keeping it moves it to the end of those kept.
  pub Split-keep :
      (kept dead : List T) (x : T) (rest buffer : List T) (idx del : ℕ)
      → Split kept dead (x ∷ rest) buffer idx del
      → (dead' : List T) × Split
          (kept ++ x ∷ [])
          dead'
          rest
          (keep_item buffer idx del x)
          (suc idx)
          del
  unfolding keep_item
  Split-keep kept [] x rest buffer idx del s = (
    [],
    record {
      layout = rw s.at_del (s.layout ∙ sym (append_assoc kept (x ∷ []) rest));
      at_idx = omega (arith, s.at_idx, length-append kept (x ∷ []));
      at_del = s.at_del;
    },
  )
  Split-keep kept (j ∷ js) x rest buffer idx del s =
      let some_dead : ltb 0 (suc (length js)) ≡ true = ground arith in
      let place : idx - suc (length js) ≡ length kept = omega (arith, s.at_idx) in
      (
        js ++ x ∷ [],
        record {
          layout =
              rw (s.at_del, some_dead, place, s.layout)
                (set-append kept j x (js ++ x ∷ rest) ∙ (simp append_assoc));
          at_idx = omega (arith, s.at_idx, length-append kept (x ∷ []), length-append js (x ∷ []));
          at_del = omega (arith, s.at_del, length-append js (x ∷ []));
        },
      )

  take-length : (xs : List T) → take (length xs) xs ≡ xs
  take-length [] = refl
  take-length (x ∷ xs) = ap (λ t. x ∷ t) (take-length xs)

  -- The copy puts the rest behind the kept items.
  copy-Split :
      (kept dead rest buffer : List T) (idx del : ℕ)
      → Split kept dead rest buffer idx del
      → (tail : List T) × (copy buffer idx (idx - del) (length buffer - idx)
          ≡ (kept ++ rest) ++ tail)
  unfolding copy
  copy-Split kept dead rest buffer idx del s =
      let dst : idx - del ≡ length kept = omega (arith, s.at_idx, s.at_del) in
      let count : length buffer - idx ≡ length rest =
        omega (arith, Split-in_range kept dead rest buffer idx del s) in
      let front : take (length kept) buffer ≡ kept =
        ap (take (length kept)) s.layout ∙ take-append kept (dead ++ rest) in
      let back : drop idx buffer ≡ rest =
        ap₂ drop (s.at_idx ∙ sym (length-append kept dead))
          (s.layout ∙ sym (append_assoc kept dead rest))
        ∙ drop-append (kept ++ dead) rest in
      (
        drop (length kept + length rest) buffer,
        rw (dst, count, front, back, take-length rest)
            (sym (append_assoc kept rest (drop (length kept + length rest) buffer))),
      )

  cut : (n : ℕ) (whole xs tail : List T) → whole ≡ xs ++ tail → n ≡ length xs → take n whole ≡ xs
  cut n whole xs tail e l = rw (e, l) (take-append xs tail)

  -- Where nothing moves, there are no dead slots or no rest.
  unmoved :
      (kept dead rest buffer : List T) (idx del : ℕ)
      → Split kept dead rest buffer idx del
      → (ltb idx (length buffer) && ltb 0 del) ≡ false
      → (tail : List T) × (buffer ≡ (kept ++ rest) ++ tail)
  unmoved kept [] rest buffer idx del s h = ([], s.layout ∙ sym (append-nil (kept ++ rest)))
  unmoved kept (d ∷ dead) [] buffer idx del s h = (d ∷ dead, s.layout ∙ (simp append-nil))
  unmoved kept (d ∷ dead) (x ∷ rest) buffer idx del s h =
      let size = Split-in_range kept (d ∷ dead) (x ∷ rest) buffer idx del s in
      let dead_slot = s.at_del in absurd (ground arith)

  -- At the end the kept items and the rest remain.
  pub Split-complete :
      (kept dead rest buffer : List T) (idx del : ℕ)
      → Split kept dead rest buffer idx del
      → complete buffer idx del ≡ kept ++ rest
  unfolding complete
  Split-complete kept dead rest buffer idx del s =
      let (tail, moved) = copy-Split kept dead rest buffer idx del s in
      let size = Split-in_range kept dead rest buffer idx del s in
      let len : length buffer - del ≡ length (kept ++ rest) =
        omega (arith, size, s.at_idx, s.at_del, length-append kept rest) in
      elim (Bool-cases (ltb idx (length buffer) && ltb 0 del)) [
        | inl both ↦ rw both (cut (length buffer - del) _ (kept ++ rest) tail moved len)
        | inr stay ↦
            let (end, whole) = unmoved kept dead rest buffer idx del s stay in
            rw stay (cut (length buffer - del) buffer (kept ++ rest) end whole len)
      ]
