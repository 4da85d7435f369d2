-- ===== src/Utils/NdArray/Views.antt =====
-- telamon-utils/src/ndarray.rs: the views, their splits, and the loop of `flat_index`.
use telamon.Prelude.{
  ℕ, zero, suc, ◌+◌, ◌*◌, ◌≤◌, ◌<◌, ◌≡◌, refl, sym, ap, ◌∙◌, subst, ◌≢◌, inl, inr, true, false,
  some, List, [], ◌∷◌, arith, ltb, ◌==◌, ltb→lt, lt→ltb, ==→≡, Bool-cases, length, get_elem?,
  get_elem?-lt,
}
use native.Mathlib.Nat.{add-zero}
use telamon.Utils.NdArray.{
  ViewMut, insert, remove, position, split, split_from, flat_from, flat_index,
}

-- The fixed dimensions are in strictly ascending order, from `d` on.
abbrev pub IsFixed : ℕ → List (ℕ × ℕ) → Type 0
IsFixed d [] = Unit
IsFixed d ((raw, v) ∷ fixed) = (d ≤ raw) × IsFixed (suc raw) fixed

-- Dimension `d` is not the next fixed one.
abbrev IsFree : ℕ → List (ℕ × ℕ) → Type 0
IsFree d [] = Unit
IsFree d ((raw, v) ∷ fixed) = raw ≢ d

take_fixed :
    (d n : ℕ) (dims : List ℕ) (x : ℕ) (fixed : List (ℕ × ℕ)) (indexes : List ℕ) (flat : ℕ)
    → flat_from d (n ∷ dims) ((d, x) ∷ fixed) indexes flat
      ≡ flat_from (suc d) dims fixed indexes (flat * n + x)
unfolding flat_from
take_fixed d n dims x fixed [] flat =
    let e : (d == d) ≡ true = ground arith in rw (e, flat_from) refl
take_fixed d n dims x fixed (i ∷ indexes) flat =
    let e : (d == d) ≡ true = ground arith in rw (e, flat_from) refl

take_index :
    (d n : ℕ) (dims : List ℕ) (fixed : List (ℕ × ℕ)) (i : ℕ) (indexes : List ℕ) (flat : ℕ)
    → IsFree d fixed
    → flat_from d (n ∷ dims) fixed (i ∷ indexes) flat
      ≡ flat_from (suc d) dims fixed indexes (flat * n + i)
unfolding flat_from
take_index d n dims [] i indexes flat h = refl
take_index d n dims ((raw, v) ∷ fixed) i indexes flat h =
    let e : (raw == d) ≡ false = ground arith in rw (e, flat_from) refl

position-first : (d : ℕ) (fixed : List (ℕ × ℕ)) → IsFixed (suc d) fixed → position d fixed ≡ 0
position-first d [] h = refl
position-first d ((raw, v) ∷ fixed) h =
    let e : ltb d raw ≡ true = lt→ltb d raw (omega arith) in rw (e, position) refl

position-later :
    (b d x : ℕ) (fixed : List (ℕ × ℕ))
    → d ≤ b
    → position b ((d, x) ∷ fixed) ≡ suc (position (suc b) fixed)
position-later b d x fixed h = let e : ltb b d ≡ false = ground arith in rw (e, position) refl

insert-IsFree :
    (d p raw v : ℕ) (fixed : List (ℕ × ℕ))
    → IsFixed (suc d) fixed
    → raw ≢ d
    → IsFree d (insert fixed p (raw, v))
insert-IsFree d zero raw v fixed h n = n
insert-IsFree d (suc p) raw v [] h n = n
insert-IsFree d (suc p) raw v ((x, y) ∷ fixed) h n = omega arith

IsFixed-IsFree : (d : ℕ) (fixed : List (ℕ × ℕ)) → IsFixed (suc d) fixed → IsFree d fixed
IsFixed-IsFree d [] h = tt
IsFixed-IsFree d ((x, y) ∷ fixed) h = omega arith

-- The loop from dimension `d` on, where logical dimension `k` of those left is fixed to `v`: it is
-- dimension `raw` of the array, at place `p` of the fixed ones.
abbrev Splits : ℕ → List ℕ → List (ℕ × ℕ) → Type 0
Splits d dims fixed =
    (k b p raw v : ℕ) (indexes : List ℕ) (flat : ℕ)
    → b ≡ k + d
    → p ≡ position b fixed
    → raw ≡ p + b
    → k ≤ length indexes
    → length fixed + length indexes < length dims
    → flat_from d dims (insert fixed p (raw, v)) indexes flat
      ≡ flat_from d dims fixed (insert indexes k v) flat

split_free :
    (d n : ℕ) (dims : List ℕ) (fixed : List (ℕ × ℕ))
    → IsFixed (suc d) fixed
    → Splits (suc d) dims fixed
    → Splits d (n ∷ dims) fixed
split_free d n dims fixed h ih zero b p raw v indexes flat e q r l m =
    let here : p ≡ 0 =
      q ∙ ap (λ (c : ℕ). position c fixed) (e ∙ omega arith) ∙ position-first d fixed h in
    let at : raw ≡ d = omega arith in
    rw (here, at)
      (take_fixed d n dims v fixed indexes flat
        ∙ sym (take_index d n dims fixed v indexes flat (IsFixed-IsFree d fixed h)))
split_free d n dims fixed h ih (suc k) b p raw v [] flat e q r l m = absurd (omega arith)
split_free d n dims fixed h ih (suc k) b p raw v (i ∷ indexes) flat e q r l m =
    take_index d n dims (insert fixed p (raw, v)) i indexes flat
      (insert-IsFree d p raw v fixed h (omega arith))
    ∙ ih k b p raw v indexes (flat * n + i) (omega arith) q r (omega arith) (omega arith)
    ∙ sym (take_index d n dims fixed i (insert indexes k v) flat (IsFixed-IsFree d fixed h))

split_fixed :
    (d n x : ℕ) (dims : List ℕ) (fixed : List (ℕ × ℕ))
    → Splits (suc d) dims fixed
    → Splits d (n ∷ dims) ((d, x) ∷ fixed)
split_fixed d n x dims fixed ih k b p raw v indexes flat e q r l m =
    let later : p ≡ suc (position (suc b) fixed) = q ∙ position-later b d x fixed (omega arith) in
    rw later (
      take_fixed d n dims x (insert fixed (position (suc b) fixed) (raw, v)) indexes flat
      ∙ ih k (suc b) (position (suc b) fixed) raw v indexes (flat * n + x) (omega arith) refl
          (omega arith) l (omega arith)
      ∙ sym (take_fixed d n dims x fixed (insert indexes k v) flat))

split_nil : (d : ℕ) (fixed : List (ℕ × ℕ)) → Splits d [] fixed
split_nil d fixed k b p raw v indexes flat e q r l m = absurd (omega arith)

flat_from-split :
    (d : ℕ) (dims : List ℕ) (fixed : List (ℕ × ℕ)) → IsFixed d fixed → Splits d dims fixed
flat_from-split d [] fixed h = split_nil d fixed
flat_from-split d (n ∷ dims) [] h = split_free d n dims [] tt (flat_from-split (suc d) dims [] tt)
flat_from-split d (n ∷ dims) ((raw, x) ∷ fixed) h = elim (Bool-cases (raw == d)) [
  | inl same ↦
      let e : raw ≡ d = ==→≡ raw d same in
      subst (λ (r : ℕ). Splits d (n ∷ dims) ((r, x) ∷ fixed)) (sym e)
        (split_fixed d n x dims fixed
          (flat_from-split (suc d) dims fixed (subst (λ (r : ℕ). IsFixed (suc r) fixed) e h.1)))
  | inr other ↦
      let up : suc d ≤ raw = ground arith in
      split_free d n dims ((raw, x) ∷ fixed) (up, h.1)
        (flat_from-split (suc d) dims ((raw, x) ∷ fixed) (up, h.1))
]

insert-IsFixed :
    (d b v : ℕ) (fixed : List (ℕ × ℕ))
    → d ≤ b
    → IsFixed d fixed
    → IsFixed d (insert fixed (position b fixed) (position b fixed + b, v))
insert-IsFixed d b v [] h f = (omega arith, tt)
insert-IsFixed d b v ((raw, x) ∷ fixed) h f = elim (Bool-cases (ltb b raw)) [
  | inl less ↦
      let below = ltb→lt b raw less in
      let first : position b ((raw, x) ∷ fixed) ≡ 0 = rw (less, position) refl in
      rw first (omega arith, (omega arith, f.1))
  | inr more ↦
      let later : position b ((raw, x) ∷ fixed) ≡ suc (position (suc b) fixed) =
        rw (more, position) refl in
      let at : suc (position (suc b) fixed) + b ≡ position (suc b) fixed + suc b = omega arith in
      rw (later, at) (f.0, insert-IsFixed (suc raw) (suc b) v fixed (ground arith) f.1)
]

split_from-read :
    (view : ViewMut) (bounds : List ℕ) (pos raw len first idx : ℕ)
    → idx < len
    → get_elem? (split_from view bounds pos raw len first) idx
      ≡ some record {
        bounds = bounds;
        fixed_indexes = insert view.fixed_indexes pos (raw, first + idx);
      }
unfolding split_from
split_from-read view bounds pos raw zero first idx h = absurd (omega arith)
split_from-read view bounds pos raw (suc len) first zero h = rw (add-zero first) refl
split_from-read view bounds pos raw (suc len) first (suc idx) h =
    let e : first + 1 + idx ≡ first + suc idx = omega arith in
    rw e at (split_from-read view bounds pos raw len (first + 1) idx (omega arith))

split_from-length :
    (view : ViewMut) (bounds : List ℕ) (pos raw len first : ℕ)
    → length (split_from view bounds pos raw len first) ≡ len
unfolding split_from
split_from-length view bounds pos raw zero first = refl
split_from-length view bounds pos raw (suc len) first =
    ap suc (split_from-length view bounds pos raw len (first + 1))

length-insert {ℓ} :
    {A : Type ℓ} (xs : List A) (k : ℕ) (v : A) → length (insert xs k v) ≡ suc (length xs)
length-insert xs zero v = refl
length-insert [] (suc k) v = refl
length-insert (x ∷ xs) (suc k) v = ap suc (length-insert xs k v)

-- `w` is the view that has logical dimension `k` of `v` fixed to `idx`.
pub record IsPart (dims : List ℕ) (v w : ViewMut) (k idx : ℕ) : Type 0 where
  pub bounds : w.bounds ≡ remove v.bounds k
  pub fixed : IsFixed 0 w.fixed_indexes
  pub added : length w.fixed_indexes ≡ suc (length v.fixed_indexes)
  pub reads :
      (indexes : List ℕ)
      → length indexes + 1 ≡ length v.bounds
      → flat_index dims w indexes ≡ flat_index dims v (insert indexes k idx)

-- Of a view whose fixed dimensions are in order, `split` on a dimension returns a view for each index of
-- it. The view at place `idx` has the bounds without this dimension, keeps its fixed dimensions in order
-- with one more, and reads at some indexes the cell that the given view reads with `idx` put in between them.
pub split-IsPart :
    (dims : List ℕ) (v : ViewMut) (k len : ℕ)
    → IsFixed 0 v.fixed_indexes
    → length v.fixed_indexes + length v.bounds ≡ length dims
    → get_elem? v.bounds k ≡ some len
    → (views : List ViewMut) × (split v k ≡ some views)
      × (length views ≡ len)
      × ((idx : ℕ)
          → idx < len
          → (w : ViewMut) × (get_elem? views idx ≡ some w) × IsPart dims v w k idx)
unfolding split flat_index
split-IsPart dims v k len f size read =
    let pos = position k v.fixed_indexes in
    let raw = pos + k in
    let bounds = remove v.bounds k in
    (
      split_from v bounds pos raw len 0,
      rw (read, split) refl,
      split_from-length v bounds pos raw len 0,
      λ idx h. (
        record { bounds = bounds; fixed_indexes = insert v.fixed_indexes pos (raw, 0 + idx) },
        split_from-read v bounds pos raw len 0 idx h,
        record {
          bounds = refl;
          fixed = insert-IsFixed 0 k (0 + idx) v.fixed_indexes (omega arith) f;
          added = length-insert v.fixed_indexes pos (raw, 0 + idx);
          reads = λ indexes n.
              let zero_idx : 0 + idx ≡ idx = omega arith in
              rw zero_idx (
                flat_from-split 0 dims v.fixed_indexes f k k pos raw idx indexes 0 (omega arith)
                  refl refl (omega (arith, get_elem?-lt v.bounds k read)) (omega arith));
        },
      ),
    )
