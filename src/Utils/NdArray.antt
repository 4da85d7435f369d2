-- ===== src/Utils/NdArray.antt =====
-- telamon-utils/src/ndarray.rs: arrays with a variable number of dimensions, the ranges of their indexes,
-- and views with some dimensions fixed. `usize` does not overflow: an array is held in memory. A view
-- holds a pointer to its array; here its operations take the dimensions of it.
pub mod Enumeration
pub mod Complete
pub mod Views
use package.telamon.Prelude.{
  ℕ, zero, suc, ◌+◌, ◌-◌, ◌*◌, ◌/◌, ◌%◌, ◌^◌, ◌≤◌, ◌<◌, compare, Ordering, bit_and, bit_or, ◌≡◌,
  refl, sym, ap, ◌∙◌, subst, fun_ext, ◌≢◌, ◌↔◌, ◌⊎◌, inl, inr, Bool, true, false, not, ◌&&◌, ◌||◌,
  Option, none, some, List, [], ◌∷◌, ◌++◌, map, arith, ltb, leb, ◌==◌, if◌then◌else◌, ltb→lt,
  lt→ltb, leb→le, ==→≡, tests, Bool-cases, Option-cases, Ordering-cases, length, get_elem?, set,
  take, drop, replicate, ◌∈◌, All, length-append, length-replicate, length-set, take-append,
  drop-append, All-get_elem?, get_elem?-total, get_elem?-lt, mem-append_left, mem-append_right,
  mem-append_cases, u32_max, u32_mod, u16_mod, IsU32, add32, sub32, mul32, saturating_add,
  saturating_sub, saturating_mul, shl16_one, pred16,
}

pub record NdArray (T : Type 0) : Type 0 where
  pub dims : List ℕ
  pub cells : List T

abbrev pub product : List ℕ → ℕ
product [] = 1
product (d ∷ ds) = d * product ds

-- The fold of `nd_to_1d`: `x * y + z` over the sizes and the indexes.
abbrev pub fold_index : ℕ → List ℕ → List ℕ → ℕ
fold_index x [] zs = x
fold_index x (y ∷ ys) [] = x
fold_index x (y ∷ ys) (z ∷ zs) = fold_index (x * y + z) ys zs

module _ {T : Type 0} where
  -- `none` is the panic of the assertion.
  unfoldable pub new : List ℕ → List T → Option (NdArray T)
  new dims cells =
      if length cells == product dims then some (record { dims = dims; cells = cells }) else none

  unfoldable pub num_dims : NdArray T → ℕ
  num_dims a = length a.dims

  unfoldable pub nd_to_1d : NdArray T → List ℕ → Option ℕ
  nd_to_1d a indexes =
      if length a.dims == length indexes then some (fold_index 0 a.dims indexes) else none

  unfoldable pub index : NdArray T → List ℕ → Option T
  unfolding nd_to_1d
  index a indexes = elim (nd_to_1d a indexes) [ none ↦ none | some i ↦ get_elem? a.cells i ]

  -- `index_mut`, with the value that is stored.
  unfoldable pub index_mut : NdArray T → List ℕ → T → Option (NdArray T)
  unfolding nd_to_1d
  index_mut a indexes v = elim (nd_to_1d a indexes) [
    | none ↦ none
    | some i ↦
        if ltb i (length a.cells)
        then some (record { dims = a.dims; cells = set a.cells i v })
        else none
  ]

pub record NdRange : Type 0 where
  pub max : List ℕ
  pub current : Option (List ℕ)

abbrev pub has_zero : List ℕ → Bool
has_zero [] = false
has_zero (d ∷ ds) = d == 0 || has_zero ds

-- `NDRange::new`
unfoldable pub range_new : List ℕ → NdRange
range_new bounds = record {
  max = bounds;
  current = if has_zero bounds then none else some (replicate (length bounds) 0);
}

-- The loop of `NDRange::next` on the places after the first: the last of them is increased, and a place
-- that meets its bound becomes 0 and carries to the one before it.
abbrev pub carry_into : ℕ → ℕ → Bool × List ℕ → Bool × List ℕ
carry_into c m (false, rest) = (false, c ∷ rest)
carry_into c m (true, rest) = if c + 1 == m then (true, 0 ∷ rest) else (false, (c + 1) ∷ rest)

abbrev pub bump : List ℕ → List ℕ → Bool × List ℕ
bump [] max = (true, [])
bump (c ∷ cs) [] = (true, c ∷ cs)
bump (c ∷ cs) (m ∷ ms) = carry_into c m (bump cs ms)

-- The first place is not reset.
abbrev pub first_place : ℕ → Bool × List ℕ → List ℕ
first_place c (false, rest) = c ∷ rest
first_place c (true, rest) = (c + 1) ∷ rest

-- The range is over once the first place meets its bound, or if there is no place.
unfoldable pub advance : List ℕ → List ℕ → Option (List ℕ)
advance [] max = none
advance (c ∷ cs) [] = none
advance (c ∷ cs) (m ∷ ms) = elim (first_place c (bump cs ms)) [
  | [] ↦ none
  | d ∷ ds ↦ if d == m then none else some (d ∷ ds)
]

-- `NDRange::next`
unfoldable pub range_next : NdRange → Option (List ℕ) × NdRange
unfolding advance
range_next r = elim r.current [
  | none ↦ (none, r)
  | some current ↦ (some current, record { max = r.max; current = advance current r.max })
]

-- `ViewMut`, without the pointer.
pub record ViewMut : Type 0 where
  pub bounds : List ℕ
  pub fixed_indexes : List (ℕ × ℕ)

unfoldable pub view_mut : List ℕ → ViewMut
view_mut dims = record { bounds = dims; fixed_indexes = [] }

-- `Vec::remove` and `Vec::insert`.
abbrev pub remove {ℓ} : {A : Type ℓ} → List A → ℕ → List A
remove [] i = []
remove (x ∷ xs) zero = xs
remove (x ∷ xs) (suc i) = x ∷ remove xs i

abbrev pub insert {ℓ} : {A : Type ℓ} → List A → ℕ → A → List A
insert xs zero v = v ∷ xs
insert [] (suc i) v = v ∷ []
insert (x ∷ xs) (suc i) v = x ∷ insert xs i v

-- The first place `i` of the fixed dimensions with `i + logical_dim < raw_pos`.
abbrev pub position : ℕ → List (ℕ × ℕ) → ℕ
position logical_dim [] = 0
position logical_dim ((raw_pos, v) ∷ fixed) =
    let rest = position (suc logical_dim) fixed in if ltb logical_dim raw_pos then 0 else suc rest

-- The views of `split`, from `idx` on.
unfoldable pub split_from : ViewMut → List ℕ → ℕ → ℕ → ℕ → ℕ → List ViewMut
split_from v bounds pos raw_dim zero idx = []
split_from v bounds pos raw_dim (suc left) idx =
    record { bounds = bounds; fixed_indexes = insert v.fixed_indexes pos (raw_dim, idx) }
    ∷ split_from v bounds pos raw_dim left (idx + 1)

-- `none` is the panic of `remove`.
unfoldable pub split : ViewMut → ℕ → Option (List ViewMut)
unfolding split_from
split v logical_dim = elim (get_elem? v.bounds logical_dim) [
  | none ↦ none
  | some dim_len ↦
      let pos = position logical_dim v.fixed_indexes in
      some (split_from v (remove v.bounds logical_dim) pos (pos + logical_dim) dim_len 0)
]

-- The loop of `flat_index` from dimension `dim_id` on, with the fixed dimensions and the indexes that are
-- left. `none` is an index that is missing.
unfoldable pub flat_from : ℕ → List ℕ → List (ℕ × ℕ) → List ℕ → ℕ → Option ℕ
flat_from dim_id [] fixed indexes flat = some flat
flat_from dim_id (d ∷ dims) [] [] flat = none
flat_from dim_id (d ∷ dims) [] (i ∷ indexes) flat =
    flat_from (suc dim_id) dims [] indexes (flat * d + i)
flat_from dim_id (d ∷ dims) ((raw, v) ∷ fixed) [] flat =
    let later = flat_from (suc dim_id) dims fixed [] (flat * d + v) in
    if raw == dim_id then later else none
flat_from dim_id (d ∷ dims) ((raw, v) ∷ fixed) (i ∷ indexes) flat =
    let at_fixed = flat_from (suc dim_id) dims fixed (i ∷ indexes) (flat * d + v) in
    let at_index = flat_from (suc dim_id) dims ((raw, v) ∷ fixed) indexes (flat * d + i) in
    if raw == dim_id then at_fixed else at_index

unfoldable pub flat_index : List ℕ → ViewMut → List ℕ → Option ℕ
unfolding flat_from
flat_index dims v indexes = flat_from 0 dims v.fixed_indexes indexes 0

module _ {T : Type 0} where
  -- `impl Index for ViewMut` and `impl IndexMut for ViewMut`, on the array that the view points to.
  unfoldable pub view_index : NdArray T → ViewMut → List ℕ → Option T
  unfolding flat_index
  view_index a v indexes = elim (flat_index a.dims v indexes) [
    | none ↦ none
    | some i ↦ get_elem? a.cells i
  ]

  unfoldable pub view_index_mut : NdArray T → ViewMut → List ℕ → T → Option (NdArray T)
  unfolding flat_index
  view_index_mut a v indexes x = elim (flat_index a.dims v indexes) [
    | none ↦ none
    | some i ↦
        if ltb i (length a.cells)
        then some (record { dims = a.dims; cells = set a.cells i x })
        else none
  ]

  -- `ViewMutIter::next`, whose state is the range of the indexes; the inner `none` is a panic.
  unfoldable pub iter_next : NdArray T → ViewMut → NdRange → Option (Option T) × NdRange
  unfolding range_next view_index
  iter_next a v r =
      let (indexes, rest) = range_next r in
      (elim indexes [ none ↦ none | some is ↦ some (view_index a v is) ], rest)

  -- An item of `enumerate`: the indexes with the cell.
  unfoldable pub enumerate_next :
      NdArray T → ViewMut → NdRange → Option (List ℕ × Option T) × NdRange
  unfolding range_next view_index
  enumerate_next a v r =
      let (indexes, rest) = range_next r in
      (elim indexes [ none ↦ none | some is ↦ some (is, view_index a v is) ], rest)
