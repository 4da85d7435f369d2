-- ===== src/Runtime/NumericSet.antt =====
-- telamon-gen/src/print/runtime/integer_set.rs: `NumericSet`, a `u16` whose bit `i` stands for the value
-- at place `i` of a sorted universe. A shift masks its amount to four bits, as a release build does.
pub mod Meaning
pub mod Lattice
pub mod Ends
pub mod Bounds
use package.telamon.Prelude.{
  ℕ, zero, suc, ◌+◌, ◌-◌, ◌*◌, ◌/◌, ◌%◌, ◌^◌, ◌≤◌, ◌<◌, min, max, compare, Ordering, bit_and,
  bit_or, ◌≡◌, refl, sym, ap, ◌∙◌, subst, fun_ext, ◌≢◌, ◌↔◌, ◌⊎◌, inl, inr, Bool, true, false, not,
  ◌&&◌, ◌||◌, Option, none, some, List, [], ◌∷◌, ◌++◌, map, arith, ltb, leb, ◌==◌, if◌then◌else◌,
  ltb→lt, lt→ltb, leb→le, ==→≡, tests, Bool-cases, Option-cases, Ordering-cases, length, get_elem?,
  take, drop, replicate, ◌∈◌, All, length-append, length-replicate, length-set, take-append,
  drop-append, All-get_elem?, get_elem?-total, get_elem?-lt, mem-append_left, mem-append_right,
  mem-append_cases, u32_max, u32_mod, u16_mod, IsU32, add32, sub32, mul32, saturating_add,
  saturating_sub, saturating_mul, shl16_one, pred16,
}
use package.telamon.Runtime.NumSet.{NumSet}

pub record NumericSet : Type 0 where
  pub enabled_values : ℕ

abbrev pub max_len : ℕ
max_len = 16

abbrev pub failed : NumericSet
failed = record { enabled_values = 0 }

-- `x << n` on `u16`.
abbrev pub shl16 : ℕ → ℕ → ℕ
shl16 x n = (x * 2 ^ (n % 16)) % u16_mod

unfoldable pub all : List ℕ → NumericSet
all universe = record { enabled_values = pred16 (shl16_one (length universe)) }

unfoldable pub insert : NumericSet → NumericSet → NumericSet
insert s other = record { enabled_values = bit_or s.enabled_values other.enabled_values }

-- The bits from `x` on, `left` of them.
list_from : ℕ → ℕ → ℕ → List NumericSet
list_from zero x enabled = []
list_from (suc left) x enabled =
    let rest = list_from left (x + 1) enabled in
    if bit_and enabled (2 ^ x) == 0 then rest else record { enabled_values = 2 ^ x } ∷ rest

unfoldable pub list : NumericSet → List NumericSet
unfolding list_from
list s = list_from max_len 0 s.enabled_values

-- The filter of `list_values`, from place `i` of the universe on.
list_values_from : ℕ → ℕ → List ℕ → List ℕ
list_values_from i enabled [] = []
list_values_from i enabled (v ∷ vs) =
    let rest = list_values_from (i + 1) enabled vs in
    if bit_and (shl16_one i) enabled == 0 then rest else v ∷ rest

unfoldable pub list_values : NumericSet → List ℕ → List ℕ
unfolding list_values_from
list_values s universe = list_values_from 0 s.enabled_values universe

-- `!x` on `u16` is 65535 - x.
unfoldable pub complement : NumericSet → List ℕ → NumericSet
unfolding all
complement s universe = record {
  enabled_values = bit_and (65_535 - s.enabled_values) (all universe).enabled_values;
}

-- `impl Domain for NumericSet`
unfoldable pub is_failed : NumericSet → Bool
is_failed s = s.enabled_values == 0

abbrev pub count_ones : ℕ → ℕ → ℕ
count_ones zero n = 0
count_ones (suc w) n = n % 2 + count_ones w (n / 2)

unfoldable pub is_constrained : NumericSet → Bool
is_constrained s = count_ones 16 s.enabled_values == 1

unfoldable pub contains : NumericSet → NumericSet → Bool
contains s other = bit_and s.enabled_values other.enabled_values == other.enabled_values

unfoldable pub restrict : NumericSet → NumericSet → NumericSet
restrict s other = record { enabled_values = bit_and s.enabled_values other.enabled_values }

-- `trailing_zeros` of a word of `w` bits, and the bits of it that `leading_zeros` leaves.
unfoldable pub trailing_zeros : ℕ → ℕ → ℕ
trailing_zeros zero n = 0
trailing_zeros (suc w) n = let rest = trailing_zeros w (n / 2) in if n % 2 == 1 then 0 else suc rest

unfoldable pub bit_length : ℕ → ℕ → ℕ
bit_length zero n = 0
bit_length (suc w) n = let rest = bit_length w (n / 2) in if n == 0 then 0 else suc rest

abbrev pub leading_zeros : ℕ → ℕ → ℕ
leading_zeros w n = w - bit_length w n

-- `impl NumSet for NumericSet`: `none` is an index out of the universe, a panic.
unfoldable pub min_value : NumericSet → List ℕ → Option ℕ
min_value s universe =
    if s.enabled_values == 0
    then some 0
    else get_elem? universe (trailing_zeros 16 s.enabled_values)

unfoldable pub max_value : NumericSet → List ℕ → Option ℕ
max_value s universe =
    if s.enabled_values == 0
    then some u32_max
    else get_elem? universe (max_len - leading_zeros 16 s.enabled_values - 1)

-- `[T]::binary_search` on a sorted slice: the place of the value, or where it would stand.
pub data Search : Type 0 where
  ok : ℕ → Search
  err : ℕ → Search

abbrev pub next : Search → Search
next (ok i) = ok (suc i)
next (err i) = err (suc i)

unfoldable pub binary_search : ℕ → List ℕ → Search
binary_search v [] = err 0
binary_search v (x ∷ xs) = elim (compare x v) [
  | Ordering.lt ↦ next (binary_search v xs)
  | Ordering.eq ↦ ok 0
  | _ ↦ err 0
]

-- `.unwrap_or_else(|x| x)`, and the same after `.map(|x| x + 1)`.
abbrev pub place : Search → ℕ
place (ok i) = i
place (err i) = i

abbrev pub place_after : Search → ℕ
place_after (ok i) = suc i
place_after (err i) = i

-- `(1 << len) - 1` and `((1 << len) - 1) << start`.
abbrev pub ones : ℕ → ℕ
ones len = pred16 (shl16_one len)

-- `impl NumDomain for NumericSet`
module _ {D U : Type 0} ⦃n : NumSet D U⦄ where
  unfoldable pub new_gt : List ℕ → D → U → NumericSet
  unfolding binary_search
  new_gt universe d u =
      let start = place_after (binary_search (n.min_value d u) universe) in
      record { enabled_values = shl16 (ones (length universe - start)) start }

  unfoldable pub new_lt : List ℕ → D → U → NumericSet
  unfolding binary_search
  new_lt universe d u = record {
    enabled_values = ones (place (binary_search (n.max_value d u) universe));
  }

  unfoldable pub new_geq : List ℕ → D → U → NumericSet
  unfolding binary_search
  new_geq universe d u =
      let start = place (binary_search (n.min_value d u) universe) in
      record { enabled_values = shl16 (ones (length universe - start)) start }

  unfoldable pub new_leq : List ℕ → D → U → NumericSet
  unfolding binary_search
  new_leq universe d u = record {
    enabled_values = ones (place_after (binary_search (n.max_value d u) universe));
  }
