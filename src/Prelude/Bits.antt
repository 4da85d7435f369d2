-- ===== src/Prelude/Bits.antt =====
-- The bits of a number, and what `bit_and` and `bit_or` do to each of them.
use Prim.Native.Nat.{
  ℕ, zero, suc, ◌+◌, ◌-◌, ◌*◌, ◌/◌, ◌%◌, ◌^◌, ◌≤◌, ◌<◌, min, max, bit_and, bit_or,
}
use Prim.Native.Nat.{digits, bit_and-bitwise, bit_or-bitwise}
use mathlib.Core.Logic.{◌≢◌}
use mathlib.Core.Path.{◌≡◌, refl, ap}
use native.Mathlib.Omega.{arith}
use native.Mathlib.Nat.{pow-suc, mul-one, sub-zero}
use telamon.Prelude.Tests.{ltb, if◌then◌else◌}

-- Bit `i` of `n`, as 0 or 1.
abbrev pub bit : ℕ → ℕ → ℕ
bit zero n = n % 2
bit (suc i) n = bit i (n / 2)

pub bit-lt : (i n : ℕ) → bit i n < 2
bit-lt zero n = omega arith
bit-lt (suc i) n = bit-lt i (n / 2)

-- Digit by digit, for any operation: `low` is what is done once the first number has run out, `op`
-- what is done to two digits. More rounds than the first number has digits change nothing.
module _ (low : ℕ → ℕ) (op : ℕ → ℕ → ℕ) where
  more_rounds : (n m a b : ℕ) → a ≤ n → n ≤ m → digits low op m a b ≡ digits low op n a b
  more_rounds zero m (suc a) b h k = absurd (omega arith)
  more_rounds zero zero zero b h k = refl
  more_rounds zero (suc m) zero b h k = refl
  more_rounds (suc n) zero a b h k = absurd (omega arith)
  more_rounds (suc n) (suc m) zero b h k = refl
  more_rounds (suc n) (suc m) (suc a) b h k =
      ap (λ t. t * 2 + op (suc a % 2) (b % 2))
        (more_rounds n m (suc a / 2) (b / 2) (omega arith) (omega arith))

  halves :
      (a b : ℕ)
      → digits low op (suc a) (suc a) b
        ≡ digits low op (suc a / 2) (suc a / 2) (b / 2) * 2 + op (suc a % 2) (b % 2)
  halves a b =
      ap (λ t. t * 2 + op (suc a % 2) (b % 2))
        (more_rounds (suc a / 2) a (suc a / 2) (b / 2) (omega arith) (omega arith))

pub zero-bit_and : (b : ℕ) → bit_and 0 b ≡ 0
zero-bit_and b = bit_and-bitwise 0 b

pub zero-bit_or : (b : ℕ) → bit_or 0 b ≡ b
zero-bit_or b = bit_or-bitwise 0 b

bit_and_halves : (a b : ℕ) → bit_and a b ≡ bit_and (a / 2) (b / 2) * 2 + min (a % 2) (b % 2)
bit_and_halves zero b = omega (arith, zero-bit_and b, zero-bit_and (b / 2))
bit_and_halves (suc a) b =
    rw (bit_and-bitwise (suc a) b, bit_and-bitwise (suc a / 2) (b / 2)) (halves (λ b. zero) min a b)

bit_or_halves : (a b : ℕ) → bit_or a b ≡ bit_or (a / 2) (b / 2) * 2 + max (a % 2) (b % 2)
bit_or_halves zero b = omega (arith, zero-bit_or b, zero-bit_or (b / 2))
bit_or_halves (suc a) b =
    rw (bit_or-bitwise (suc a) b, bit_or-bitwise (suc a / 2) (b / 2)) (halves (λ b. b) max a b)

bit_and-zero_below : (n a : ℕ) → a < n → bit_and a 0 ≡ 0
bit_and-zero_below zero a h = absurd (omega arith)
bit_and-zero_below (suc n) zero h = zero-bit_and 0
bit_and-zero_below (suc n) (suc a) h =
    rw (bit_and_halves (suc a) 0, bit_and-zero_below n (suc a / 2) (omega arith)) (omega arith)

pub bit_and-zero : (a : ℕ) → bit_and a 0 ≡ 0
bit_and-zero a = bit_and-zero_below (suc a) a (omega arith)

pub half_and : (a b : ℕ) → bit_and a b / 2 ≡ bit_and (a / 2) (b / 2)
half_and a b = omega (arith, bit_and_halves a b)

pub half_or : (a b : ℕ) → bit_or a b / 2 ≡ bit_or (a / 2) (b / 2)
half_or a b = omega (arith, bit_or_halves a b)

pub bit-bit_and : (i a b : ℕ) → bit i (bit_and a b) ≡ min (bit i a) (bit i b)
bit-bit_and zero a b = omega (arith, bit_and_halves a b)
bit-bit_and (suc i) a b = rw (half_and a b) (bit-bit_and i (a / 2) (b / 2))

pub bit-bit_or : (i a b : ℕ) → bit i (bit_or a b) ≡ max (bit i a) (bit i b)
bit-bit_or zero a b = omega (arith, bit_or_halves a b)
bit-bit_or (suc i) a b = rw (half_or a b) (bit-bit_or i (a / 2) (b / 2))

double_half : (a : ℕ) → a * 2 / 2 ≡ a
double_half a = omega arith

pub half-pow : (i : ℕ) → 2 ^ suc i / 2 ≡ 2 ^ i
half-pow i = omega (arith, pow-suc 2 i)

pub pow_pos : (i : ℕ) → 0 < 2 ^ i
pow_pos zero = omega arith
pow_pos (suc i) = omega (arith, pow-suc 2 i, pow_pos i)

-- `(1 << i) & n`
pub pow-bit_and : (i n : ℕ) → bit_and (2 ^ i) n ≡ bit i n * 2 ^ i
pow-bit_and zero n = omega (arith, bit_and_halves 1 n, zero-bit_and (n / 2))
pow-bit_and (suc i) n =
    rw (pow-suc 2 i, bit_and_halves (2 ^ i * 2) n, double_half (2 ^ i), pow-bit_and i (n / 2))
      (omega arith)

pub bit-zero : (i : ℕ) → bit i 0 ≡ 0
bit-zero zero = refl
bit-zero (suc i) = bit-zero i

pub bit-pow_self : (i : ℕ) → bit i (2 ^ i) ≡ 1
bit-pow_self zero = refl
bit-pow_self (suc i) = rw (half-pow i) (bit-pow_self i)

pub bit-pow_ne : (i j : ℕ) → i ≢ j → bit i (2 ^ j) ≡ 0
bit-pow_ne zero zero h = absurd (h refl)
bit-pow_ne zero (suc j) h = omega (arith, pow-suc 2 j)
bit-pow_ne (suc i) zero h = bit-zero i
bit-pow_ne (suc i) (suc j) h = rw (half-pow j) (bit-pow_ne i j (omega arith))

pub half_ones : (n : ℕ) → (2 ^ suc n - 1) / 2 ≡ 2 ^ n - 1
half_ones n = omega (arith, pow-suc 2 n, pow_pos n)

-- `(1 << n) - 1` has its ones below `n`.
pub bit-ones : (i n : ℕ) → bit i (2 ^ n - 1) ≡ (if ltb i n then 1 else 0)
bit-ones i zero = ground (arith, bit-zero i)
bit-ones zero (suc n) = ground (arith, pow-suc 2 n, pow_pos n)
bit-ones (suc i) (suc n) = rw (half_ones n) (ground (arith, bit-ones i n))

-- `m << s`
pub bit-shift : (i m s : ℕ) → bit i (m * 2 ^ s) ≡ (if ltb i s then 0 else bit (i - s) m)
bit-shift i m zero = rw (mul-one m, sub-zero i) (ground arith)
bit-shift zero m (suc s) = ground (arith, ap (λ (t : ℕ). m * t) (pow-suc 2 s))
bit-shift (suc i) m (suc s) = rw (half_shift m s) (ground (arith, bit-shift i m s))
  where
    half_shift : (m s : ℕ) → m * 2 ^ suc s / 2 ≡ m * 2 ^ s
    half_shift m s = omega (arith, ap (λ (t : ℕ). m * t) (pow-suc 2 s))

pub half_complement : (n x : ℕ) → x < 2 ^ suc n → (2 ^ suc n - 1 - x) / 2 ≡ 2 ^ n - 1 - x / 2
half_complement n x w = omega (arith, pow-suc 2 n)

-- `!x` at `n` bits.
pub bit-complement : (i n x : ℕ) → i < n → x < 2 ^ n → bit i (2 ^ n - 1 - x) ≡ 1 - bit i x
bit-complement i zero x h w = absurd (omega arith)
bit-complement zero (suc n) x h w = omega (arith, pow-suc 2 n)
bit-complement (suc i) (suc n) x h w =
    rw (half_complement n x w)
      (bit-complement i n (x / 2) (omega arith) (omega (arith, pow-suc 2 n)))

-- A number with no bit below `n`, and smaller than `2 ^ n`, is 0.
pub eq_zero_of_bits : (n x : ℕ) → x < 2 ^ n → ((i : ℕ) → i < n → bit i x ≡ 0) → x ≡ 0
eq_zero_of_bits zero x w h = omega arith
eq_zero_of_bits (suc n) x w h = omega (
  arith,
  h 0 (omega arith),
  eq_zero_of_bits n (x / 2) (omega (arith, pow-suc 2 n)) (λ i l. h (suc i) (omega arith)),
)

-- Bits beyond the size of a number are 0.
pub bit-zero_of_lt : (i x : ℕ) → x < 2 ^ i → bit i x ≡ 0
bit-zero_of_lt zero x w = omega arith
bit-zero_of_lt (suc i) x w = bit-zero_of_lt i (x / 2) (omega (arith, pow-suc 2 i))
