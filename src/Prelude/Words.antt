-- ===== src/Prelude/Words.antt =====
-- Unsigned machine words as natural numbers. A release build of the crates (Cargo.toml sets no
-- `overflow-checks`) wraps on `+`, `-` and `*` and masks the amount of a shift.
use Prim.Native.Nat.{ℕ, ◌+◌, ◌-◌, ◌*◌, ◌%◌, ◌^◌, ◌<◌, min}

abbrev pub u32_max : ℕ
u32_max = 4_294_967_295

abbrev pub u32_mod : ℕ
u32_mod = 4_294_967_296

abbrev pub u16_mod : ℕ
u16_mod = 65_536

abbrev pub IsU32 : ℕ → Type 0
IsU32 a = a < u32_mod

abbrev pub add32 : ℕ → ℕ → ℕ
add32 a b = (a + b) % u32_mod

abbrev pub sub32 : ℕ → ℕ → ℕ
sub32 a b = (a + u32_mod - b) % u32_mod

abbrev pub mul32 : ℕ → ℕ → ℕ
mul32 a b = (a * b) % u32_mod

-- `saturating_add`, `saturating_sub` and `saturating_mul`.
abbrev pub saturating_add : ℕ → ℕ → ℕ
saturating_add a b = min (a + b) u32_max

abbrev pub saturating_sub : ℕ → ℕ → ℕ
saturating_sub a b = a - b

abbrev pub saturating_mul : ℕ → ℕ → ℕ
saturating_mul a b = min (a * b) u32_max

-- `1u16 << n`, with the amount masked to four bits, and `x - 1`.
abbrev pub shl16_one : ℕ → ℕ
shl16_one n = 2 ^ (n % 16)

abbrev pub pred16 : ℕ → ℕ
pred16 a = (a + u16_mod - 1) % u16_mod
