-- ===== src/Base/Word.antt =====
-- Arithmetic of the C types `uint64_t`, `uint32_t` (or `unsigned`) and `uint8_t`, with its wrap.
use Prim.Native.Nat.{ℕ, ◌+◌, ◌-◌, ◌*◌, ◌%◌, ◌≤◌, ◌<◌}
use mathlib.Core.Path.{◌≡◌}
use native.Mathlib.Omega.{arith}
use native.Mathlib.Nat.{mod-eq_of_lt}

abbrev pub u64_mod : ℕ
u64_mod = 18_446_744_073_709_551_616

abbrev pub u32_mod : ℕ
u32_mod = 4_294_967_296

-- An `int` stays below this.
abbrev pub int_mod : ℕ
int_mod = 2_147_483_648

unfoldable pub add64 : ℕ → ℕ → ℕ
add64 a b = (a + b) % u64_mod

-- `-` on ℕ stops at 0, so the modulus is added first.
unfoldable pub sub64 : ℕ → ℕ → ℕ
sub64 a b = (a + u64_mod - b) % u64_mod

unfoldable pub mul64 : ℕ → ℕ → ℕ
mul64 a b = (a * b) % u64_mod

unfoldable pub mul32 : ℕ → ℕ → ℕ
mul32 a b = (a * b) % u32_mod

-- The conversions to a narrower type.
unfoldable pub to_u32 : ℕ → ℕ
to_u32 a = a % u32_mod

unfoldable pub to_u8 : ℕ → ℕ
to_u8 a = a % 256

pub add64-eq : (a b : ℕ) → a + b < u64_mod → add64 a b ≡ a + b
unfolding add64
add64-eq a b h = omega arith

pub sub64-eq : (a b : ℕ) → b ≤ a → a < u64_mod → sub64 a b ≡ a - b
unfolding sub64
sub64-eq a b h k = omega arith

pub mul64-eq : (a b : ℕ) → a * b < u64_mod → mul64 a b ≡ a * b
unfolding mul64
mul64-eq a b h = mod-eq_of_lt h

pub mul32-eq : (a b : ℕ) → a * b < u32_mod → mul32 a b ≡ a * b
unfolding mul32
mul32-eq a b h = mod-eq_of_lt h

pub to_u32-eq : (a : ℕ) → a < u32_mod → to_u32 a ≡ a
unfolding to_u32
to_u32-eq a h = mod-eq_of_lt h

pub to_u8-eq : (a : ℕ) → a < 256 → to_u8 a ≡ a
unfolding to_u8
to_u8-eq a h = mod-eq_of_lt h

pub add64-lt : (a b : ℕ) → add64 a b < u64_mod
unfolding add64
add64-lt a b = omega arith

pub sub64-lt : (a b : ℕ) → sub64 a b < u64_mod
unfolding sub64
sub64-lt a b = omega arith
