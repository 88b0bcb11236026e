-- ===== src/Base/Words.antt =====
-- `size_t` and `uint64_t` arithmetic, which wraps at 2 ^ 64, and the narrower words.
use Prim.Native.Nat.{ℕ, ◌+◌, ◌-◌, ◌%◌, ◌^◌, ◌<◌, ◌/◌, ◌*◌}
use mathlib.Core.Path.{◌≡◌}
use native.Mathlib.Omega.{arith}

abbrev pub word : ℕ
word = 2 ^ 64

-- a + b
abbrev pub add64 : ℕ → ℕ → ℕ
add64 a b = (a + b) % 2 ^ 64

-- a - b
abbrev pub sub64 : ℕ → ℕ → ℕ
sub64 a b = (a + 2 ^ 64 - b) % 2 ^ 64

-- the casts `(uint32_t)` and `(uint16_t)`
abbrev pub u32 : ℕ → ℕ
u32 a = a % 2 ^ 32

abbrev pub u16 : ℕ → ℕ
u16 a = a % 2 ^ 16

-- `__builtin_bswap16`, and `ntohs` and `bpf_ntohs` on a little-endian machine.
abbrev pub bswap16 : ℕ → ℕ
bswap16 a = a % 256 * 256 + a / 256 % 256

pub bswap16-bswap16 : (a : ℕ) → a < 2 ^ 16 → bswap16 (bswap16 a) ≡ a
bswap16-bswap16 a h = omega arith
