-- ===== src/Base/Bits.antt =====
-- Masks and powers of two: `x & (c - 1)` at a capacity `c` that passes the compile-time check.
use Prim.Native.Nat.{ℕ, zero, suc, ◌+◌, ◌-◌, ◌*◌, ◌/◌, ◌%◌, ◌^◌, ◌≤◌, ◌<◌, ◌∣◌, min, bit_and}
use Prim.Native.Nat.{digits, bit_and-bitwise}
use mathlib.Core.Path.{◌≡◌, refl, ap, ◌∙◌}
use native.Mathlib.Nat.{
  dvd_refl, dvd-mul_right_of_dvd, pow-le-pow_right, pow-suc, one-le-pow, mod_self,
}
use native.Mathlib.Decide.{ℕ_discrete, dec_lt}
use native.Mathlib.Omega.{arith}

abbrev and_loop : ℕ → ℕ → ℕ → ℕ
and_loop fuel a b = digits (λ _. zero) min fuel a b

-- More fuel than digits changes nothing.
and_loop_enough : (fuel a b : ℕ) → a ≤ fuel → and_loop (suc fuel) a b ≡ and_loop fuel a b
and_loop_enough zero zero b h = refl
and_loop_enough zero (suc a) b h = absurd (omega arith)
and_loop_enough (suc f) zero b h = refl
and_loop_enough (suc f) (suc a) b h =
    omega (arith, and_loop_enough f (suc a / 2) (b / 2) (omega arith))

and_loop_from :
    (extra fuel m a b : ℕ) → m ≡ extra + fuel → a ≤ fuel → and_loop m a b ≡ and_loop fuel a b
and_loop_from zero fuel m a b e h = let e' : m ≡ fuel = omega arith in rw e'
and_loop_from (suc k) fuel m a b e h =
    let e' : m ≡ suc (k + fuel) = omega arith in
    rw e'
      (and_loop_enough (k + fuel) a b (omega arith) ∙ and_loop_from k fuel (k + fuel) a b refl h)

-- The lowest digit of `x & y`, and the digits above it.
pub bit_and_digit : (a b : ℕ) → bit_and a b ≡ bit_and (a / 2) (b / 2) * 2 + min (a % 2) (b % 2)
bit_and_digit zero b = omega (arith, bit_and-bitwise 0 b, bit_and-bitwise 0 (b / 2))
bit_and_digit (suc a) b = omega (
  arith,
  bit_and-bitwise (suc a) b,
  bit_and-bitwise (suc a / 2) (b / 2),
  and_loop_from (a - suc a / 2) (suc a / 2) a (suc a / 2) (b / 2) (omega arith) (omega arith),
)

-- A number below the fuel has no digit in common with 0.
bit_and-zero_below : (fuel a : ℕ) → a < fuel → bit_and a 0 ≡ 0
bit_and-zero_below zero a h = absurd (omega arith)
bit_and-zero_below (suc f) zero h = refl
bit_and-zero_below (suc f) (suc a) h =
    omega (arith, bit_and_digit (suc a) 0, bit_and-zero_below f (suc a / 2) (omega arith))

pub bit_and-zero : (a : ℕ) → bit_and a 0 ≡ 0
bit_and-zero a = bit_and-zero_below (suc a) a (omega arith)

two_pow_pos : (k : ℕ) → 1 ≤ 2 ^ k
two_pow_pos k = one-le-pow k 2 (omega arith)

-- The remainder of a doubled modulus: one digit, and the remainder of the half.
mod_double : (a m : ℕ) → 0 < m → a % (m * 2) ≡ (a / 2) % m * 2 + a % 2
mod_double a m h = grind arith

-- `x & (2 ^ k - 1)` is the remainder by `2 ^ k`.
pub bit_and_mask : (k a : ℕ) → bit_and a (2 ^ k - 1) ≡ a % 2 ^ k
bit_and_mask zero a = bit_and-zero a ∙ omega arith
bit_and_mask (suc k) a = omega (
  arith,
  bit_and_digit a (2 ^ suc k - 1),
  pow-suc 2 k,
  two_pow_pos k,
  bit_and_mask k (a / 2),
  mod_double a (2 ^ k) (two_pow_pos k),
  ap (λ (t : ℕ). bit_and (a / 2) t) half,
  ap (λ (t : ℕ). a % t) (pow-suc 2 k),
)
  where
    half : (2 ^ suc k - 1) / 2 ≡ 2 ^ k - 1
    half = omega (arith, pow-suc 2 k, two_pow_pos k)

-- `c & (c - 1)` is 0 at a power of two.
pub bit_and_pred_pow : (k : ℕ) → bit_and (2 ^ k) (2 ^ k - 1) ≡ 0
bit_and_pred_pow k = bit_and_mask k (2 ^ k) ∙ mod_self (2 ^ k)

bit_and_self : (fuel a : ℕ) → a < fuel → bit_and a a ≡ a
bit_and_self zero a h = absurd (omega arith)
bit_and_self (suc f) zero h = refl
bit_and_self (suc f) (suc a) h =
    omega (arith, bit_and_digit (suc a) (suc a), bit_and_self f (suc a / 2) (omega arith))

-- A positive number with `c & (c - 1) = 0` is a power of two: an odd one is 1, an even one is
-- twice a smaller one.
power_below : (fuel c : ℕ) → c < fuel → 0 < c → bit_and c (c - 1) ≡ 0 → (k : ℕ) × (c ≡ 2 ^ k)
power_below zero c h p e = absurd (omega arith)
power_below (suc f) c h p e = elim (ℕ_discrete (c % 2) 0) [
  | yes even ↦
      let (k, q) = power_below f (c / 2) (omega arith) (omega arith) (half even) in
      (suc k, omega (arith, pow-suc 2 k))
  | no odd ↦ (0, small odd)
]
  where
    half : c % 2 ≡ 0 → bit_and (c / 2) (c / 2 - 1) ≡ 0
    half even =
        let e' : (c - 1) / 2 ≡ c / 2 - 1 = omega arith in
        omega (arith, bit_and_digit c (c - 1), ap (λ (t : ℕ). bit_and (c / 2) t) e')

    small : ¬ (c % 2 ≡ 0) → c ≡ 1
    small odd =
        let e' : (c - 1) / 2 ≡ c / 2 = omega arith in
        omega (
          arith,
          bit_and_digit c (c - 1),
          ap (λ (t : ℕ). bit_and (c / 2) t) e',
          bit_and_self (suc c) (c / 2) (omega arith),
        )

pub power_of_bit_and : (c : ℕ) → 0 < c → bit_and c (c - 1) ≡ 0 → (k : ℕ) × (c ≡ 2 ^ k)
power_of_bit_and c p e = power_below (suc c) c (omega arith) p e

-- A smaller power of two divides a greater one.
pub pow_dvd : (k n j : ℕ) → j + k ≡ n → 2 ^ k ∣ 2 ^ n
pow_dvd k n zero e = let e' : k ≡ n = omega arith in rw e' (dvd_refl _)
pow_dvd k n (suc j) e =
    let e' : n ≡ suc (j + k) = omega arith in
    rw (e', pow-suc) (dvd-mul_right_of_dvd (2 ^ k) (pow_dvd k (j + k) j refl) 2)

-- A power of two below `2 ^ n` has an exponent below `n`.
pub exponent-lt : (k n : ℕ) → 2 ^ k < 2 ^ n → k < n
exponent-lt k n h = elim (dec_lt k n) [
  | yes p ↦ p
  | no p ↦
      let up : 2 ^ n ≤ 2 ^ k = pow-le-pow_right {n = 2} (omega arith) (omega arith) in
      absurd (omega arith)
]
