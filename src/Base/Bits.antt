-- ===== src/Base/Bits.antt =====
-- `&` with one bit and with a mask of low bits, as arithmetic.
use Prim.Native.Nat.{
  ℕ, zero, suc, ◌+◌, ◌-◌, ◌*◌, ◌/◌, ◌%◌, ◌^◌, ◌≤◌, min, bit_and, digits, bit_and-bitwise,
}
use mathlib.Core.Path.{◌≡◌, refl, sym, ap, ap₂}
use native.Mathlib.Nat.{pow-succ', div-div-eq-div-mul, div-add-mod, one-le-pow}
use native.Mathlib.Omega.{arith}

-- The native operation stands for a recursion on digits, with the first number for fuel; any
-- fuel that is large enough gives the same result.
module _ (z : ℕ → ℕ) (f : ℕ → ℕ → ℕ) where
  digits_enough :
      (fuel fuel' a b : ℕ) → a ≤ fuel → a ≤ fuel' → digits z f fuel a b ≡ digits z f fuel' a b
  digits_enough zero zero a b p q = refl
  digits_enough zero (suc fuel') zero b p q = refl
  digits_enough zero (suc fuel') (suc a) b p q = absurd (omega arith)
  digits_enough (suc fuel) zero zero b p q = refl
  digits_enough (suc fuel) zero (suc a) b p q = absurd (omega arith)
  digits_enough (suc fuel) (suc fuel') zero b p q = refl
  digits_enough (suc fuel) (suc fuel') (suc a) b p q =
      rw (digits_enough fuel fuel' (suc a / 2) (b / 2) (omega arith) (omega arith))

-- One step of `&`: the halves, and the lowest digit.
pub bit_and_halve : (a b : ℕ) → bit_and a b ≡ 2 * bit_and (a / 2) (b / 2) + min (a % 2) (b % 2)
bit_and_halve zero b = omega (arith, bit_and-bitwise 0 b, bit_and-bitwise 0 (b / 2))
bit_and_halve (suc a) b = omega (
  arith,
  bit_and-bitwise (suc a) b,
  bit_and-bitwise (suc a / 2) (b / 2),
  digits_enough (λ c. 0) min a (suc a / 2) (suc a / 2) (b / 2) (omega arith) (omega arith),
)

bit_and-zero_below : (bound a : ℕ) → a ≤ bound → bit_and a 0 ≡ 0
bit_and-zero_below zero zero h = refl
bit_and-zero_below zero (suc a) h = absurd (omega arith)
bit_and-zero_below (suc bound) a h =
    omega (arith, bit_and_halve a 0, bit_and-zero_below bound (a / 2) (omega arith))

pub bit_and-zero : (a : ℕ) → bit_and a 0 ≡ 0
bit_and-zero a = bit_and-zero_below a a (omega arith)

half_pow : (k : ℕ) → 2 ^ suc k ≡ 2 * 2 ^ k
half_pow k = pow-succ' 2 k

div-half : (x k : ℕ) → x / 2 ^ suc k ≡ x / 2 / 2 ^ k
div-half x k = rw (half_pow k) (sym (div-div-eq-div-mul x 2 (2 ^ k)))

pub mod-half : (x k : ℕ) → x % 2 ^ suc k ≡ 2 * (x / 2 % 2 ^ k) + x % 2
mod-half x k = omega (
  arith,
  div-add-mod x (2 ^ suc k),
  div-add-mod (x / 2) (2 ^ k),
  ap₂ ◌*◌ (half_pow k) (div-half x k),
)

-- One bit.
pub bit_and-pow : (k x : ℕ) → bit_and x (2 ^ k) ≡ 2 ^ k * (x / 2 ^ k % 2)
bit_and-pow zero x = omega (arith, bit_and_halve x 1, bit_and-zero (x / 2))
bit_and-pow (suc k) x = rw (div-half x k) (
    omega (
      arith,
      bit_and_halve x (2 ^ suc k),
      half_pow k,
      ap (bit_and (x / 2)) (half_of k),
      bit_and-pow k (x / 2),
      ap (λ (t : ℕ). t * (x / 2 / 2 ^ k % 2)) (half_pow k),
    ))
  where
    half_of : (k : ℕ) → 2 ^ suc k / 2 ≡ 2 ^ k
    half_of k = omega (arith, half_pow k)

-- The low bits.
pub bit_and-mask : (k x : ℕ) → bit_and x (2 ^ k - 1) ≡ x % 2 ^ k
bit_and-mask zero x = omega (arith, bit_and-zero x)
bit_and-mask (suc k) x = omega (
  arith,
  bit_and_halve x (2 ^ suc k - 1),
  half_pow k,
  one-le-pow k 2,
  ap (bit_and (x / 2)) half_of,
  bit_and-mask k (x / 2),
  mod-half x k,
)
  where
    half_of : (2 ^ suc k - 1) / 2 ≡ 2 ^ k - 1
    half_of = omega (arith, half_pow k, one-le-pow k 2 (omega arith))
