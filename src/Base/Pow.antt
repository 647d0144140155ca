-- ===== src/Base/Pow.antt =====
-- Powers of two, and what a left and a right shift by complementary counts do to a word.
use Prim.Native.Nat.{ℕ, zero, suc, ◌+◌, ◌*◌, ◌/◌, ◌%◌, ◌^◌, ◌≤◌, ◌<◌}
use mathlib.Core.Path.{◌≡◌, ap, sym}
use native.Mathlib.Nat.{
  pow-suc, pow-le-pow_right, one-le-pow, mul_comm, mul_assoc, mul-div-mul_right, div-add-mod,
}
use native.Mathlib.Omega.{arith}

pub pow-add : (a b : ℕ) → 2 ^ (a + b) ≡ 2 ^ a * 2 ^ b
pow-add a zero = let e : a + 0 ≡ a = omega arith in rw e (omega arith)
pow-add a (suc b) =
    let e : a + suc b ≡ suc (a + b) = omega arith in
    rw (e, pow-suc 2 (a + b), pow-suc 2 b, pow-add a b) (mul_assoc (2 ^ a) (2 ^ b) 2)

pub pow-pos : (k : ℕ) → 0 < 2 ^ k
pow-pos k = one-le-pow k 2 (omega arith)

pub pow-lt : (a b : ℕ) → a < b → 2 ^ a < 2 ^ b
pow-lt a b h =
    let step : 2 ^ suc a ≤ 2 ^ b = pow-le-pow_right (omega arith) h in
    omega (arith, step, pow-suc 2 a, pow-pos a)

-- With `p * q` a fixed modulus `m`: a word times `p` splits into the part that leaves the word,
-- which is the word divided by `q`, and the part that stays.
module _ (p q x : ℕ) (pp : 0 < p) (qp : 0 < q) where
  pub mul-div-modulus : x * p / (p * q) ≡ x / q
  mul-div-modulus = rw (mul_comm p q) (mul-div-mul_right x q pp)

  pub mul_split : x * p ≡ p * q * (x / q) + x * p % (p * q)
  mul_split = sym (rw (mul-div-modulus) at (div-add-mod (x * p) (p * q)))

  pub mul-mod-modulus : x * p % (p * q) ≡ p * (x % q)
  mul-mod-modulus =
      omega (arith, mul_split, ap (λ (t : ℕ). t * p) (div-add-mod x q), mul_comm (p * q) (x / q))
