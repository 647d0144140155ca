-- ===== src/Csim/Arguments.antt =====
-- What the checks on the arguments let through.
use assignments_for_csf.Base.{
  ℕ, zero, suc, ◌+◌, ◌-◌, ◌/◌, ◌%◌, ◌^◌, ◌≤◌, ◌<◌, ◌≡◌, refl, ap, ap₂, ◌↔◌, ◌⊎◌, inl, inr, arith,
  bit_and, true, ==_iff,
}
use native.Mathlib.Nat.{pow-suc}
use assignments_for_csf.Base.Bits.{bit_and_halve, bit_and-zero}
use assignments_for_csf.Base.Pow.{pow-pos}
use assignments_for_csf.Csim.{is_power_of_two}

bit_and_self : (bound a : ℕ) → a ≤ bound → bit_and a a ≡ a
bit_and_self zero a h = let e : a ≡ 0 = omega arith in rw e (bit_and-zero 0)
bit_and_self (suc bound) a h =
    omega (arith, bit_and_halve a a, bit_and_self bound (a / 2) (omega arith))

-- `n & (n - 1)` is 0 for no other numbers.
and_pred_zero : (bound n : ℕ) → n ≤ bound → 0 < n → bit_and n (n - 1) ≡ 0 → (k : ℕ) × (n ≡ 2 ^ k)
and_pred_zero zero n h pos e = absurd (omega arith)
and_pred_zero (suc bound) n h pos e = elim (parity n) [
  | inl odd ↦
      let halves : (n - 1) / 2 ≡ n / 2 = omega arith in
      (
        0,
        omega (
          arith,
          bit_and_halve n (n - 1),
          ap (bit_and (n / 2)) halves,
          bit_and_self (n / 2) (n / 2) (omega arith),
        ),
      )
  | inr even ↦
      let halves : (n - 1) / 2 ≡ n / 2 - 1 = omega arith in
      let (k, half) =
        and_pred_zero bound (n / 2) (omega arith) (omega arith)
          (omega (arith, bit_and_halve n (n - 1), ap (bit_and (n / 2)) halves)) in
      (suc k, omega (arith, pow-suc 2 k, half))
]
  where
    parity : (m : ℕ) → (m % 2 ≡ 1) ⊎ (m % 2 ≡ 0)
    parity m = omega arith

and_pred_pow : (k : ℕ) → bit_and (2 ^ k) (2 ^ k - 1) ≡ 0
and_pred_pow zero = refl
and_pred_pow (suc k) =
    let halves : (2 ^ suc k - 1) / 2 ≡ 2 ^ k - 1 = omega (arith, pow-suc 2 k, pow-pos k) in
    let half : 2 ^ suc k / 2 ≡ 2 ^ k = omega (arith, pow-suc 2 k) in
    omega (
      arith,
      bit_and_halve (2 ^ suc k) (2 ^ suc k - 1),
      pow-suc 2 k,
      ap₂ bit_and half halves,
      and_pred_pow k,
    )

pred_word : (n : ℕ) → 0 < n → n < 2 ^ 32 → (n + 2 ^ 32 - 1) % 2 ^ 32 ≡ n - 1
pred_word n pos h = omega arith

power_pos : (n : ℕ) → 0 < n → n < 2 ^ 32 → (is_power_of_two n ≡ true) ↔ ((k : ℕ) × (n ≡ 2 ^ k))
unfolding is_power_of_two
power_pos n pos h = rw (pred_word n pos h) (
  (λ e. and_pred_zero n n (omega arith) pos ((==_iff (bit_and n (n - 1)) 0).0 e)),
  (λ (k, e). (==_iff (bit_and n (n - 1)) 0).1 (rw e (and_pred_pow k))),
)

zero_passes : is_power_of_two 0 ≡ true
unfolding is_power_of_two
zero_passes = refl

-- On 32-bit patterns, `is_power_of_two` holds exactly of the powers of two and of 0.
pub is_power_of_two_iff :
    (n : ℕ) → n < 2 ^ 32 → (is_power_of_two n ≡ true) ↔ ((n ≡ 0) ⊎ ((k : ℕ) × (n ≡ 2 ^ k)))
is_power_of_two_iff zero h = ((λ e. inl refl), (λ e. zero_passes))
is_power_of_two_iff (suc n) h = (
  (λ e. inr ((power_pos (suc n) (omega arith) h).0 e)),
  (λ e. elim e [ inl z ↦ absurd (omega arith) | inr p ↦ (power_pos (suc n) (omega arith) h).1 p ]),
)
