-- ===== src/UInt256/Shift.antt =====
-- uint256_leftshift as multiplication by a power of two.
use native.Mathlib.Nat.{div-lt_iff_lt-mul, mod-mod, mod-lt}
use native.Mathlib.Decide.{dec_lt}
use assignments_for_csf.Base.{
  ℕ, ◌+◌, ◌-◌, ◌*◌, ◌%◌, ◌^◌, ◌≤◌, ◌<◌, ◌≡◌, refl, sym, ap, ◌∙◌, inl, inr, ◌⊎◌, arith, bit_and,
  le→ltb, lt→ltb, ==_no,
}
use assignments_for_csf.Base.Pow.{pow-add, pow-pos, mul_split, mul-mod-modulus}
use assignments_for_csf.Base.Bits.{bit_and-mask}
use assignments_for_csf.UInt256.{Words, UInt256, add64, not64, shl64, shr64, shift_words, leftshift}
use assignments_for_csf.UInt256.Value.{value, value_words, IsUInt256}

-- A word shifted by `s` bits: what stays, and what moves on to the next word.
pub record Parts (x s : ℕ) : Type 0 where
  pub split : shl64 x s + 2 ^ 64 * shr64 x (64 - s) ≡ x * 2 ^ s
  pub room : shl64 x s + 2 ^ s ≤ 2 ^ 64
  pub moved : shr64 x (64 - s) < 2 ^ s

shift_modulus : (s : ℕ) → s ≤ 64 → 2 ^ s * 2 ^ (64 - s) ≡ 2 ^ 64
shift_modulus s h =
    let e : s + (64 - s) ≡ 64 = omega arith in sym (pow-add s (64 - s)) ∙ ap (λ k. 2 ^ k) e

shl64-eq : (x s : ℕ) → s ≤ 64 → shl64 x s ≡ 2 ^ s * (x % 2 ^ (64 - s))
shl64-eq x s h =
    ap (λ m. x * 2 ^ s % m) (sym (shift_modulus s h))
    ∙ mul-mod-modulus (2 ^ s) (2 ^ (64 - s)) x (pow-pos s) (pow-pos (64 - s))

product_room : (p q r : ℕ) → r < q → p * r + p ≤ p * q
product_room p q r h = grind arith

shl64-Parts : (x s : ℕ) → s ≤ 64 → x < 2 ^ 64 → Parts x s
shl64-Parts x s h hx = record {
  split = omega (
    arith,
    rw (shift_modulus s h) at (mul_split (2 ^ s) (2 ^ (64 - s)) x (pow-pos s) (pow-pos (64 - s))),
  );
  room = omega (
    arith,
    shl64-eq x s h,
    shift_modulus s h,
    product_room (2 ^ s) (2 ^ (64 - s)) (x % 2 ^ (64 - s)) (mod-lt x (pow-pos (64 - s))),
  );
  moved = (div-lt_iff_lt-mul (pow-pos (64 - s))).1 (omega (arith, shift_modulus s h));
}

-- `& ~(~0UL << k)` keeps the low `k` bits.
keep_low : (x k : ℕ) → k ≤ 64 → bit_and x (not64 (shl64 (not64 0) k)) ≡ x % 2 ^ k
keep_low x k h =
    let mask : not64 (shl64 (not64 0) k) ≡ 2 ^ k - 1 =
      omega (arith, shl64-Parts 0 k h (omega arith), pow-pos k) in
    rw mask (bit_and-mask k x)

shl64-low : (x s : ℕ) → s ≤ 64 → shl64 (x % 2 ^ (64 - s)) s ≡ shl64 x s
shl64-low x s h =
    rw (shl64-eq (x % 2 ^ (64 - s)) s h, shl64-eq x s h, mod-mod x (2 ^ (64 - s))) refl

module _ (d : Words) (h : IsUInt256 (record { words = d })) (s : ℕ) where
  open d use {w0, w1, w2, w3}

  abbrev Shifts : Type 0
  Shifts = value_words (shift_words d s) ≡ value_words d * 2 ^ s % 2 ^ 256

  low_words :
      0 < s
      → s < 64
      → shift_words d s ≡ record {
        w0 = shl64 w0 s;
        w1 = add64 (shl64 w1 s) (shr64 w0 (64 - s));
        w2 = add64 (shl64 w2 s) (shr64 w1 (64 - s));
        w3 = add64 (shl64 w3 s) (shr64 w2 (64 - s));
      }
  unfolding shift_words
  low_words lo hi = simp (
    le→ltb 192 s (omega arith),
    ==_no s 192 (omega arith),
    le→ltb 128 s (omega arith),
    ==_no s 128 (omega arith),
    le→ltb 64 s (omega arith),
    ==_no s 64 (omega arith),
    lt→ltb 0 s lo,
  )

  shift_low : 0 < s → s < 64 → Shifts
  shift_low lo hi = rw (low_words lo hi) (
      omega (
        arith,
        shl64-Parts w0 s (omega arith) h.fits0,
        shl64-Parts w1 s (omega arith) h.fits1,
        shl64-Parts w2 s (omega arith) h.fits2,
        shl64-Parts w3 s (omega arith) h.fits3,
      ))

  mid_words :
      64 < s
      → s < 128
      → shift_words d s ≡ record {
        w0 = 0;
        w1 = shl64 w0 (s - 64);
        w2 = add64 (shl64 w1 (s - 64)) (shr64 w0 (64 - (s - 64)));
        w3 = add64 (shl64 w2 (s - 64)) (shr64 w1 (64 - (s - 64)));
      }
  unfolding shift_words
  mid_words lo hi = simp (
    le→ltb 192 s (omega arith),
    ==_no s 192 (omega arith),
    le→ltb 128 s (omega arith),
    ==_no s 128 (omega arith),
    lt→ltb 64 s lo,
  )

  high_words :
      128 < s
      → s < 192
      → shift_words d s ≡ record {
        w0 = 0;
        w1 = 0;
        w2 = shl64 w0 (s - 128);
        w3 = add64 (shl64 w1 (s - 128)) (shr64 w0 (64 - (s - 128)));
      }
  unfolding shift_words
  high_words lo hi =
      let ec : 64 - (256 - s - 64) ≡ s - 128 = omega arith in
      let eb : 256 - s - 64 ≡ 64 - (s - 128) = omega arith in
      simp (le→ltb 192 s (omega arith), ==_no s 192 (omega arith), lt→ltb 128 s lo, ec) (rw eb)

  top_words :
      192 < s
      → s < 256
      → shift_words d s
        ≡ record { w0 = 0; w1 = 0; w2 = 0; w3 = shl64 (w0 % 2 ^ (64 - (s - 192))) (s - 192) }
  unfolding shift_words
  top_words lo hi =
      let ek : 256 - s ≡ 64 - (s - 192) = omega arith in
      simp (lt→ltb 192 s lo, ek, keep_low w0 (64 - (s - 192)) (omega arith))

  factor : (k : ℕ) → k + (s - k) ≡ s → 2 ^ s ≡ 2 ^ k * 2 ^ (s - k)
  factor k e = sym (ap (λ j. 2 ^ j) e) ∙ pow-add k (s - k)

  shift_mid : 64 < s → s < 128 → Shifts
  shift_mid lo hi =
      rw (mid_words lo hi, factor 64 (omega arith))
        (omega (
          arith,
          shl64-Parts w0 (s - 64) (omega arith) h.fits0,
          shl64-Parts w1 (s - 64) (omega arith) h.fits1,
          shl64-Parts w2 (s - 64) (omega arith) h.fits2,
        ))

  shift_high : 128 < s → s < 192 → Shifts
  shift_high lo hi =
      rw (high_words lo hi, factor 128 (omega arith))
        (omega (
          arith,
          shl64-Parts w0 (s - 128) (omega arith) h.fits0,
          shl64-Parts w1 (s - 128) (omega arith) h.fits1,
        ))

  shift_top : 192 < s → s < 256 → Shifts
  shift_top lo hi =
      rw (top_words lo hi, factor 192 (omega arith))
        (omega (
          arith,
          shl64-Parts w0 (s - 192) (omega arith) h.fits0,
          shl64-low w0 (s - 192) (omega arith),
        ))

  -- Shifts by whole words.
  shift_whole : (s ≡ 0) ⊎ (s ≡ 64) ⊎ (s ≡ 128) ⊎ (s ≡ 192) → Shifts
  unfolding shift_words
  shift_whole (inl e) = rw e (omega arith)
  shift_whole (inr (inl e)) = rw e (omega arith)
  shift_whole (inr (inr (inl e))) = rw e (omega arith)
  shift_whole (inr (inr (inr e))) = rw e (omega arith)

  shift_below : s < 128 → Shifts
  shift_below hi = elim (dec_lt 64 s) [
    | yes p ↦ shift_mid p hi
    | no p ↦ elim (dec_lt 0 s) [
      | no q ↦ shift_whole (inl (omega arith))
      | yes q ↦ elim (dec_lt s 64) [
        | yes r ↦ shift_low q r
        | no r ↦ shift_whole (inr (inl (omega arith)))
      ]
    ]
  ]

  shift_above : 128 ≤ s → s < 256 → Shifts
  shift_above lo hi = elim (dec_lt 192 s) [
    | yes p ↦ shift_top p hi
    | no p ↦ elim (dec_lt 128 s) [
      | no q ↦ shift_whole (inr (inr (inl (omega arith))))
      | yes q ↦ elim (dec_lt s 192) [
        | yes r ↦ shift_high q r
        | no r ↦ shift_whole (inr (inr (inr (omega arith))))
      ]
    ]
  ]

-- On an integer with words in range, `uint256_leftshift` by less than 256 multiplies by the power of
-- two, modulo 2 ^ 256.
pub value-leftshift :
    (v : UInt256) (s : ℕ)
    → IsUInt256 v
    → s < 256
    → value (leftshift v s) ≡ value v * 2 ^ s % 2 ^ 256
unfolding leftshift
value-leftshift v s h hi = elim (dec_lt s 128) [
  | yes p ↦ shift_below v.words h s p
  | no p ↦ shift_above v.words h s (omega arith) hi
]

pub leftshift-IsUInt256 : (v : UInt256) (s : ℕ) → IsUInt256 v → IsUInt256 (leftshift v s)
unfolding leftshift shift_words
leftshift-IsUInt256 v s h = (record {
  fits0 = ground arith;
  fits1 = ground arith;
  fits2 = ground arith;
  fits3 = ground arith;
})
