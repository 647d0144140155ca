-- ===== src/UInt256/Mul.antt =====
-- uint256_bit_is_set and uint256_mul: shift-and-add multiplication.
use native.Mathlib.Decide.{ℕ_discrete}
use native.Mathlib.Nat.{
  div-div-eq-div-mul, mul-zero, zero-mul, mod-one, div-one, add-mul-div_right, pow-suc,
  mod-eq_of_lt,
}
use assignments_for_csf.Base.{
  ℕ, zero, suc, ◌+◌, ◌-◌, ◌*◌, ◌/◌, ◌%◌, ◌^◌, ◌≤◌, ◌<◌, ◌≡◌, sym, ap, ◌∙◌, inl, inr, ◌⊎◌, arith,
  ◌==◌, Bool-cases, ==_no, if◌then◌else◌,
}
use assignments_for_csf.Base.Pow.{pow-add, pow-pos, pow-lt}
use assignments_for_csf.Base.Bits.{bit_and-pow, mod-half}
use assignments_for_csf.UInt256.{
  UInt256, zeros, shl64, add, leftshift, word_bit, bit_is_set, mul_bits, mul,
}
use assignments_for_csf.UInt256.Value.{value, value-lt, IsUInt256}
use assignments_for_csf.UInt256.Add.{LosesCarry, add_exact, add-IsUInt256}
use assignments_for_csf.UInt256.Shift.{value-leftshift, leftshift-IsUInt256}

digit-cases : (x : ℕ) → (x % 2 ≡ 0) ⊎ (x % 2 ≡ 1)
digit-cases x = omega arith

-- The bit that is tested, as a digit of the word.
word_bit_lem : (word index : ℕ) → word_bit word index ≡ word / 2 ^ (index % 64) % 2
unfolding word_bit
word_bit_lem word index =
    let p : 2 ^ (index % 64) < 2 ^ 64 = pow-lt (index % 64) 64 (omega arith) in
    let one : shl64 1 (index % 64) ≡ 2 ^ (index % 64) = omega arith in
    elim (digit-cases (word / 2 ^ (index % 64))) [
      | inl e ↦ rw (one, bit_and-pow (index % 64) word, e) (simp mul-zero)
      | inr e ↦ rw (
        one,
        bit_and-pow (index % 64) word,
        e,
        ==_no (2 ^ (index % 64) * 1) 0 (omega (arith, pow-pos (index % 64))),
      )
    ]

-- Higher words do not reach a bit of a word.
low_digit : (x y r : ℕ) → r < 64 → (x + 2 ^ 64 * y) / 2 ^ r % 2 ≡ x / 2 ^ r % 2
low_digit x y r h =
    let e : (63 - r) + suc r ≡ 64 = omega arith in
    let top : 2 ^ 64 ≡ 2 ^ (63 - r) * (2 ^ r * 2) =
      sym (ap (λ k. 2 ^ k) e)
      ∙ pow-add (63 - r) (suc r)
      ∙ ap (λ k. 2 ^ (63 - r) * k) (pow-suc 2 r) in
    let even : x + 2 ^ 64 * y ≡ x + (2 * (2 ^ (63 - r) * y)) * 2 ^ r =
      omega (arith, ap (λ k. k * y) top) in
    rw (even, add-mul-div_right x (2 * (2 ^ (63 - r) * y)) (pow-pos r)) (omega arith)

div-word : (x k i : ℕ) → k * 64 ≤ i → x / 2 ^ i ≡ x / 2 ^ (k * 64) / 2 ^ (i - k * 64)
div-word x k i h =
    let e : k * 64 + (i - k * 64) ≡ i = omega arith in
    ap (λ j. x / 2 ^ j) (sym e)
    ∙ ap (λ m. x / m) (pow-add (k * 64) (i - k * 64))
    ∙ sym (div-div-eq-div-mul x (2 ^ (k * 64)) (2 ^ (i - k * 64)))

-- A bit of word `x`, which stands at place `k` of the number `n`, is a bit of `n`.
word_digit :
    (n x y k i : ℕ) → n / 2 ^ (k * 64) ≡ x + 2 ^ 64 * y → i / 64 ≡ k → word_bit x i ≡ n / 2 ^ i % 2
word_digit n x y k i e at_k =
    let place : i - k * 64 ≡ i % 64 = omega arith in
    rw (word_bit_lem x i, div-word n k i (omega arith), e, place)
      (sym (low_digit x y (i % 64) (omega arith)))

-- For an integer with words in range and an index below 256, `uint256_bit_is_set` reads the binary
-- digit of the value.
bit_is_set_lem :
    (v : UInt256) (i : ℕ) → IsUInt256 v → i < 256 → bit_is_set v i ≡ value v / 2 ^ i % 2
unfolding bit_is_set
bit_is_set_lem v i h hi = elim (ℕ_discrete (i / 64) 0) [
  | yes e ↦ rw e (word_digit (value v) w0 (w1 + 2 ^ 64 * w2 + 2 ^ 128 * w3) 0 i (omega arith) e)
  | no n0 ↦ elim (ℕ_discrete (i / 64) 1) [
    | yes e ↦ rw e (word_digit (value v) w1 (w2 + 2 ^ 64 * w3) 1 i (omega arith) e)
    | no n1 ↦ elim (ℕ_discrete (i / 64) 2) [
      | yes e ↦ rw e (word_digit (value v) w2 w3 2 i (omega arith) e)
      | no n2 ↦
          let e : i / 64 ≡ 3 = omega arith in rw e (word_digit (value v) w3 0 3 i (omega arith) e)
    ]
  ]
]
  where
    open v.words use {w0, w1, w2, w3}

-- The lowest of the bits that are left, and the others.
low_bit :
    (l r rounds i : ℕ)
    → l / 2 ^ i % 2 ^ suc rounds * (2 ^ i * r)
      ≡ l / 2 ^ i % 2 * (2 ^ i * r) + l / 2 ^ (i + 1) % 2 ^ rounds * (2 ^ (i + 1) * r)
low_bit l r rounds i =
    let next : i + 1 ≡ suc i = omega arith in
    let halved : l / 2 ^ suc i ≡ l / 2 ^ i / 2 =
      ap (λ m. l / m) (pow-suc 2 i) ∙ sym (div-div-eq-div-mul l (2 ^ i) 2) in
    rw (next, halved, mod-half (l / 2 ^ i) rounds, pow-suc 2 i) (omega arith)

-- One round of the loop of `uint256_mul`.
abbrev round : ℕ → UInt256 → UInt256 → UInt256 → UInt256
round i left right product =
    if bit_is_set left i == 0 then product else add product (leftshift right i)

-- No addition that the loop makes from bit `i` on loses a carry.
pub AddsExactly : ℕ → ℕ → UInt256 → UInt256 → UInt256 → Type 0
AddsExactly zero i left right product = Unit
AddsExactly (suc rounds) i left right product =
    (bit_is_set left i ≡ 1 → ¬ LosesCarry product (leftshift right i))
    × AddsExactly rounds (i + 1) left right
        (if bit_is_set left i == 0 then product else add product (leftshift right i))

module _ (left right : UInt256) (hl : IsUInt256 left) (hr : IsUInt256 right) where
  round-IsUInt256 : (i : ℕ) (p : UInt256) → IsUInt256 p → IsUInt256 (round i left right p)
  round-IsUInt256 i p hp = elim (Bool-cases (bit_is_set left i == 0)) [
    | inl e ↦ rw e hp
    | inr e ↦ rw e (add-IsUInt256 p (leftshift right i) hp (leftshift-IsUInt256 right i hr))
  ]

  value-round :
      (i : ℕ) (p : UInt256)
      → IsUInt256 p
      → i < 256
      → (bit_is_set left i ≡ 1 → ¬ LosesCarry p (leftshift right i))
      → value (round i left right p)
        ≡ (value p + value left / 2 ^ i % 2 * (2 ^ i * value right)) % 2 ^ 256
  value-round i p hp hi safe = elim (digit-cases (value left / 2 ^ i)) [
    | inl e ↦ rw (bit_is_set_lem left i hl hi, e) (omega (arith, value-lt p hp))
    | inr e ↦
        rw (bit_is_set_lem left i hl hi, e)
          (omega (
            arith,
            add_exact p (leftshift right i) hp (leftshift-IsUInt256 right i hr)
                (safe (bit_is_set_lem left i hl hi ∙ e)),
            value-leftshift right i hr hi,
          ))
  ]

  abbrev rest : ℕ → ℕ → ℕ
  rest rounds i = value left / 2 ^ i % 2 ^ rounds * (2 ^ i * value right)

  rest-suc :
      (rounds i : ℕ)
      → rest (suc rounds) i ≡ value left / 2 ^ i % 2 * (2 ^ i * value right) + rest rounds (i + 1)
  rest-suc rounds i = low_bit (value left) (value right) rounds i

  value-mul_bits :
      (rounds i : ℕ) (p : UInt256)
      → IsUInt256 p
      → i + rounds ≤ 256
      → AddsExactly rounds i left right p
      → value (mul_bits rounds i left right p) ≡ (value p + rest rounds i) % 2 ^ 256
  unfolding mul_bits AddsExactly
  value-mul_bits zero i p hp hi safe =
      rw (mod-one (value left / 2 ^ i))
        (omega (arith, value-lt p hp, zero-mul (2 ^ i * value right)))
  value-mul_bits (suc rounds) i p hp hi safe = omega (
    arith,
    value-mul_bits rounds (i + 1) (round i left right p) (round-IsUInt256 i p hp) (omega arith)
        safe.1,
    value-round i p hp (omega arith) safe.0,
    rest-suc rounds i,
  )

-- At the start all bits are left.
whole :
    (a b : UInt256)
    → IsUInt256 a
    → IsUInt256 b
    → 0 + value a / 2 ^ 0 % 2 ^ 256 * (2 ^ 0 * value b) ≡ value a * value b
whole a b ha hb = rw (div-one (value a), mod-eq_of_lt (value-lt a ha)) (omega arith)

zeros-IsUInt256 : IsUInt256 (record { words = zeros })
zeros-IsUInt256 = omega arith

-- `uint256_mul` gives the product modulo 2 ^ 256 if none of its additions loses a carry.
pub mul_exact :
    (a b : UInt256)
    → IsUInt256 a
    → IsUInt256 b
    → AddsExactly 256 0 a b (record { words = zeros })
    → value (mul a b) ≡ value a * value b % 2 ^ 256
unfolding mul
mul_exact a b ha hb safe =
    value-mul_bits a b ha hb 256 0 (record { words = zeros }) zeros-IsUInt256 (omega arith) safe
    ∙ ap (λ t. t % 2 ^ 256) (whole a b ha hb)

small-not-LosesCarry : (a b : UInt256) → value a + value b < 2 ^ 128 → ¬ LosesCarry a b
small-not-LosesCarry a b h (inl l) = omega arith
small-not-LosesCarry a b h (inr l) = omega arith

module _ (a b : UInt256) (ha : IsUInt256 a) (hb : IsUInt256 b) where
  small-AddsExactly :
      (rounds i : ℕ) (p : UInt256)
      → IsUInt256 p
      → i + rounds ≤ 256
      → value p + rest a b ha hb rounds i < 2 ^ 128
      → AddsExactly rounds i a b p
  unfolding AddsExactly
  small-AddsExactly zero i p hp hi small = tt
  small-AddsExactly (suc rounds) i p hp hi small =
      let sum = rest-suc a b ha hb rounds i in
      let safe : bit_is_set a i ≡ 1 → ¬ LosesCarry p (leftshift b i) =
        λ set. small-not-LosesCarry p (leftshift b i) (bounded set sum) in
      (
        safe,
        small-AddsExactly rounds (i + 1) (round i a b p) (round-IsUInt256 a b ha hb i p hp)
            (omega arith) (omega (arith, value-round a b ha hb i p hp (omega arith) safe, sum)),
      )
    where
      bounded :
          bit_is_set a i ≡ 1
          → rest a b ha hb (suc rounds) i
            ≡ value a / 2 ^ i % 2 * (2 ^ i * value b) + rest a b ha hb rounds (i + 1)
          → value p + value (leftshift b i) < 2 ^ 128
      bounded set sum =
          let one : value a / 2 ^ i % 2 ≡ 1 = sym (bit_is_set_lem a i ha (omega arith)) ∙ set in
          omega
            (arith, value-leftshift b i hb (omega arith), sum, ap (λ d. d * (2 ^ i * value b)) one)

-- On integers with words in range, `uint256_mul` is exact where the product fits 128 bits.
pub mul_small :
    (a b : UInt256)
    → IsUInt256 a
    → IsUInt256 b
    → value a * value b < 2 ^ 128
    → value (mul a b) ≡ value a * value b
mul_small a b ha hb small =
    mul_exact a b ha hb (
      small-AddsExactly a b ha hb 256 0 (record { words = zeros }) zeros-IsUInt256 (omega arith)
        (rw (whole a b ha hb) small))
    ∙ mod-eq_of_lt (omega arith)
