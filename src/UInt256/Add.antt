-- ===== src/UInt256/Add.antt =====
-- uint256_add and uint256_sub as arithmetic.
use assignments_for_csf.Base.{
  ℕ, ◌+◌, ◌-◌, ◌*◌, ◌%◌, ◌^◌, ◌≤◌, ◌<◌, ◌≡◌, refl, sym, ◌∙◌, ◌↔◌, ◌⊎◌, inl, inr, arith,
}
use assignments_for_csf.UInt256.{
  UInt256, add64, next_carry, not64, add, negate, sub, create_from_u64,
}
use assignments_for_csf.UInt256.Value.{value, IsUInt256}

abbrev max_word : ℕ
max_word = 2 ^ 64 - 1

-- The carry into a word is lost where both words are all ones.
abbrev Stalls : ℕ → ℕ → ℕ → Type 0
Stalls left right carry = (left ≡ max_word) × (right ≡ max_word) × (carry ≡ 1)

abbrev temp_of : ℕ → ℕ → ℕ → ℕ
temp_of left right carry = add64 (add64 left right) carry

next_carry-le : (temp left right : ℕ) → next_carry temp left right ≤ 1
unfolding next_carry
next_carry-le temp left right = ground arith

-- One round of the loop: the word and the carry make up the sum, but for a stall.
add_round :
    (left right carry : ℕ)
    → left < 2 ^ 64
    → right < 2 ^ 64
    → carry ≤ 1
    → let temp = temp_of left right carry in
      (temp + 2 ^ 64 * next_carry temp left right ≡ left + right + carry)
      ⊎ (Stalls left right carry × (temp ≡ max_word) × (next_carry temp left right ≡ 0))
unfolding next_carry
add_round left right carry hl hr hc = ground arith

stalled_round :
    (left right carry : ℕ)
    → Stalls left right carry
    → next_carry (temp_of left right carry) left right ≡ 0
unfolding next_carry
stalled_round left right carry h = ground arith

-- The words and carries of the four rounds, named.
abbrev carry_after : ℕ → ℕ → ℕ → ℕ
carry_after left right carry = next_carry (temp_of left right carry) left right

abbrev carry1 : UInt256 → UInt256 → ℕ
carry1 a b = carry_after a.words.w0 b.words.w0 0

abbrev carry2 : UInt256 → UInt256 → ℕ
carry2 a b = carry_after a.words.w1 b.words.w1 (carry1 a b)

abbrev carry3 : UInt256 → UInt256 → ℕ
carry3 a b = carry_after a.words.w2 b.words.w2 (carry2 a b)

add_as_rounds :
    (a b : UInt256)
    → (add a b).words ≡ record {
      w0 = temp_of a.words.w0 b.words.w0 0;
      w1 = temp_of a.words.w1 b.words.w1 (carry1 a b);
      w2 = temp_of a.words.w2 b.words.w2 (carry2 a b);
      w3 = temp_of a.words.w3 b.words.w3 (carry3 a b);
    }
unfolding add
add_as_rounds a b = refl

-- A carry arrives at a word where both numbers are all ones, and is not passed on. (Where the top
-- word loses one, nothing of the result changes.)
abbrev pub LosesCarry : UInt256 → UInt256 → Type 0
LosesCarry a b =
    ((a.words.w1 ≡ 2 ^ 64 - 1) × (b.words.w1 ≡ 2 ^ 64 - 1) × (2 ^ 64 ≤ a.words.w0 + b.words.w0))
    ⊎ ((a.words.w2 ≡ 2 ^ 64 - 1)
        × (b.words.w2 ≡ 2 ^ 64 - 1)
        × (2 ^ 128 ≤ a.words.w0 + b.words.w0 + 2 ^ 64 * (a.words.w1 + b.words.w1)))

module _ (a b : UInt256) (ha : IsUInt256 a) (hb : IsUInt256 b) where
  open a.words use {w0 as a0, w1 as a1, w2 as a2, w3 as a3}
  open b.words use {w0 as b0, w1 as b1, w2 as b2, w3 as b3}

  pub add-IsUInt256 : IsUInt256 (add a b)
  add-IsUInt256 = rw (add_as_rounds a b) (record {
    fits0 = omega arith;
    fits1 = omega arith;
    fits2 = omega arith;
    fits3 = omega arith;
  })

  -- What each round says, for the linear facts that follow.
  abbrev Round : ℕ → ℕ → ℕ → Type 0
  Round left right carry =
      (carry_after left right carry ≤ 1)
      × ((temp_of left right carry + 2 ^ 64 * carry_after left right carry ≡ left + right + carry)
          ⊎ (Stalls left right carry
              × (temp_of left right carry ≡ max_word)
              × (carry_after left right carry ≡ 0)))

  rounds :
      Round a0 b0 0 × Round a1 b1 (carry1 a b) × Round a2 b2 (carry2 a b) × Round a3 b3 (carry3 a b)
  rounds = (
    (next_carry-le _ _ _, add_round a0 b0 0 ha.fits0 hb.fits0 (omega arith)),
    (next_carry-le _ _ _, add_round a1 b1 (carry1 a b) ha.fits1 hb.fits1 (next_carry-le _ _ _)),
    (next_carry-le _ _ _, add_round a2 b2 (carry2 a b) ha.fits2 hb.fits2 (next_carry-le _ _ _)),
    (next_carry-le _ _ _, add_round a3 b3 (carry3 a b) ha.fits3 hb.fits3 (next_carry-le _ _ _)),
  )

  pub add_exact : ¬ LosesCarry a b → value (add a b) ≡ (value a + value b) % 2 ^ 256
  add_exact h = rw (add_as_rounds a b) (ground (arith, rounds))

  pub add_wrong : LosesCarry a b → ¬ (value (add a b) ≡ (value a + value b) % 2 ^ 256)
  add_wrong h =
      rw (add_as_rounds a b)
        (ground (arith, rounds, stalled_round a1 b1 (carry1 a b), stalled_round a2 b2 (carry2 a b)))

-- On integers with words in range, `uint256_add` gives the sum modulo 2 ^ 256 exactly when no carry is lost.
pub add_exact_iff :
    (a b : UInt256)
    → IsUInt256 a
    → IsUInt256 b
    → (value (add a b) ≡ (value a + value b) % 2 ^ 256) ↔ ¬ LosesCarry a b
add_exact_iff a b ha hb = (λ e l. add_wrong a b ha hb l e, add_exact a b ha hb)

-- `~right`, as a number with words in range.
abbrev flipped : UInt256 → UInt256
flipped b = record {
  words = record {
    w0 = not64 b.words.w0;
    w1 = not64 b.words.w1;
    w2 = not64 b.words.w2;
    w3 = not64 b.words.w3;
  };
}

flipped-IsUInt256 : (b : UInt256) → IsUInt256 (flipped b)
flipped-IsUInt256 b = omega arith

one-IsUInt256 : IsUInt256 (create_from_u64 1)
unfolding create_from_u64
one-IsUInt256 = omega arith

negate_as_add : (b : UInt256) → negate b ≡ add (flipped b) (create_from_u64 1)
unfolding negate
negate_as_add b = refl

-- The one has no other bit, so no word is all ones in both numbers.
not-LosesCarry-one : (b : UInt256) → ¬ LosesCarry b (create_from_u64 1)
unfolding create_from_u64
not-LosesCarry-one b (inl h) = omega arith
not-LosesCarry-one b (inr h) = omega arith

pub negate-IsUInt256 : (b : UInt256) → IsUInt256 (negate b)
negate-IsUInt256 b =
    rw (negate_as_add b)
      (add-IsUInt256 (flipped b) (create_from_u64 1) (flipped-IsUInt256 b) one-IsUInt256)

-- For an integer with words in range, `~right + 1` is its two's complement.
value-negate : (b : UInt256) → IsUInt256 b → value (negate b) ≡ (2 ^ 256 - value b) % 2 ^ 256
value-negate b hb = rw (negate_as_add b) (sum ∙ complement)
  where
    sum :
        value (add (flipped b) (create_from_u64 1))
        ≡ (value (flipped b) + value (create_from_u64 1)) % 2 ^ 256
    sum =
        add_exact (flipped b) (create_from_u64 1) (flipped-IsUInt256 b) one-IsUInt256
          (not-LosesCarry-one (flipped b))

    complement :
        (value (flipped b) + value (create_from_u64 1)) % 2 ^ 256 ≡ (2 ^ 256 - value b) % 2 ^ 256
    complement = unfold create_from_u64 in omega arith

-- No borrow leaves a low part of the subtrahend that is not 0, and the next word is all ones in
-- the minuend and 0 in the subtrahend.
abbrev pub LosesBorrow : UInt256 → UInt256 → Type 0
LosesBorrow a b =
    ((a.words.w1 ≡ 2 ^ 64 - 1) × (b.words.w1 ≡ 0) × (0 < b.words.w0) × (b.words.w0 ≤ a.words.w0))
    ⊎ ((a.words.w2 ≡ 2 ^ 64 - 1)
        × (b.words.w2 ≡ 0)
        × (0 < b.words.w0 + 2 ^ 64 * b.words.w1)
        × (b.words.w0 + 2 ^ 64 * b.words.w1 ≤ a.words.w0 + 2 ^ 64 * a.words.w1))

module _ (a b : UInt256) (ha : IsUInt256 a) (hb : IsUInt256 b) where
  LosesBorrow→LosesCarry : LosesBorrow a b → LosesCarry a (negate b)
  LosesBorrow→LosesCarry h = ground (arith, value-negate b hb, negate-IsUInt256 b)

  LosesCarry→LosesBorrow : LosesCarry a (negate b) → LosesBorrow a b
  LosesCarry→LosesBorrow h = ground (arith, value-negate b hb, negate-IsUInt256 b)

  difference : (value a + value (negate b)) % 2 ^ 256 ≡ (value a + 2 ^ 256 - value b) % 2 ^ 256
  difference = omega (arith, value-negate b hb)

-- On integers with words in range, `uint256_sub` gives the difference modulo 2 ^ 256 exactly when no borrow is lost (`LosesBorrow`).
pub sub_exact_iff :
    (a b : UInt256)
    → IsUInt256 a
    → IsUInt256 b
    → (value (sub a b) ≡ (value a + 2 ^ 256 - value b) % 2 ^ 256) ↔ ¬ LosesBorrow a b
unfolding sub
sub_exact_iff a b ha hb = rw (sym (difference a b ha hb)) (
  (λ e l.
      (add_exact_iff a (negate b) ha (negate-IsUInt256 b)).0 e
        (LosesBorrow→LosesCarry a b ha hb l)),
  (λ h.
      (add_exact_iff a (negate b) ha (negate-IsUInt256 b)).1
        (λ l. h (LosesCarry→LosesBorrow a b ha hb l))),
)
