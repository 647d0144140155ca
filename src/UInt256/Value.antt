-- ===== src/UInt256/Value.antt =====
-- The number that a UInt256 stands for.
use assignments_for_csf.Base.{ℕ, ◌+◌, ◌*◌, ◌^◌, ◌<◌, arith}
use assignments_for_csf.UInt256.{UInt256, Words}

abbrev pub value_words : Words → ℕ
value_words d = d.w0 + 2 ^ 64 * d.w1 + 2 ^ 128 * d.w2 + 2 ^ 192 * d.w3

abbrev pub value : UInt256 → ℕ
value v = value_words v.words

-- Every word is in the range of a `uint64_t`.
pub record IsUInt256 (v : UInt256) : Type 0 where
  pub fits0 : v.words.w0 < 2 ^ 64
  pub fits1 : v.words.w1 < 2 ^ 64
  pub fits2 : v.words.w2 < 2 ^ 64
  pub fits3 : v.words.w3 < 2 ^ 64

pub value-lt : (v : UInt256) → IsUInt256 v → value v < 2 ^ 256
value-lt v h = omega arith
