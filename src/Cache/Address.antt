-- ===== src/Cache/Address.antt =====
-- The fields of an address: offset, set index and tag.
use native.Mathlib.Nat.{mod-lt, pow-suc, mod-eq_of_lt, div-lt_iff_lt-mul}
use assignments_for_csf.Base.{
  ℕ, zero, suc, ◌+◌, ◌-◌, ◌*◌, ◌/◌, ◌%◌, ◌^◌, ◌≤◌, ◌<◌, ◌≡◌, ap, ◌∙◌, sym, arith, ==_no,
}
use assignments_for_csf.Base.Pow.{pow-add, pow-pos, pow-lt}
use assignments_for_csf.Base.Bits.{bit_and-mask}
use assignments_for_csf.Cache.{
  Config, Cache, create, index_of, tag_of, not32, shl32, get_least_sig_n, get_low_sig, bit_loop,
  highest_bit_set,
}

-- The mask keeps the low bits; the shift is defined for up to 31 of them.
pub get_least_sig_n_lem : (num n : ℕ) → n < 32 → get_least_sig_n num n ≡ num % 2 ^ n
unfolding get_least_sig_n
get_least_sig_n_lem num n h =
    let p : 2 ^ n < 2 ^ 32 = pow-lt n 32 h in
    let mask : not32 (shl32 (not32 0) n) ≡ 2 ^ n - 1 = omega (arith, pow-pos n) in
    rw mask (bit_and-mask n num)

pub get_low_sig_lem : (num n m : ℕ) → m < 32 → get_low_sig num n m ≡ num / 2 ^ n % 2 ^ m
unfolding get_low_sig
get_low_sig_lem num n m h = get_least_sig_n_lem (num / 2 ^ n) m h

half-pow : (k : ℕ) → 2 ^ suc k / 2 ≡ 2 ^ k
half-pow k = omega (arith, pow-suc 2 k)

bit_loop-pow : (fuel k highest : ℕ) → k < fuel → bit_loop fuel (2 ^ k) highest ≡ highest + k
unfolding bit_loop
bit_loop-pow zero k highest h = absurd (omega arith)
bit_loop-pow (suc fuel) zero highest h = omega arith
bit_loop-pow (suc fuel) (suc k) highest h =
    rw (half-pow k, ==_no (2 ^ k) 0 (omega (arith, pow-pos k)))
      (bit_loop-pow fuel k (highest + 1) (omega arith) ∙ omega arith)

-- `highest_bit_set` finds the exponent of a power of two below 2 ^ 32.
highest_bit_set-pow : (k : ℕ) → k < 32 → highest_bit_set (2 ^ k) ≡ k
unfolding highest_bit_set
highest_bit_set-pow k h = bit_loop-pow 32 k 0 h ∙ omega arith

-- What main's checks leave to be valid: powers of two that fit an address together, and at least
-- one block in a set.
pub record IsValid (config : Config) : Type 0 where
  pub index_bits : ℕ
  pub offset_bits : ℕ
  pub sets : config.set_num ≡ 2 ^ index_bits
  pub bytes : config.byte_num ≡ 2 ^ offset_bits
  pub room : index_bits + offset_bits < 32
  pub wide : 4 ≤ config.byte_num
  pub blocks : 1 ≤ config.block_num

offset_pos : (o b : ℕ) → b ≡ 2 ^ o → 4 ≤ b → 1 ≤ o
offset_pos zero b e h = absurd (omega arith)
offset_pos (suc o) b e h = omega arith

-- The lengths of the fields that the constructor computes.
pub record HasLengths (config : Config) (v : IsValid config) (c : Cache) : Type 0 where
  pub index_is : c.index_len ≡ v.index_bits
  pub offset_is : c.offset_len ≡ v.offset_bits
  pub tag_is : c.tag_len ≡ 32 - v.index_bits - v.offset_bits

pub create-HasLengths : (config : Config) (v : IsValid config) → HasLengths config v (create config)
unfolding create
create-HasLengths config v =
    let i : highest_bit_set config.set_num ≡ v.index_bits =
      ap highest_bit_set v.sets ∙ highest_bit_set-pow v.index_bits (omega (arith, v.room)) in
    let o : highest_bit_set config.byte_num ≡ v.offset_bits =
      ap highest_bit_set v.bytes ∙ highest_bit_set-pow v.offset_bits (omega (arith, v.room)) in
    record { index_is = i; offset_is = o; tag_is = omega arith }

module _ (config : Config) (v : IsValid config) (c : Cache) (h : HasLengths config v c) where
  pub index_of-eq : (address : ℕ) → index_of c address ≡ address / config.byte_num % config.set_num
  unfolding index_of
  index_of-eq address =
      rw (h.index_is, h.offset_is, v.sets, v.bytes)
        (get_low_sig_lem address v.offset_bits v.index_bits (omega (arith, v.room)))

  -- With the lengths of a valid configuration, the index of an address is below the number of sets.
  pub index_of-lt : (address : ℕ) → index_of c address < config.set_num
  index_of-lt address =
      rw (index_of-eq address)
        (mod-lt (address / config.byte_num) (rw v.sets (pow-pos v.index_bits)))

  -- With the lengths of a valid configuration, the tag of an address of 32 bits is the address
  -- divided by the bytes of all sets together.
  pub tag_of-eq :
      (address : ℕ)
      → address < 2 ^ 32
      → tag_of c address ≡ address / (config.set_num * config.byte_num)
  unfolding tag_of
  tag_of-eq address small =
      let n = v.index_bits + v.offset_bits in
      let low : 1 ≤ v.offset_bits = offset_pos v.offset_bits config.byte_num v.bytes v.wide in
      let width : 32 - v.index_bits - v.offset_bits ≡ 32 - n = omega arith in
      let all : n + (32 - n) ≡ 32 = omega (arith, v.room) in
      let whole : 2 ^ n * 2 ^ (32 - n) ≡ 2 ^ 32 = sym (pow-add n (32 - n)) ∙ ap (λ k. 2 ^ k) all in
      let top : address / 2 ^ n < 2 ^ (32 - n) =
        (div-lt_iff_lt-mul (pow-pos n)).1 (omega (arith, whole)) in
      rw
        (
          h.index_is,
          h.offset_is,
          h.tag_is,
          v.sets,
          v.bytes,
          ← pow-add v.index_bits v.offset_bits,
          width,
        )
        (get_low_sig_lem address n (32 - n) (omega arith) ∙ mod-eq_of_lt top)
