-- ===== src/UInt256.antt =====
-- csf_assign01/uint256.h and uint256.c: 256-bit unsigned integers as four 64-bit words, the
-- least significant first. A word is a number below 2 ^ 64, and each C operation on words keeps
-- its wrap. The children hold the hexadecimal conversions and the proofs.
pub mod Value
pub mod Add
pub mod Shift
pub mod Mul
pub mod Hex
mod Tests
use assignments_for_csf.Base.{
  ℕ, zero, suc, ◌+◌, ◌-◌, ◌*◌, ◌/◌, ◌%◌, ◌^◌, bit_and, ◌||◌, Option, none, some, ltb, ◌==◌,
  if◌then◌else◌,
}

-- A C array `uint64_t[4]`.
pub record Words : Type 0 where
  pub w0 : ℕ
  pub w1 : ℕ
  pub w2 : ℕ
  pub w3 : ℕ

-- `d[i]`; no loop below reads past index 3.
abbrev pub at : Words → ℕ → ℕ
at d zero = d.w0
at d (suc zero) = d.w1
at d (suc (suc zero)) = d.w2
at d (suc (suc (suc i))) = d.w3

abbrev pub put : Words → ℕ → ℕ → Words
put d zero x = record d { w0 = x }
put d (suc zero) x = record d { w1 = x }
put d (suc (suc zero)) x = record d { w2 = x }
put d (suc (suc (suc i))) x = record d { w3 = x }

pub record UInt256 : Type 0 where
  pub words : Words

-- The words of a local that is not initialised; all four are written before one is read.
abbrev pub zeros : Words
zeros = record { w0 = 0; w1 = 0; w2 = 0; w3 = 0 }

-- Operations on `uint64_t`. The shifts are C's for counts below 64.
abbrev pub add64 : ℕ → ℕ → ℕ
add64 x y = (x + y) % 2 ^ 64

abbrev pub not64 : ℕ → ℕ
not64 x = 2 ^ 64 - 1 - x

abbrev pub shl64 : ℕ → ℕ → ℕ
shl64 x k = x * 2 ^ k % 2 ^ 64

abbrev pub shr64 : ℕ → ℕ → ℕ
shr64 x k = x / 2 ^ k

unfoldable pub create_from_u64 : ℕ → UInt256
create_from_u64 val = record { words = record { w0 = val; w1 = 0; w2 = 0; w3 = 0 } }

copy_words : ℕ → ℕ → Words → Words → Words
copy_words zero i d result = result
copy_words (suc rounds) i d result = copy_words rounds (i + 1) d (put result i (at d i))

unfoldable pub create : Words → UInt256
unfolding copy_words
create d = record { words = copy_words 4 0 d zeros }

-- `none` is a read past the array.
unfoldable pub get_bits : UInt256 → ℕ → Option ℕ
get_bits val index = if ltb index 4 then some (at val.words index) else none

-- The carry that the loop of `uint256_add` takes to the next word.
pub next_carry : ℕ → ℕ → ℕ → ℕ
next_carry temp left right = if ltb temp left || ltb temp right then 1 else 0

pub add_words : ℕ → ℕ → ℕ → Words → Words → Words → Words
add_words zero i carry left right sum = sum
add_words (suc rounds) i carry left right sum =
    let temp = add64 (add64 (at left i) (at right i)) carry in
    add_words rounds (i + 1) (next_carry temp (at left i) (at right i)) left right (put sum i temp)

unfoldable pub add : UInt256 → UInt256 → UInt256
unfolding add_words
add left right = record { words = add_words 4 0 0 left.words right.words zeros }

not_words : ℕ → ℕ → Words → Words → Words
not_words zero i right tem = tem
not_words (suc rounds) i right tem = not_words rounds (i + 1) right (put tem i (not64 (at right i)))

-- The two's complement that `uint256_sub` adds.
pub negate : UInt256 → UInt256
unfolding not_words create_from_u64
negate right =
    let tem : UInt256 = record { words = not_words 4 0 right.words zeros } in
    add tem (create_from_u64 1)

unfoldable pub sub : UInt256 → UInt256 → UInt256
unfolding negate
sub left right = add left (negate right)

-- The words after the branch of `uint256_leftshift` that `shift` selects.
pub shift_words : Words → ℕ → Words
shift_words d shift =
    if ltb 192 shift
    then record {
      w0 = 0;
      w1 = 0;
      w2 = 0;
      w3 = shl64 (bit_and d.w0 (not64 (shl64 (not64 0) (256 - shift)))) (shift - 192);
    }
    else if shift == 192
    then record { w0 = 0; w1 = 0; w2 = 0; w3 = d.w0 }
    else if ltb 128 shift
    then (let a = 256 - shift in
        let b = a - 64 in
        let c = 64 - b in
        record { w0 = 0; w1 = 0; w2 = shl64 d.w0 c; w3 = add64 (shl64 d.w1 c) (shr64 d.w0 b) })
    else if shift == 128
    then record { w0 = 0; w1 = 0; w2 = d.w0; w3 = d.w1 }
    else if ltb 64 shift
    then (let comp1 = shift - 64 in
        let comp2 = 64 - comp1 in
        record {
          w0 = 0;
          w1 = shl64 d.w0 comp1;
          w2 = add64 (shl64 d.w1 comp1) (shr64 d.w0 comp2);
          w3 = add64 (shl64 d.w2 comp1) (shr64 d.w1 comp2);
        })
    else if shift == 64
    then record { w0 = 0; w1 = d.w0; w2 = d.w1; w3 = d.w2 }
    else if ltb 0 shift
    then (let comp = 64 - shift in
        record {
          w0 = shl64 d.w0 shift;
          w1 = add64 (shl64 d.w1 shift) (shr64 d.w0 comp);
          w2 = add64 (shl64 d.w2 shift) (shr64 d.w1 comp);
          w3 = add64 (shl64 d.w3 shift) (shr64 d.w2 comp);
        })
    else d

-- For shifts below 256; a larger one makes C shift a word by its width or more.
unfoldable pub leftshift : UInt256 → ℕ → UInt256
unfolding create shift_words
leftshift val shift = create (shift_words val.words shift)

-- `word & (1UL << (index % 64))`, as the 1 or 0 that is returned for it.
pub word_bit : ℕ → ℕ → ℕ
word_bit word index = if bit_and word (shl64 1 (index % 64)) == 0 then 0 else 1

unfoldable pub bit_is_set : UInt256 → ℕ → ℕ
unfolding word_bit
bit_is_set val index =
    if index / 64 == 0
    then word_bit val.words.w0 index
    else if index / 64 == 1
    then word_bit val.words.w1 index
    else if index / 64 == 2
    then word_bit val.words.w2 index
    else if index / 64 == 3
    then word_bit val.words.w3 index
    else 0

-- The loop of `uint256_mul` from bit `i` on.
pub mul_bits : ℕ → ℕ → UInt256 → UInt256 → UInt256 → UInt256
mul_bits zero i left right product = product
mul_bits (suc rounds) i left right product =
    mul_bits rounds (i + 1) left right
      (if bit_is_set left i == 0 then product else add product (leftshift right i))

unfoldable pub mul : UInt256 → UInt256 → UInt256
mul left right = mul_bits 256 0 left right (record { words = zeros })
