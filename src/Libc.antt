-- ===== src/Libc.antt =====
-- The parts of the C library that the programs call: strtoul, and the hexadecimal conversions of
-- sprintf. A string is the list of its bytes, without the final NUL.
pub mod Digits
use assignments_for_csf.Base.{
  ℕ, zero, suc, ◌+◌, ◌-◌, ◌*◌, ◌/◌, ◌%◌, ◌^◌, Bool, true, false, not, ◌≡◌, ◌<◌, arith, ◌&&◌, ◌||◌,
  List, [], ◌∷◌, Option, none, some, ltb, leb, ◌==◌, if◌then◌else◌,
}

-- `isspace` in the C locale.
unfoldable pub isspace : ℕ → Bool
isspace c = c == 32 || (leb 9 c && leb c 13)

unfoldable pub skip_spaces : List ℕ → List ℕ
skip_spaces [] = []
skip_spaces (c ∷ s) = let rest = skip_spaces s in if isspace c then rest else c ∷ s

-- The value of a digit in bases up to 36; 36 for a byte that is no digit.
unfoldable pub digit_value : ℕ → ℕ
digit_value c =
    if leb b'0' c && leb c b'9'
    then c - b'0'
    else if leb b'a' c && leb c b'z'
    then c - b'a' + 10
    else if leb b'A' c && leb c b'Z'
    then c - b'A' + 10
    else 36

unfoldable pub is_digit : ℕ → ℕ → Bool
is_digit base c = ltb (digit_value c) base

-- The number that the digits at the front stand for, unbounded, and what follows them.
unfoldable pub read_digits : ℕ → ℕ → List ℕ → ℕ × List ℕ
read_digits base acc [] = (acc, [])
read_digits base acc (c ∷ s) =
    let more = read_digits base (acc * base + digit_value c) s in
    if is_digit base c then more else (acc, c ∷ s)

-- A minus sign, and the text behind either sign.
unfoldable pub read_sign : List ℕ → Bool × List ℕ
read_sign [] = (false, [])
read_sign (c ∷ s) =
    if c == b'-' then (true, s) else if c == b'+' then (false, s) else (false, c ∷ s)

-- In base 16, `0x` before a digit is passed over.
unfoldable pub skip_prefix : ℕ → List ℕ → List ℕ
skip_prefix base (a ∷ b ∷ c ∷ s) =
    if base == 16 && a == b'0' && (b == b'x' || b == b'X') && is_digit base c
    then c ∷ s
    else a ∷ b ∷ c ∷ s
skip_prefix base s = s

-- The result for digits that stand for `n`: too large a number becomes ULONG_MAX.
unfoldable pub strtoul_result : Bool → ℕ → ℕ
strtoul_result negative n =
    if ltb n (2 ^ 64) then (if negative then (2 ^ 64 - n) % 2 ^ 64 else n) else 2 ^ 64 - 1

unfoldable pub starts_digit : ℕ → List ℕ → Bool
starts_digit base [] = false
starts_digit base (c ∷ s) = is_digit base c

-- `strtoul(s, &end, base)` for the bases 10 and 16: the number, and the text at `end`. Without
-- a digit the number is 0 and `end` is the start.
unfoldable pub strtoul : ℕ → List ℕ → ℕ × List ℕ
unfolding starts_digit strtoul_result
strtoul base s =
    let (negative, unsigned) = read_sign (skip_spaces s) in
    let digits = skip_prefix base unsigned in
    let (n, rest) = read_digits base 0 digits in
    if starts_digit base digits then (strtoul_result negative n, rest) else (0, s)

unfoldable pub hex_char : ℕ → ℕ
hex_char d = if ltb d 10 then b'0' + d else b'a' + (d - 10)

-- `%016lx` with 16 for the width: the digits of a number that has at most `width` of them.
unfoldable pub hex_fixed : ℕ → ℕ → List ℕ
hex_fixed zero n = []
hex_fixed (suc width) n = hex_char (n / 16 ^ width % 16) ∷ hex_fixed width n

-- Leading zeros go, but for a last digit.
pub strip_zeros : List ℕ → List ℕ
strip_zeros [] = []
strip_zeros (c ∷ []) = c ∷ []
strip_zeros (c ∷ d ∷ s) = let rest = strip_zeros (d ∷ s) in if c == b'0' then rest else c ∷ d ∷ s

-- `%lx` of a 64-bit word.
pub hex_plain : ℕ → List ℕ
hex_plain n = strip_zeros (hex_fixed 16 n)

-- `std::stoi`: a decimal int at the front, as its 32-bit pattern; `none` is an exception.
unfoldable pub stoi : List ℕ → Option ℕ
unfolding starts_digit
stoi s =
    let (negative, digits) = read_sign (skip_spaces s) in
    let (n, rest) = read_digits 10 0 digits in
    if not (starts_digit 10 digits)
    then none
    else if negative
    then (if leb n (2 ^ 31) then some ((2 ^ 32 - n) % 2 ^ 32) else none)
    else if ltb n (2 ^ 31)
    then some n
    else none

-- The base that `0` stands for: hexadecimal after 0x, octal after 0, decimal otherwise.
unfoldable pub detect_base : List ℕ → ℕ
detect_base (a ∷ b ∷ c ∷ s) =
    if a == b'0' && (b == b'x' || b == b'X') && is_digit 16 c
    then 16
    else if a == b'0'
    then 8
    else 10
detect_base (a ∷ s) = if a == b'0' then 8 else 10
detect_base [] = 10

-- `(uint32_t) std::stol(s, NULL, 0)`; `none` is an exception.
unfoldable pub stol_u32 : List ℕ → Option ℕ
unfolding starts_digit detect_base
stol_u32 s =
    let (negative, unsigned) = read_sign (skip_spaces s) in
    let base = detect_base unsigned in
    let digits = skip_prefix base unsigned in
    let (n, rest) = read_digits base 0 digits in
    if not (starts_digit base digits)
    then none
    else if negative
    then (if leb n (2 ^ 63) then some ((2 ^ 64 - n) % 2 ^ 32) else none)
    else if ltb n (2 ^ 63)
    then some (n % 2 ^ 32)
    else none

pub stol_u32-lt : (s : List ℕ) (a : ℕ) → stol_u32 s ≡ some a → a < 2 ^ 32
unfolding stol_u32
stol_u32-lt s a h = ground arith
