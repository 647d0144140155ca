-- ===== src/UInt256/Hex.antt =====
-- uint256_create_from_hex and uint256_format_as_hex. A C string is the list of its bytes; the
-- arrays that the code copies digits through are slices of it. The debugging printf of
-- uint256_create_from_hex changes no state and is left out.
pub mod Parse
pub mod Print
use assignments_for_csf.Base.{
  ℕ, zero, suc, ◌+◌, ◌-◌, ◌*◌, ◌/◌, ◌%◌, ◌^◌, Option, none, some, List, [], ◌++◌, length, take,
  drop, ltb, not, ◌==◌, if◌then◌else◌,
}
use assignments_for_csf.Libc.{strtoul, hex_plain, hex_fixed}
use assignments_for_csf.UInt256.{Words, UInt256, zeros, at, put}

-- The digits from `i` on, `n` of them, as a string of its own.
abbrev pub slice : List ℕ → ℕ → ℕ → List ℕ
slice s i n = take n (drop i s)

-- `strtoul(s, &end, 16)`.
abbrev pub parse_word : List ℕ → ℕ
parse_word s = (strtoul 16 s).0

-- 64 digits or more: the last 64 in four groups of 16.
from_long : List ℕ → Words
from_long hex =
    let newstuff = slice hex (length hex - 64) 64 in
    record {
      w0 = parse_word (slice newstuff 48 16);
      w1 = parse_word (slice newstuff 32 16);
      w2 = parse_word (slice newstuff 16 16);
      w3 = parse_word (slice newstuff 0 16);
    }

-- The loop over the whole groups of 16 digits, at group `i`.
store_groups : ℕ → ℕ → ℕ → List ℕ → Words → Words
store_groups zero i quo rest result = result
store_groups (suc rounds) i quo rest result =
    store_groups rounds (i + 1) quo rest
      (put result (quo - i - 1) (parse_word (slice rest (i * 16) 16)))

-- Fewer than 64 digits: the odd ones in front, then the whole groups.
from_short : List ℕ → Words
unfolding store_groups
from_short hex =
    let quo = length hex / 16 in
    let rem = length hex % 16 in
    let significant = parse_word (slice hex 0 rem) in
    store_groups quo 0 quo (slice hex rem (length hex - rem)) (put zeros quo significant)

-- `int len = strlen(hex)`: a length that is no int is not described, and gives `none`.
unfoldable pub create_from_hex : List ℕ → Option UInt256
unfolding from_long from_short
create_from_hex hex =
    if ltb (length hex) (2 ^ 31)
    then some (record { words = if ltb (length hex) 64 then from_short hex else from_long hex })
    else none

-- The words below index `n`, the highest first, each with its 16 digits.
padded_words : ℕ → Words → List ℕ
padded_words zero d = []
padded_words (suc n) d = hex_fixed 16 (at d n) ++ padded_words n d

unfoldable pub format_as_hex : UInt256 → List ℕ
unfolding padded_words
format_as_hex val =
    if not (val.words.w3 == 0)
    then hex_plain val.words.w3 ++ padded_words 3 val.words
    else if not (val.words.w2 == 0)
    then hex_plain val.words.w2 ++ padded_words 2 val.words
    else if not (val.words.w1 == 0)
    then hex_plain val.words.w1 ++ padded_words 1 val.words
    else hex_plain val.words.w0
