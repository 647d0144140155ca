-- ===== src/Hexdump.antt =====
-- csf_assign02/c_hexfuncs.c and csf_assign02/c_hexmain.c: a hex dump. A `char` is its byte, a
-- buffer is a list of bytes, and what `write` puts out is the list of all bytes written. `read` is
-- not in the source: the blocks that its calls return are the input, an empty one at the end of
-- the file; a failing `read` is not modelled.
pub mod Digits
pub mod Lines
mod Tests
use assignments_for_csf.Base.{
  ℕ, zero, suc, ◌+◌, ◌-◌, ◌*◌, ◌/◌, ◌%◌, ◌^◌, bit_and, ◌||◌, List, [], ◌∷◌, ◌++◌, ltb, ◌==◌,
  if◌then◌else◌, codes, length, drop, set,
}
use assignments_for_csf.Cache.{not32, shl32}

-- The block that `read` returned goes to the front of the buffer, with a NUL behind it.
unfoldable pub hex_read : List ℕ → List ℕ → List ℕ × ℕ
hex_read block data_buf = (block ++ 0 ∷ drop (length block + 1) data_buf, length block)

unfoldable pub hex_write_string : List ℕ → List ℕ
hex_write_string [] = []
hex_write_string (c ∷ s) = let rest = hex_write_string s in if c == 0 then [] else c ∷ rest

unfoldable pub hex_digit : ℕ → ℕ
hex_digit curdigits = if ltb curdigits 10 then curdigits + 48 else curdigits + 87

-- The loop of both formatting functions: the digit at `4 * i` bits goes to place `last - i`.
unfoldable pub format_loop : ℕ → ℕ → ℕ → ℕ → List ℕ → List ℕ
format_loop zero i last value sbuf = sbuf
format_loop (suc rounds) i last value sbuf =
    let curdigits = bit_and (value / 2 ^ (4 * i)) (not32 (shl32 (not32 0) 4)) in
    format_loop rounds (i + 1) last value (set sbuf (last - i) (hex_digit curdigits))

unfoldable pub hex_format_offset : ℕ → List ℕ → List ℕ
hex_format_offset offset sbuf = set (format_loop 8 0 7 offset sbuf) 8 0

unfoldable pub hex_format_byte_as_hex : ℕ → List ℕ → List ℕ
hex_format_byte_as_hex byteval sbuf = set (format_loop 2 0 1 byteval sbuf) 2 0

unfoldable pub hex_to_printable : ℕ → ℕ
hex_to_printable byteval = if ltb byteval 32 || ltb 126 byteval then b'.' else byteval

-- The offset is converted to an unsigned of 32 bits.
unfoldable pub printoffset : ℕ → List ℕ → List ℕ
printoffset value offset =
    hex_write_string (hex_format_offset (value % 2 ^ 32) offset) ++ hex_write_string (codes ": ")

unfoldable pub printdata : List ℕ → List ℕ
printdata bytes =
    hex_write_string (codes " ") ++ hex_write_string bytes ++ hex_write_string (codes "\n")

-- `16 - (index % 16)` for an int: the remainder of a negative index is not positive.
unfoldable pub supplement_count : ℕ → ℕ
supplement_count index =
    let pattern = index % 2 ^ 32 in
    if pattern % 16 == 0
    then 0
    else if ltb pattern (2 ^ 31)
    then 16 - pattern % 16
    else 16 + (2 ^ 32 - pattern) % 16

unfoldable pub supplement_loop : ℕ → List ℕ
supplement_loop zero = []
supplement_loop (suc i) = hex_write_string (codes "   ") ++ supplement_loop i

unfoldable pub printsupplement : ℕ → List ℕ
printsupplement index = supplement_loop (supplement_count index)

-- Each round overwrites the whole of `hex`.
unfoldable pub printloop : ℕ → List ℕ → List ℕ → List ℕ
printloop zero bytes hex = []
printloop (suc readlength) [] hex = []
printloop (suc readlength) (c ∷ bytes) hex =
    let hex' = hex_format_byte_as_hex c hex in
    hex_write_string hex' ++ hex_write_string (codes " ") ++ printloop readlength bytes hex'

-- The conversion of the first bytes of the buffer.
unfoldable pub convert : ℕ → List ℕ → List ℕ
convert zero bytes = bytes
convert (suc readlength) [] = []
convert (suc readlength) (c ∷ bytes) = hex_to_printable c ∷ convert readlength bytes

-- The loop of `main`, from the blocks still to be read. The contents of `offset` and `hex` are
-- never read before they are overwritten.
unfoldable pub main_loop : List (List ℕ) → List ℕ → List ℕ → List ℕ → ℕ → List ℕ
main_loop [] offset bytes hex index = []
main_loop (block ∷ blocks) offset bytes hex index =
    let (read_bytes, readlength) = hex_read block bytes in
    let converted = convert readlength read_bytes in
    let later = main_loop blocks offset converted hex (index + readlength) in
    if readlength == 0
    then []
    else printoffset index offset
      ++ printloop readlength read_bytes hex
      ++ printsupplement (index + readlength)
      ++ printdata converted
      ++ later

-- `main` with what its uninitialised buffers hold.
unfoldable pub main : List ℕ → List ℕ → List ℕ → List (List ℕ) → List ℕ
main offset bytes hex blocks = main_loop blocks offset bytes hex 0
