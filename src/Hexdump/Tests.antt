-- ===== src/Hexdump/Tests.antt =====
-- The hex dump of two blocks.
use assignments_for_csf.Base.{ℕ, ◌≡◌, refl, arith, List, [], ◌∷◌, length, replicate, codes}
use assignments_for_csf.Libc.Digits.{hex_value}
use assignments_for_csf.Hexdump.{hex_write_string, hex_format_offset, main}
use assignments_for_csf.Hexdump.Digits.{hex_format_offset-value}
use assignments_for_csf.Hexdump.Lines.{total, line, lines, FullBlocks, main-lines, length-line}

abbrev offset : List ℕ
offset = replicate 9 0

abbrev bytes : List ℕ
bytes = replicate 17 0

abbrev hex : List ℕ
hex = replicate 3 0

abbrev blocks : List (List ℕ)
blocks = codes "Hello, world!123" ∷ codes "abc" ∷ []

blocks-FullBlocks : FullBlocks blocks
unfolding FullBlocks
blocks-FullBlocks = (refl, (omega arith, omega arith))

main-lines_example : main offset bytes hex blocks ≡ lines 0 blocks
unfolding total
main-lines_example = main-lines blocks offset bytes hex refl refl blocks-FullBlocks (omega arith)

length-line_example : length (line 16 (codes "abc")) ≡ 63
length-line_example = length-line 16 (codes "abc") (omega arith)

hex_format_offset-value_example :
    (length (hex_write_string (hex_format_offset 256 offset)) ≡ 8)
    × (hex_value (hex_write_string (hex_format_offset 256 offset)) ≡ 256)
hex_format_offset-value_example = hex_format_offset-value 256 offset (omega arith) refl
