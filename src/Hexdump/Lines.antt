-- ===== src/Hexdump/Lines.antt =====
-- The lines of the hex dump.
use native.Mathlib.Nat.{mod-eq_of_lt}
use assignments_for_csf.Base.{
  ℕ, zero, suc, ◌+◌, ◌-◌, ◌*◌, ◌%◌, ◌^◌, ◌≤◌, ◌<◌, ◌≡◌, refl, ap, ◌∙◌, arith, List, [], ◌∷◌, ◌++◌,
  map, append_assoc, length, drop, replicate, replicate-suc, codes, ==_no, length-append,
  length-map, length-replicate, replicate-suc,
}
use assignments_for_csf.Libc.{hex_fixed}
use assignments_for_csf.Libc.Digits.{length-hex_fixed}
use assignments_for_csf.Hexdump.{
  hex_read, hex_write_string, hex_to_printable, printoffset, printdata, supplement_count,
  supplement_loop, printsupplement, printloop, convert, main_loop, main,
}
use assignments_for_csf.Hexdump.Digits.{
  hex_format_byte-fixed, hex_format_offset-fixed, write-NoNul, hex_fixed-NoNul, printable-NoNul,
}

-- Two digits and a space for each byte.
unfoldable pub hex_column : List ℕ → List ℕ
hex_column [] = []
hex_column (b ∷ block) = hex_fixed 2 b ++ codes " " ++ hex_column block

unfoldable pub line : ℕ → List ℕ → List ℕ
line index block =
    hex_fixed 8 index
    ++ codes ": "
    ++ hex_column block
    ++ replicate (3 * (16 - length block)) b' '
    ++ codes " "
    ++ map hex_to_printable block
    ++ codes "\n"

unfoldable pub lines : ℕ → List (List ℕ) → List ℕ
lines index [] = []
lines index (block ∷ blocks) = line index block ++ lines (index + length block) blocks

-- Every block has 16 bytes, but for the last, which may have fewer.
unfoldable pub FullBlocks : List (List ℕ) → Type 0
FullBlocks [] = Unit
FullBlocks (block ∷ []) = (0 < length block) × (length block ≤ 16)
FullBlocks (block ∷ next ∷ blocks) = (length block ≡ 16) × FullBlocks (next ∷ blocks)

unfoldable pub total : List (List ℕ) → ℕ
total [] = 0
total (block ∷ blocks) = length block + total blocks

-- `main` leaves the buffers at their sizes.
printoffset_lem :
    (index : ℕ) (offset : List ℕ)
    → length offset ≡ 9
    → index < 2 ^ 32
    → printoffset index offset ≡ hex_fixed 8 index ++ codes ": "
unfolding printoffset hex_write_string
printoffset_lem index offset h small =
    rw
      (
        mod-eq_of_lt small,
        hex_format_offset-fixed index offset h,
        write-NoNul (hex_fixed 8 index) [] (hex_fixed-NoNul 8 index),
      )
      refl

printloop_lem :
    (block rest hex : List ℕ)
    → length hex ≡ 3
    → printloop (length block) (block ++ rest) hex ≡ hex_column block
unfolding printloop hex_column hex_write_string
printloop_lem [] rest hex h = refl
printloop_lem (b ∷ block) rest hex h =
    let size : length (hex_fixed 2 b ++ 0 ∷ []) ≡ 3 =
      length-append (hex_fixed 2 b) (0 ∷ []) ∙ omega (arith, length-hex_fixed 2 b) in
    rw
      (
        hex_format_byte-fixed b hex h,
        write-NoNul (hex_fixed 2 b) [] (hex_fixed-NoNul 2 b),
        printloop_lem block rest (hex_fixed 2 b ++ 0 ∷ []) size,
      )
      refl

convert_lem :
    (block rest : List ℕ)
    → convert (length block) (block ++ rest) ≡ map hex_to_printable block ++ rest
unfolding convert
convert_lem [] rest = refl
convert_lem (b ∷ block) rest = ap (◌∷◌ (hex_to_printable b)) (convert_lem block rest)

printdata_lem :
    (block rest : List ℕ)
    → printdata (map hex_to_printable block ++ 0 ∷ rest)
      ≡ codes " " ++ map hex_to_printable block ++ codes "\n"
unfolding printdata hex_write_string
printdata_lem block rest =
    rw (write-NoNul (map hex_to_printable block) rest (printable-NoNul block)) refl

supplement_loop_lem : (n : ℕ) → supplement_loop n ≡ replicate (3 * n) b' '
unfolding supplement_loop hex_write_string
supplement_loop_lem zero = refl
supplement_loop_lem (suc n) =
    let e : 3 * suc n ≡ suc (suc (suc (3 * n))) = omega arith in
    rw
      (
        e,
        replicate-suc {A = ℕ} (suc (suc (3 * n))) b' ',
        replicate-suc {A = ℕ} (suc (3 * n)) b' ',
        replicate-suc {A = ℕ} (3 * n) b' ',
        supplement_loop_lem n,
      )
      refl

supplement_count_lem :
    (index n : ℕ)
    → index % 16 ≡ 0
    → 0 < n
    → n ≤ 16
    → index + n < 2 ^ 31
    → supplement_count (index + n) ≡ 16 - n
unfolding supplement_count
supplement_count_lem index n aligned pos le small = ground arith

-- The round of the loop for one block.
round_lem :
    (block : List ℕ) (blocks : List (List ℕ)) (offset bytes hex : List ℕ) (index : ℕ)
    → length offset ≡ 9
    → length hex ≡ 3
    → 0 < length block
    → length block ≤ 16
    → index % 16 ≡ 0
    → index + length block < 2 ^ 31
    → (bytes' : List ℕ) × (main_loop (block ∷ blocks) offset bytes hex index
        ≡ line index block ++ main_loop blocks offset bytes' hex (index + length block))
unfolding main_loop hex_read line printsupplement
round_lem block blocks offset bytes hex index ho hh pos le aligned small =
    let rest = drop (length block + 1) bytes in
    (
      map hex_to_printable block ++ 0 ∷ rest,
      rw
          (
            ==_no (length block) 0 (λ e. omega arith),
            convert_lem block (0 ∷ rest),
            printoffset_lem index offset ho (omega arith),
            printloop_lem block (0 ∷ rest) hex hh,
            supplement_count_lem index (length block) aligned pos le small,
            supplement_loop_lem (16 - length block),
            printdata_lem block rest,
          )
          (simp (line, append_assoc)),
    )

main_loop_lem :
    (blocks : List (List ℕ)) (offset bytes hex : List ℕ) (index : ℕ)
    → length offset ≡ 9
    → length hex ≡ 3
    → FullBlocks blocks
    → index % 16 ≡ 0
    → index + total blocks < 2 ^ 31
    → main_loop blocks offset bytes hex index ≡ lines index blocks
unfolding FullBlocks total lines main_loop
main_loop_lem [] offset bytes hex index ho hh full aligned small = refl
main_loop_lem (block ∷ []) offset bytes hex index ho hh (pos, le) aligned small =
    (round_lem block [] offset bytes hex index ho hh pos le aligned (omega arith)).1
main_loop_lem (block ∷ next ∷ blocks) offset bytes hex index ho hh (size, full) aligned small =
    let (bytes', step) =
      round_lem block (next ∷ blocks) offset bytes hex index ho hh (omega arith) (omega arith)
        aligned (omega arith) in
    step
    ∙ ap (◌++◌ (line index block)) (
        main_loop_lem (next ∷ blocks) offset bytes' hex (index + length block) ho hh full
          (omega arith) (omega arith))

-- If the blocks have 16 bytes, but for the last, and fewer than 2 ^ 31 bytes together, `main`
-- prints a line for each block, under the offset of its first byte.
pub main-lines :
    (blocks : List (List ℕ)) (offset bytes hex : List ℕ)
    → length offset ≡ 9
    → length hex ≡ 3
    → FullBlocks blocks
    → total blocks < 2 ^ 31
    → main offset bytes hex blocks ≡ lines 0 blocks
unfolding main
main-lines blocks offset bytes hex ho hh full small =
    main_loop_lem blocks offset bytes hex 0 ho hh full refl (omega arith)

length-hex_column : (block : List ℕ) → length (hex_column block) ≡ 3 * length block
unfolding hex_column hex_fixed
length-hex_column [] = refl
length-hex_column (b ∷ block) = omega (
  arith,
  length-append (hex_fixed 2 b) (codes " " ++ hex_column block),
  length-hex_fixed 2 b,
  length-hex_column block,
)

-- The texts of all lines start in the same column: up to 16 bytes make a line of 60 characters
-- and one for each byte.
pub length-line :
    (index : ℕ) (block : List ℕ) → length block ≤ 16 → length (line index block) ≡ 60 + length block
unfolding line
length-line index block h =
    simp
      (
        line,
        length-append,
        length-hex_fixed 8 index,
        length-hex_column block,
        length-replicate {A = ℕ} (3 * (16 - length block)) 32,
        length-map hex_to_printable block,
      )
      (omega arith)
