-- ===== src/Hexdump/Digits.antt =====
-- The formatted numbers and characters of the hex dump.
use native.Mathlib.Nat.{mod-eq_of_lt}
use assignments_for_csf.Base.{
  ℕ, zero, suc, ◌/◌, ◌%◌, ◌^◌, ◌≤◌, ◌<◌, ◌≡◌, ◌≢◌, refl, ap, ◌∙◌, arith, bit_and, List, [], ◌∷◌,
  ◌++◌, map, length, ==_no,
}
use assignments_for_csf.Base.Bits.{bit_and-mask}
use assignments_for_csf.Libc.{hex_char, hex_fixed}
use assignments_for_csf.Hexdump.{
  hex_write_string, hex_digit, format_loop, hex_format_offset, hex_format_byte_as_hex,
  hex_to_printable,
}
use assignments_for_csf.Libc.Digits.{hex_value, hex_value-hex_fixed, length-hex_fixed}

digit-same : (d : ℕ) → hex_digit d ≡ hex_char d
unfolding hex_digit hex_char
digit-same d = ground arith

digit : (x : ℕ) → hex_digit (bit_and x 15) ≡ hex_char (x % 16)
digit x = digit-same (bit_and x 15) ∙ ap hex_char (bit_and-mask 4 x)

pub hex_format_byte-fixed :
    (n : ℕ) (sbuf : List ℕ)
    → length sbuf ≡ 3
    → hex_format_byte_as_hex n sbuf ≡ hex_fixed 2 n ++ 0 ∷ []
unfolding hex_format_byte_as_hex format_loop hex_fixed
hex_format_byte-fixed n [] h = absurd (omega arith)
hex_format_byte-fixed n (a ∷ []) h = absurd (omega arith)
hex_format_byte-fixed n (a ∷ b ∷ []) h = absurd (omega arith)
hex_format_byte-fixed n (a ∷ b ∷ c ∷ []) h = rw (digit (n / 16), digit (n / 1)) refl
hex_format_byte-fixed n (a ∷ b ∷ c ∷ d ∷ s) h = absurd (omega arith)

pub hex_format_offset-fixed :
    (n : ℕ) (sbuf : List ℕ) → length sbuf ≡ 9 → hex_format_offset n sbuf ≡ hex_fixed 8 n ++ 0 ∷ []
unfolding hex_format_offset format_loop hex_fixed
hex_format_offset-fixed n [] h = absurd (omega arith)
hex_format_offset-fixed n (a ∷ []) h = absurd (omega arith)
hex_format_offset-fixed n (a ∷ b ∷ []) h = absurd (omega arith)
hex_format_offset-fixed n (a ∷ b ∷ c ∷ []) h = absurd (omega arith)
hex_format_offset-fixed n (a ∷ b ∷ c ∷ d ∷ []) h = absurd (omega arith)
hex_format_offset-fixed n (a ∷ b ∷ c ∷ d ∷ e ∷ []) h = absurd (omega arith)
hex_format_offset-fixed n (a ∷ b ∷ c ∷ d ∷ e ∷ f ∷ []) h = absurd (omega arith)
hex_format_offset-fixed n (a ∷ b ∷ c ∷ d ∷ e ∷ f ∷ g ∷ []) h = absurd (omega arith)
hex_format_offset-fixed n (a ∷ b ∷ c ∷ d ∷ e ∷ f ∷ g ∷ i ∷ []) h = absurd (omega arith)
hex_format_offset-fixed n (a ∷ b ∷ c ∷ d ∷ e ∷ f ∷ g ∷ i ∷ j ∷ []) h =
    rw
      (
        digit (n / 16 ^ 7),
        digit (n / 16 ^ 6),
        digit (n / 16 ^ 5),
        digit (n / 16 ^ 4),
        digit (n / 16 ^ 3),
        digit (n / 16 ^ 2),
        digit (n / 16),
        digit (n / 1),
      )
      refl
hex_format_offset-fixed n (a ∷ b ∷ c ∷ d ∷ e ∷ f ∷ g ∷ i ∷ j ∷ k ∷ s) h = absurd (omega arith)

-- No byte of the text is NUL.
pub NoNul : List ℕ → Type 0
NoNul [] = Unit
NoNul (c ∷ s) = (c ≢ 0) × NoNul s

pub write-NoNul : (s rest : List ℕ) → NoNul s → hex_write_string (s ++ 0 ∷ rest) ≡ s
unfolding hex_write_string NoNul
write-NoNul [] rest h = refl
write-NoNul (c ∷ s) rest (h, t) = rw (==_no c 0 h, write-NoNul s rest t) refl

hex_char-nonzero : (d : ℕ) → hex_char d ≢ 0
unfolding hex_char
hex_char-nonzero d e = ground arith

pub hex_fixed-NoNul : (w n : ℕ) → NoNul (hex_fixed w n)
unfolding NoNul hex_fixed
hex_fixed-NoNul zero n = tt
hex_fixed-NoNul (suc w) n = (hex_char-nonzero (n / 16 ^ w % 16), hex_fixed-NoNul w n)

-- The formatted offset is written as 8 characters, which denote it in base 16.
pub hex_format_offset-value :
    (n : ℕ) (sbuf : List ℕ)
    → n < 2 ^ 32
    → length sbuf ≡ 9
    → (length (hex_write_string (hex_format_offset n sbuf)) ≡ 8)
      × (hex_value (hex_write_string (hex_format_offset n sbuf)) ≡ n)
hex_format_offset-value n sbuf small h =
    let e : hex_write_string (hex_format_offset n sbuf) ≡ hex_fixed 8 n =
      ap hex_write_string (hex_format_offset-fixed n sbuf h)
      ∙ write-NoNul (hex_fixed 8 n) [] (hex_fixed-NoNul 8 n) in
    rw e (length-hex_fixed 8 n, hex_value-hex_fixed 8 n ∙ mod-eq_of_lt small)

pub hex_to_printable-range : (b : ℕ) → (32 ≤ hex_to_printable b) × (hex_to_printable b ≤ 126)
unfolding hex_to_printable
hex_to_printable-range b = ground arith

pub printable-NoNul : (s : List ℕ) → NoNul (map hex_to_printable s)
unfolding NoNul
printable-NoNul [] = tt
printable-NoNul (c ∷ s) = (λ e. omega (arith, hex_to_printable-range c), printable-NoNul s)
