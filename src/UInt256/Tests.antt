-- ===== src/UInt256/Tests.antt =====
-- Runs of the operations on 256-bit integers, and the theorems at concrete numbers.
use assignments_for_csf.Base.{
  some, length, ◌<◌, ℕ, ◌+◌, ◌-◌, ◌*◌, ◌%◌, ◌^◌, ◌≡◌, refl, arith, ◌↔◌, List,
}
use assignments_for_csf.Libc.{hex_fixed}
use assignments_for_csf.Libc.Digits.{hex_fixed-IsHex}
use assignments_for_csf.UInt256.{Words, UInt256, add, sub, next_carry, mul, leftshift}
use assignments_for_csf.UInt256.Value.{value, IsUInt256}
use assignments_for_csf.UInt256.Add.{LosesCarry, LosesBorrow, add_exact_iff, sub_exact_iff}
use assignments_for_csf.UInt256.Mul.{mul_small}
use assignments_for_csf.UInt256.Shift.{value-leftshift}
use assignments_for_csf.UInt256.Hex.{create_from_hex, format_as_hex}
use assignments_for_csf.UInt256.Hex.Print.{Formats, format_as_hex-Formats}
use assignments_for_csf.UInt256.Hex.Parse.{
  Reads, create_from_hex_lem, create_from_hex-format_as_hex,
}

abbrev small : UInt256
small = record { words = record { w0 = 1234567; w1 = 0; w2 = 0; w3 = 0 } }

abbrev large : UInt256
large = record { words = record { w0 = 2 ^ 64 - 1; w1 = 5; w2 = 2 ^ 64 - 1; w3 = 7 } }

small-IsUInt256 : IsUInt256 small
small-IsUInt256 = record {
  fits0 = omega arith;
  fits1 = omega arith;
  fits2 = omega arith;
  fits3 = omega arith;
}

large-IsUInt256 : IsUInt256 large
large-IsUInt256 = record {
  fits0 = omega arith;
  fits1 = omega arith;
  fits2 = omega arith;
  fits3 = omega arith;
}

add_exact_iff_example :
    (value (add large small) ≡ (value large + value small) % 2 ^ 256) ↔ ¬ LosesCarry large small
add_exact_iff_example = add_exact_iff large small large-IsUInt256 small-IsUInt256

sub_exact_iff_example :
    (value (sub large small) ≡ (value large + 2 ^ 256 - value small) % 2 ^ 256)
    ↔ ¬ LosesBorrow large small
sub_exact_iff_example = sub_exact_iff large small large-IsUInt256 small-IsUInt256

mul_small_example : value (mul small small) ≡ value small * value small
mul_small_example = mul_small small small small-IsUInt256 small-IsUInt256 (omega arith)

value-leftshift_example : value (leftshift large 70) ≡ value large * 2 ^ 70 % 2 ^ 256
value-leftshift_example = value-leftshift large 70 large-IsUInt256 (omega arith)

format_as_hex-Formats_example : Formats (value large) (format_as_hex large)
format_as_hex-Formats_example = format_as_hex-Formats large large-IsUInt256

create_from_hex-format_as_hex_example : create_from_hex (format_as_hex large) ≡ some large
create_from_hex-format_as_hex_example = create_from_hex-format_as_hex large large-IsUInt256

abbrev digits : List ℕ
digits = hex_fixed 2 31

digits-short : length digits < 2 ^ 31
unfolding hex_fixed
digits-short = omega arith

create_from_hex_lem_example :
    (words : Words) × (create_from_hex digits ≡ some (record { words = words }))
    × Reads digits words
create_from_hex_lem_example = create_from_hex_lem digits (hex_fixed-IsHex 2 31) digits-short

-- The carry of a word that is all ones on both sides, with a carry from below, is lost.
add_loses :
    value (
      add
        (record { words = record { w0 = 2 ^ 64 - 1; w1 = 2 ^ 64 - 1; w2 = 0; w3 = 0 } })
        (record { words = record { w0 = 1; w1 = 2 ^ 64 - 1; w2 = 0; w3 = 0 } }))
    ≡ (2 ^ 64 - 1) * 2 ^ 64
unfolding add next_carry
add_loses = refl
