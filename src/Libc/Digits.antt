-- ===== src/Libc/Digits.antt =====
-- Hexadecimal texts and the numbers that they stand for.
use native.Mathlib.Nat.{
  pow-suc, pow-le-pow_right, div-add-mod, mod-one, mod-eq_of_lt, div-div-eq-div-mul,
}
use assignments_for_csf.Base.{
  ℕ, zero, suc, ◌+◌, ◌*◌, ◌/◌, ◌%◌, ◌^◌, ◌≤◌, ◌<◌, ◌≡◌, refl, sym, ap, ap₂, ◌∙◌, inl, inr, arith,
  false, List, [], ◌∷◌, ◌++◌, length, Bool-cases, lt→ltb, ==_iff, ==→ne, ◌==◌,
}
use assignments_for_csf.Libc.{
  isspace, skip_spaces, digit_value, is_digit, read_digits, read_sign, skip_prefix, strtoul,
  hex_char, hex_fixed, strip_zeros, hex_plain,
}

-- The number that a text of hexadecimal digits stands for.
abbrev pub value_from : ℕ → List ℕ → ℕ
value_from acc [] = acc
value_from acc (c ∷ s) = value_from (acc * 16 + digit_value c) s

abbrev pub hex_value : List ℕ → ℕ
hex_value s = value_from 0 s

abbrev pub IsHex : List ℕ → Type 0
IsHex [] = Unit
IsHex (c ∷ s) = (digit_value c < 16) × IsHex s

value_from-eq : (acc : ℕ) (s : List ℕ) → value_from acc s ≡ acc * 16 ^ length s + hex_value s
value_from-eq acc [] = omega arith
value_from-eq acc (c ∷ s) = omega (
  arith,
  value_from-eq (acc * 16 + digit_value c) s,
  value_from-eq (0 * 16 + digit_value c) s,
  ap (λ p. acc * p) (pow-suc 16 (length s)),
)

value_from-append :
    (acc : ℕ) (s t : List ℕ) → value_from acc (s ++ t) ≡ value_from (value_from acc s) t
value_from-append acc [] t = refl
value_from-append acc (c ∷ s) t = value_from-append (acc * 16 + digit_value c) s t

pub hex_value-append :
    (s t : List ℕ) → hex_value (s ++ t) ≡ hex_value s * 16 ^ length t + hex_value t
hex_value-append s t = value_from-append 0 s t ∙ value_from-eq (hex_value s) t

scaled_lt : (d v p : ℕ) → d < 16 → v < p → d * p + v < p * 16
scaled_lt d v p hd hv = grind arith

pub hex_value-lt : (s : List ℕ) → IsHex s → hex_value s < 16 ^ length s
hex_value-lt [] h = omega arith
hex_value-lt (c ∷ s) h = rw (pow-suc 16 (length s)) (
    omega (
      arith,
      value_from-eq (0 * 16 + digit_value c) s,
      scaled_lt (digit_value c) (hex_value s) (16 ^ length s) h.0 (hex_value-lt s h.1),
    ))

-- A hexadecimal digit is neither a space, nor a sign, nor an x.
digit_plain :
    (c : ℕ)
    → digit_value c < 16
    → (isspace c ≡ false)
      × ((c == b'-') ≡ false)
      × ((c == b'+') ≡ false)
      × ((c == b'x') ≡ false)
      × ((c == b'X') ≡ false)
unfolding isspace digit_value
digit_plain c h = ground arith

read_digits-hex : (acc : ℕ) (s : List ℕ) → IsHex s → read_digits 16 acc s ≡ (value_from acc s, [])
unfolding read_digits is_digit
read_digits-hex acc [] h = refl
read_digits-hex acc (c ∷ s) h =
    rw (lt→ltb (digit_value c) 16 h.0) (read_digits-hex (acc * 16 + digit_value c) s h.1)

skip_prefix-hex : (s : List ℕ) → IsHex s → skip_prefix 16 s ≡ s
unfolding skip_prefix
skip_prefix-hex [] h = refl
skip_prefix-hex (a ∷ []) h = refl
skip_prefix-hex (a ∷ b ∷ []) h = refl
skip_prefix-hex (a ∷ b ∷ c ∷ s) h = ground (arith, digit_plain b)

pub pow-le-word : (n : ℕ) → n ≤ 16 → 16 ^ n ≤ 2 ^ 64
pow-le-word n h = pow-le-pow_right {n = 16} (omega arith) {i = n} {j = 16} h

-- On up to 16 hexadecimal digits strtoul gives their number, which is not saturated.
pub strtoul-hex : (s : List ℕ) → IsHex s → length s ≤ 16 → (strtoul 16 s).0 ≡ hex_value s
unfolding strtoul skip_spaces read_sign is_digit
strtoul-hex [] h l = rw (skip_prefix-hex [] h)
strtoul-hex (c ∷ s) h l =
    let plain = digit_plain c h.0 in
    let fits : hex_value (c ∷ s) < 2 ^ 64 =
      omega (arith, hex_value-lt (c ∷ s) h, pow-le-word (length (c ∷ s)) l) in
    rw
      (
        plain.0,
        plain.1,
        plain.2,
        skip_prefix-hex (c ∷ s) h,
        read_digits-hex 0 (c ∷ s) h,
        lt→ltb (digit_value c) 16 h.0,
      )
      (rw (lt→ltb (hex_value (c ∷ s)) (2 ^ 64) fits))

digit_value-hex_char : (d : ℕ) → d < 16 → digit_value (hex_char d) ≡ d
unfolding digit_value hex_char
digit_value-hex_char d h = ground arith

mod-digit : (n w : ℕ) → n % 16 ^ suc w ≡ n / 16 ^ w % 16 * 16 ^ w + n % 16 ^ w
mod-digit n w = omega (
  arith,
  div-add-mod n (16 ^ w),
  div-add-mod n (16 ^ suc w),
  ap₂ ◌*◌ (pow-suc 16 w) (ap (λ m. n / m) (pow-suc 16 w) ∙ sym (div-div-eq-div-mul n (16 ^ w) 16)),
  ap (λ q. q * 16 ^ w) (div-add-mod (n / 16 ^ w) 16),
)

pub length-hex_fixed : (w n : ℕ) → length (hex_fixed w n) ≡ w
unfolding hex_fixed
length-hex_fixed zero n = refl
length-hex_fixed (suc w) n = ap suc (length-hex_fixed w n)

pub hex_fixed-IsHex : (w n : ℕ) → IsHex (hex_fixed w n)
unfolding hex_fixed
hex_fixed-IsHex zero n = tt
hex_fixed-IsHex (suc w) n =
    (omega (arith, digit_value-hex_char (n / 16 ^ w % 16) (omega arith)), hex_fixed-IsHex w n)

-- `%0*lx` prints the number's low digits.
pub hex_value-hex_fixed : (w n : ℕ) → hex_value (hex_fixed w n) ≡ n % 16 ^ w
unfolding hex_fixed
hex_value-hex_fixed zero n = omega (arith, mod-one n)
hex_value-hex_fixed (suc w) n = omega (
  arith,
  mod-digit n w,
  value_from-eq (0 * 16 + digit_value (hex_char (n / 16 ^ w % 16))) (hex_fixed w n),
  ap (λ l. digit_value (hex_char (n / 16 ^ w % 16)) * 16 ^ l) (length-hex_fixed w n),
  ap (λ d. d * 16 ^ w) (digit_value-hex_char (n / 16 ^ w % 16) (omega arith)),
  hex_value-hex_fixed w n,
)

-- Only a single digit may be a zero in front.
abbrev pub IsTrimmed : List ℕ → Type 0
IsTrimmed (c ∷ d ∷ s) = ¬ (c ≡ b'0')
IsTrimmed s = Unit

pub strip_zeros-IsTrimmed : (s : List ℕ) → IsTrimmed (strip_zeros s)
unfolding strip_zeros
strip_zeros-IsTrimmed [] = tt
strip_zeros-IsTrimmed (c ∷ []) = tt
strip_zeros-IsTrimmed (c ∷ d ∷ s) = elim (Bool-cases (c == b'0')) [
  | inl e ↦ rw e (strip_zeros-IsTrimmed (d ∷ s))
  | inr e ↦ rw e (==→ne c b'0' e)
]

strip_zeros-IsHex : (s : List ℕ) → IsHex s → IsHex (strip_zeros s)
unfolding strip_zeros
strip_zeros-IsHex [] h = h
strip_zeros-IsHex (c ∷ []) h = h
strip_zeros-IsHex (c ∷ d ∷ s) h = elim (Bool-cases (c == b'0')) [
  | inl e ↦ rw e (strip_zeros-IsHex (d ∷ s) h.1)
  | inr e ↦ rw e h
]

hex_value-strip_zeros : (s : List ℕ) → hex_value (strip_zeros s) ≡ hex_value s
unfolding strip_zeros digit_value
hex_value-strip_zeros [] = refl
hex_value-strip_zeros (c ∷ []) = refl
hex_value-strip_zeros (c ∷ d ∷ s) = elim (Bool-cases (c == b'0')) [
  | inl e ↦ rw (e, (==_iff c b'0').0 e) (hex_value-strip_zeros (d ∷ s))
  | inr e ↦ rw e refl
]

length-strip_zeros :
    (c : ℕ) (s : List ℕ)
    → (1 ≤ length (strip_zeros (c ∷ s))) × (length (strip_zeros (c ∷ s)) ≤ length (c ∷ s))
unfolding strip_zeros
length-strip_zeros c [] = omega arith
length-strip_zeros c (d ∷ s) = ground (arith, length-strip_zeros d s)

-- `%lx` prints a word with 1 to 16 digits, without leading zeros.
pub record Prints (n : ℕ) (s : List ℕ) : Type 0 where
  pub hex : IsHex s
  pub denotes : hex_value s ≡ n
  pub short : length s ≤ 16
  pub some_digit : 1 ≤ length s
  pub trimmed : IsTrimmed s

pub hex_plain-Prints : (n : ℕ) → n < 2 ^ 64 → Prints n (hex_plain n)
unfolding hex_plain hex_fixed
hex_plain-Prints n h = record {
  hex = strip_zeros-IsHex (hex_fixed 16 n) (hex_fixed-IsHex 16 n);
  denotes = hex_value-strip_zeros (hex_fixed 16 n) ∙ hex_value-hex_fixed 16 n ∙ mod-eq_of_lt h;
  short = omega (arith, length-strip_zeros _ _, length-hex_fixed 16 n);
  some_digit = (length-strip_zeros _ _).0;
  trimmed = strip_zeros-IsTrimmed (hex_fixed 16 n);
}
