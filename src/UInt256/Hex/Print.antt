-- ===== src/UInt256/Hex/Print.antt =====
-- What uint256_format_as_hex prints.
use native.Mathlib.Nat.{mod-eq_of_lt}
use assignments_for_csf.Base.{
  ℕ, zero, suc, ◌+◌, ◌*◌, ◌^◌, ◌≤◌, ◌<◌, ◌≡◌, refl, ap₂, ◌∙◌, inl, inr, arith, false, List, [], ◌∷◌,
  ◌++◌, length, Bool-cases, length-append, ◌==◌, ==_iff, ==→ne,
}
use assignments_for_csf.Libc.{hex_plain, hex_fixed, digit_value}
use assignments_for_csf.Libc.Digits.{
  hex_value, IsHex, IsTrimmed, hex_value-append, hex_fixed-IsHex, length-hex_fixed,
  hex_value-hex_fixed, hex_plain-Prints, Prints,
}
use assignments_for_csf.UInt256.{Words, UInt256, at}
use assignments_for_csf.UInt256.Value.{value, IsUInt256}
use assignments_for_csf.UInt256.Hex.{padded_words, format_as_hex}

IsHex-append : (s t : List ℕ) → IsHex s → IsHex t → IsHex (s ++ t)
IsHex-append [] t hs ht = ht
IsHex-append (c ∷ s) t hs ht = (hs.0, IsHex-append s t hs.1 ht)

padded_words-IsHex : (n : ℕ) (d : Words) → IsHex (padded_words n d)
unfolding padded_words
padded_words-IsHex zero d = tt
padded_words-IsHex (suc n) d =
    IsHex-append (hex_fixed 16 (at d n)) (padded_words n d) (hex_fixed-IsHex 16 (at d n))
      (padded_words-IsHex n d)

length-padded_words : (n : ℕ) (d : Words) → length (padded_words n d) ≡ 16 * n
unfolding padded_words
length-padded_words zero d = refl
length-padded_words (suc n) d = omega (
  arith,
  length-append (hex_fixed 16 (at d n)) (padded_words n d),
  length-hex_fixed 16 (at d n),
  length-padded_words n d,
)

-- The words below index `n` as a number.
abbrev low_words : ℕ → Words → ℕ
low_words zero d = 0
low_words (suc n) d = at d n * 16 ^ (16 * n) + low_words n d

abbrev Fit : ℕ → Words → Type 0
Fit zero d = Unit
Fit (suc n) d = (at d n < 2 ^ 64) × Fit n d

hex_value-padded_words :
    (n : ℕ) (d : Words) → Fit n d → hex_value (padded_words n d) ≡ low_words n d
unfolding padded_words
hex_value-padded_words zero d h = refl
hex_value-padded_words (suc n) d h = omega (
  arith,
  hex_value-append (hex_fixed 16 (at d n)) (padded_words n d),
  ap₂ (λ x l. x * 16 ^ l) word (length-padded_words n d),
  hex_value-padded_words n d h.1,
)
  where
    word : hex_value (hex_fixed 16 (at d n)) ≡ at d n
    word = hex_value-hex_fixed 16 (at d n) ∙ mod-eq_of_lt h.0

-- A text for a number: hexadecimal digits, no more than 64, none of them a zero in front.
pub record Formats (n : ℕ) (s : List ℕ) : Type 0 where
  pub hex : IsHex s
  pub denotes : hex_value s ≡ n
  pub short : length s ≤ 64
  pub some_digit : 1 ≤ length s
  pub trimmed : IsTrimmed s

-- In front of more digits a word that is not 0 does not begin with a zero either.
IsTrimmed-append : (s t : List ℕ) → IsHex s → ¬ (hex_value s ≡ 0) → IsTrimmed s → IsTrimmed (s ++ t)
unfolding digit_value
IsTrimmed-append [] t hs pos h = absurd (pos refl)
IsTrimmed-append (c ∷ []) [] hs pos h = tt
IsTrimmed-append (c ∷ []) (e ∷ t) hs pos h = λ zero_digit. pos (rw zero_digit refl)
IsTrimmed-append (c ∷ d ∷ s) t hs pos h = h

-- The branch for a highest word `at d n` that is not 0.
branch-Formats :
    (n x : ℕ) (d : Words)
    → n ≤ 3
    → x < 2 ^ 64
    → ¬ (x ≡ 0)
    → Fit n d
    → Formats (x * 16 ^ (16 * n) + low_words n d) (hex_plain x ++ padded_words n d)
branch-Formats n x d hn hx pos fit = record {
  hex = IsHex-append (hex_plain x) (padded_words n d) p.hex (padded_words-IsHex n d);
  denotes = omega (
    arith,
    hex_value-append (hex_plain x) (padded_words n d),
    ap₂ (λ y l. y * 16 ^ l) p.denotes (length-padded_words n d),
    hex_value-padded_words n d fit,
  );
  short =
      omega
        (arith, length-append (hex_plain x) (padded_words n d), length-padded_words n d, p.short);
  some_digit = omega (arith, length-append (hex_plain x) (padded_words n d), p.some_digit);
  trimmed = IsTrimmed-append (hex_plain x) (padded_words n d) p.hex (rw p.denotes pos) p.trimmed;
}
  where
    p : Prints x (hex_plain x)
    p = hex_plain-Prints x hx

-- Of an integer with words in range, `uint256_format_as_hex` prints the value, in at most 64 digits and without leading zeros.
pub format_as_hex-Formats : (v : UInt256) → IsUInt256 v → Formats (value v) (format_as_hex v)
unfolding format_as_hex
format_as_hex-Formats v h = elim (Bool-cases (w3 == 0)) [
  | inr p ↦
      rw p (at_place 3 w3 p h.fits3 (omega arith) (h.fits2, (h.fits1, (h.fits0, tt))) (omega arith))
  | inl e3 ↦ elim (Bool-cases (w2 == 0)) [
    | inr p ↦
        rw (e3, p)
          (at_place 2 w2 p h.fits2 (omega arith) (h.fits1, (h.fits0, tt))
            (omega (arith, (==_iff w3 0).0 e3)))
    | inl e2 ↦ elim (Bool-cases (w1 == 0)) [
      | inr p ↦
          rw (e3, e2, p)
            (at_place 1 w1 p h.fits1 (omega arith) (h.fits0, tt)
              (omega (arith, (==_iff w3 0).0 e3, (==_iff w2 0).0 e2)))
      | inl e1 ↦
          rw (e3, e2, e1)
            (lowest (omega (arith, (==_iff w3 0).0 e3, (==_iff w2 0).0 e2, (==_iff w1 0).0 e1)))
    ]
  ]
]
  where
    open v.words use {w0, w1, w2, w3}

    at_place :
        (n x : ℕ)
        → (x == 0) ≡ false
        → x < 2 ^ 64
        → n ≤ 3
        → Fit n v.words
        → x * 16 ^ (16 * n) + low_words n v.words ≡ value v
        → Formats (value v) (hex_plain x ++ padded_words n v.words)
    at_place n x p hx hn fit e = rw (← e) (branch-Formats n x v.words hn hx (==→ne x 0 p) fit)

    lowest : w0 ≡ value v → Formats (value v) (hex_plain w0)
    lowest e =
        let p : Prints w0 (hex_plain w0) = hex_plain-Prints w0 h.fits0 in
        record {
          hex = p.hex;
          denotes = p.denotes ∙ e;
          short = omega (arith, p.short);
          some_digit = p.some_digit;
          trimmed = p.trimmed;
        }
