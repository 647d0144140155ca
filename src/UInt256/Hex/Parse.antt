-- ===== src/UInt256/Hex/Parse.antt =====
-- What uint256_create_from_hex reads.
use native.Mathlib.Nat.{mod-eq_of_lt}
use assignments_for_csf.Base.{
  ℕ, zero, suc, ◌+◌, ◌-◌, ◌*◌, ◌/◌, ◌%◌, ◌^◌, ◌≤◌, ◌<◌, ◌≡◌, refl, sym, ap, ◌∙◌, inl, inr, arith,
  List, [], ◌∷◌, length, Bool-cases, ltb, some, lt→ltb, ltb→lt, ltb→le, take, drop,
  take-append-drop, take_all, drop_all, drop-drop, length-take, length-drop,
}
use assignments_for_csf.Libc.Digits.{
  hex_value, IsHex, hex_value-append, hex_value-lt, pow-le-word, strtoul-hex,
}
use assignments_for_csf.UInt256.{Words, UInt256, put, zeros}
use assignments_for_csf.UInt256.Value.{value, value_words, IsUInt256, value-lt}
use assignments_for_csf.UInt256.Hex.{
  slice, parse_word, store_groups, from_short, from_long, create_from_hex, format_as_hex,
}
use assignments_for_csf.UInt256.Hex.Print.{format_as_hex-Formats}

IsHex-take : (n : ℕ) (s : List ℕ) → IsHex s → IsHex (take n s)
IsHex-take zero s h = tt
IsHex-take (suc n) [] h = tt
IsHex-take (suc n) (c ∷ s) h = (h.0, IsHex-take n s h.1)

IsHex-drop : (n : ℕ) (s : List ℕ) → IsHex s → IsHex (drop n s)
IsHex-drop zero s h = h
IsHex-drop (suc n) [] h = tt
IsHex-drop (suc n) (c ∷ s) h = IsHex-drop n s h.1

hex_value-split :
    (n : ℕ) (s : List ℕ)
    → hex_value s ≡ hex_value (take n s) * 16 ^ (length s - n) + hex_value (drop n s)
hex_value-split n s =
    ap hex_value (sym (take-append-drop n s))
    ∙ hex_value-append (take n s) (drop n s)
    ∙ ap (λ l. hex_value (take n s) * 16 ^ l + hex_value (drop n s)) (length-drop n s)

-- A word read from the `n` digits at `i`: it fits, and splits them off the number.
record Group (s : List ℕ) (i n : ℕ) : Type 0 where
  fits : parse_word (slice s i n) < 2 ^ 64
  splits :
      hex_value (drop i s)
      ≡ parse_word (slice s i n) * 16 ^ (length s - (i + n)) + hex_value (drop (i + n) s)

read-Group : (s : List ℕ) (i n : ℕ) → IsHex s → n ≤ 16 → Group s i n
read-Group s i n h short = record {
  fits = rw parsed (
      omega (
        arith,
        hex_value-lt (slice s i n) (IsHex-take n (drop i s) (IsHex-drop i s h)),
        pow-le-word (length (slice s i n)) (omega (arith, length-take n (drop i s))),
      ));
  splits =
      rw (parsed, ← drop-drop n i s)
        (hex_value-split n (drop i s)
          ∙ ap (λ l. hex_value (slice s i n) * 16 ^ l + hex_value (drop n (drop i s))) place);
}
  where
    place : length (drop i s) - n ≡ length s - (i + n)
    place = omega (arith, length-drop i s)

    parsed : parse_word (slice s i n) ≡ hex_value (slice s i n)
    parsed =
        strtoul-hex (slice s i n) (IsHex-take n (drop i s) (IsHex-drop i s h))
          (omega (arith, length-take n (drop i s)))

-- Four groups, of which those above the highest are empty.
module _ (rest : List ℕ) (h : IsHex rest) where
  abbrev group : ℕ → ℕ
  group i = parse_word (slice rest i 16)

  peel :
      (i n : ℕ)
      → length rest ≡ n
      → hex_value (drop i rest) ≡ group i * 16 ^ (n - (i + 16)) + hex_value (drop (i + 16) rest)
  peel i n e = rw (← e) (read-Group rest i 16 h (omega arith)).splits

  last_digits : (n : ℕ) → length rest ≡ n → hex_value (drop n rest) ≡ 0
  last_digits n e = rw (drop_all n rest (omega arith)) refl

  group-lt : (i : ℕ) → group i < 2 ^ 64
  group-lt i = (read-Group rest i 16 h (omega arith)).fits

  one_group : length rest ≡ 16 → hex_value rest ≡ group 0
  one_group e = omega (arith, peel 0 16 e, last_digits 16 e)

  two_groups : length rest ≡ 32 → hex_value rest ≡ 2 ^ 64 * group 0 + group 16
  two_groups e = omega (arith, peel 0 32 e, peel 16 32 e, last_digits 32 e)

  three_groups :
      length rest ≡ 48 → hex_value rest ≡ 2 ^ 128 * group 0 + 2 ^ 64 * group 16 + group 32
  three_groups e = omega (arith, peel 0 48 e, peel 16 48 e, peel 32 48 e, last_digits 48 e)

  four_groups :
      length rest ≡ 64
      → hex_value rest ≡ 2 ^ 192 * group 0 + 2 ^ 128 * group 16 + 2 ^ 64 * group 32 + group 48
  four_groups e =
      omega (arith, peel 0 64 e, peel 16 64 e, peel 32 64 e, peel 48 64 e, last_digits 64 e)

  -- The words that the loop stores beside the digits in front.
  store_groups_lem :
      (quo significant : ℕ)
      → quo ≤ 3
      → length rest ≡ 16 * quo
      → significant < 2 ^ 64
      → let d = store_groups quo 0 quo rest (put zeros quo significant) in
        IsUInt256 (record { words = d })
        × (value_words d ≡ significant * 16 ^ (16 * quo) + hex_value rest)
  unfolding store_groups
  store_groups_lem zero sig q e hs = (omega arith, omega (arith, last_digits 0 e))
  store_groups_lem (suc zero) sig q e hs = (omega (arith, group-lt), omega (arith, one_group e))
  store_groups_lem (suc (suc zero)) sig q e hs =
      (omega (arith, group-lt), omega (arith, two_groups e))
  store_groups_lem (suc (suc (suc zero))) sig q e hs =
      (omega (arith, group-lt), omega (arith, three_groups e))
  store_groups_lem (suc (suc (suc (suc quo)))) sig q e hs = absurd (omega arith)

-- What both branches give for the text `s`.
abbrev pub Reads : List ℕ → Words → Type 0
Reads s d = IsUInt256 (record { words = d }) × (value_words d ≡ hex_value s % 2 ^ 256)

module _ (s : List ℕ) (h : IsHex s) where
  read_short : length s < 64 → Reads s (from_short s)
  unfolding from_short
  read_short short = (stored.0, stored.1 ∙ omega (arith, whole, stored.1, value-lt _ stored.0))
    where
      front : Group s 0 (length s % 16)
      front = read-Group s 0 (length s % 16) h (omega arith)

      rest : List ℕ
      rest = slice s (length s % 16) (length s - length s % 16)

      rest-eq : rest ≡ drop (length s % 16) s
      rest-eq =
          take_all (length s - length s % 16) (drop (length s % 16) s)
            (omega (arith, length-drop (length s % 16) s))

      length-rest : length rest ≡ 16 * (length s / 16)
      length-rest = rw rest-eq (omega (arith, length-drop (length s % 16) s))

      stored :
          let d =
            store_groups
              (length s / 16)
              0
              (length s / 16)
              rest
              (put zeros (length s / 16) (parse_word (slice s 0 (length s % 16)))) in
          IsUInt256 (record { words = d })
          × (value_words d
              ≡ parse_word (slice s 0 (length s % 16)) * 16 ^ (16 * (length s / 16))
                + hex_value rest)
      stored =
          store_groups_lem rest (rw rest-eq (IsHex-drop (length s % 16) s h)) (length s / 16)
            (parse_word (slice s 0 (length s % 16))) (omega arith) length-rest front.fits

      exponent : length s - length s % 16 ≡ 16 * (length s / 16)
      exponent = omega arith

      whole :
          parse_word (slice s 0 (length s % 16)) * 16 ^ (16 * (length s / 16)) + hex_value rest
          ≡ hex_value s
      whole =
          let e : 0 + length s % 16 ≡ length s % 16 = omega arith in
          rw (rest-eq, ← exponent) (sym (rw e at front.splits))

  read_long : 64 ≤ length s → Reads s (from_long s)
  unfolding from_long
  read_long long = rw newstuff-eq (
    omega (arith, group-lt tail tail-IsHex, group-lt tail tail-IsHex 0),
    omega (
      arith,
      four_groups tail tail-IsHex length-tail,
      whole,
      hex_value-lt tail tail-IsHex,
      ap (λ l. 16 ^ l) length-tail,
    ),
  )
    where
      tail : List ℕ
      tail = drop (length s - 64) s

      tail-IsHex : IsHex tail
      tail-IsHex = IsHex-drop (length s - 64) s h

      length-tail : length tail ≡ 64
      length-tail = omega (arith, length-drop (length s - 64) s)

      newstuff-eq : slice s (length s - 64) 64 ≡ tail
      newstuff-eq = take_all 64 tail (omega (arith, length-tail))

      whole : hex_value s ≡ hex_value (take (length s - 64) s) * 2 ^ 256 + hex_value tail
      whole =
          let e : length s - (length s - 64) ≡ 64 = omega arith in
          hex_value-split (length s - 64) s
          ∙ ap (λ l. hex_value (take (length s - 64) s) * 16 ^ l + hex_value tail) e

-- A text of fewer than 2 ^ 31 hexadecimal digits is read to the number that it stands for, modulo
-- 2 ^ 256: of more than 64 digits the last 64 count.
pub create_from_hex_lem :
    (s : List ℕ)
    → IsHex s
    → length s < 2 ^ 31
    → (words : Words) × (create_from_hex s ≡ some (record { words = words })) × Reads s words
unfolding create_from_hex
create_from_hex_lem s h small =
    rw (lt→ltb (length s) (2 ^ 31) small) (elim (Bool-cases (ltb (length s) 64)) [
      | inl short ↦ rw short (_, refl, read_short s h (ltb→lt _ _ short))
      | inr long ↦ rw long (_, refl, read_long s h (ltb→le _ _ long))
    ])

value-injective : (v w : UInt256) → IsUInt256 v → IsUInt256 w → value v ≡ value w → v ≡ w
value-injective v w hv hw e = ground arith

-- Reading back what was printed of an integer with words in range gives the same words.
pub create_from_hex-format_as_hex :
    (v : UInt256) → IsUInt256 v → create_from_hex (format_as_hex v) ≡ some v
create_from_hex-format_as_hex v h =
    let printed = format_as_hex-Formats v h in
    let (words, returns, read) =
      create_from_hex_lem (format_as_hex v) printed.hex (omega (arith, printed.short)) in
    let back : UInt256 = record { words = words } in
    returns
    ∙ ap some (
        value-injective back v read.0 h
          (read.1 ∙ ap (λ n. n % 2 ^ 256) printed.denotes ∙ mod-eq_of_lt (value-lt v h)))
