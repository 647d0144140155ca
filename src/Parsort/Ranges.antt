-- ===== src/Parsort/Ranges.antt =====
-- A range of an array, read as a list and written back.
use assignments_for_csf.Base.{
  ℕ, ◌+◌, ◌≡◌, refl, ap, ◌∙◌, sym, arith, List, [], ◌∷◌, ◌++◌, length, take, drop, set,
  append_assoc, length-append,
}
use assignments_for_csf.Parsort.Processes.{copy_back}

set-append {ℓ} :
    {A : Type ℓ} (before : List A) (old x : A) (after : List A)
    → set (before ++ old ∷ after) (length before) x ≡ before ++ x ∷ after
set-append [] old x after = refl
set-append (y ∷ before) old x after = ap (◌∷◌ y) (set-append before old x after)

-- Writing as many values as the range has replaces it.
pub copy_back-append :
    (before old temp after : List ℕ) (begin : ℕ)
    → begin ≡ length before
    → length temp ≡ length old
    → copy_back (before ++ (old ++ after)) begin temp ≡ before ++ (temp ++ after)
unfolding copy_back
copy_back-append before [] [] after begin e n = refl
copy_back-append before (y ∷ old) [] after begin e n = absurd (omega arith)
copy_back-append before [] (x ∷ temp) after begin e n = absurd (omega arith)
copy_back-append before (y ∷ old) (x ∷ temp) after begin e n =
    ap (λ arr. copy_back arr (begin + 1) temp)
      (ap (λ (i : ℕ). set (before ++ y ∷ (old ++ after)) i x) e
        ∙ set-append before y x (old ++ after)
        ∙ sym (append_assoc before (x ∷ []) (old ++ after)))
    ∙ copy_back-append (before ++ x ∷ []) old temp after (begin + 1)
        (omega (arith, length-append before (x ∷ []))) (omega arith)
    ∙ append_assoc before (x ∷ []) (temp ++ after)

take-append {ℓ} : {A : Type ℓ} (l after : List A) → take (length l) (l ++ after) ≡ l
take-append [] after = refl
take-append (x ∷ l) after = ap (◌∷◌ x) (take-append l after)

pub drop-append {ℓ} : {A : Type ℓ} (before l : List A) → drop (length before) (before ++ l) ≡ l
drop-append [] l = refl
drop-append (x ∷ before) l = drop-append before l

pub range-append {ℓ} :
    {A : Type ℓ} (before l after : List A)
    → take (length l) (drop (length before) (before ++ (l ++ after))) ≡ l
range-append before l after = rw (drop-append before (l ++ after)) (take-append l after)
