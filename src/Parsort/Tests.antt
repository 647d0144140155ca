-- ===== src/Parsort/Tests.antt =====
-- The merge, the sort and the check at small arrays, with an insertion sort in the place of `qsort`.
use mathlib.Core.List.{Perm}
use mathlib.Core.List.Perm
use assignments_for_csf.Base.{ℕ, ◌≡◌, ◌↔◌, refl, arith, List, [], ◌∷◌, some, Ordering, codes}
use assignments_for_csf.Libc.{
  strtoul, skip_prefix, read_sign, skip_spaces, isspace, is_digit, digit_value, read_digits,
}
use assignments_for_csf.Parsort.{compare_i64, merge, is_sorted, values_sorted}
use assignments_for_csf.Parsort.Merged.{
  merged, merged-perm, merged-InOrder, le-not_greater, merge-InOrder,
}
use assignments_for_csf.Parsort.Sorted.{AllFrom, InOrder, is_sorted_iff}
use assignments_for_csf.Parsort.Processes.{no_trouble, status, main}
use assignments_for_csf.Parsort.Qsort.{NoneBefore, Ascends, IsQsort}
use assignments_for_csf.Parsort.Program.{all_succeed, main-succeeds}

abbrev arr : List ℕ
arr = 4 ∷ 9 ∷ 2 ∷ 5 ∷ []

is_sorted_iff_example : (is_sorted arr ≡ values_sorted) ↔ InOrder arr
is_sorted_iff_example = is_sorted_iff 4 (9 ∷ 2 ∷ 5 ∷ [])

left-InOrder : InOrder (4 ∷ 9 ∷ [])
unfolding InOrder AllFrom
left-InOrder = omega arith

right-InOrder : InOrder (2 ∷ 5 ∷ [])
unfolding InOrder AllFrom
right-InOrder = omega arith

merge-InOrder_example :
    (out : List ℕ) × (merge arr 0 2 4 ≡ some out) × InOrder out × Perm out (4 ∷ 9 ∷ 2 ∷ 5 ∷ [])
merge-InOrder_example =
    merge-InOrder [] (4 ∷ 9 ∷ []) (2 ∷ 5 ∷ []) [] 0 2 4 refl refl refl left-InOrder right-InOrder

insertion_sort : (ℕ → ℕ → Ordering) → List ℕ → List ℕ
insertion_sort cmp [] = []
insertion_sort cmp (x ∷ l) = merged (x ∷ []) (insertion_sort cmp l)

AllFrom-NoneBefore : (x : ℕ) (l : List ℕ) → AllFrom x l → NoneBefore compare_i64 x l
unfolding AllFrom NoneBefore
AllFrom-NoneBefore x [] h = tt
AllFrom-NoneBefore x (y ∷ l) (le, h) = (le-not_greater x y le, AllFrom-NoneBefore x l h)

InOrder-Ascends : (l : List ℕ) → InOrder l → Ascends compare_i64 l
unfolding InOrder Ascends
InOrder-Ascends [] h = tt
InOrder-Ascends (x ∷ l) (first, h) = (AllFrom-NoneBefore x l first, InOrder-Ascends l h)

insertion_sort-InOrder : (cmp : ℕ → ℕ → Ordering) (l : List ℕ) → InOrder (insertion_sort cmp l)
unfolding insertion_sort InOrder AllFrom
insertion_sort-InOrder cmp [] = tt
insertion_sort-InOrder cmp (x ∷ l) =
    merged-InOrder (x ∷ []) (insertion_sort cmp l) (tt, tt) (insertion_sort-InOrder cmp l)

insertion_sort-perm : (cmp : ℕ → ℕ → Ordering) (l : List ℕ) → Perm (insertion_sort cmp l) l
unfolding insertion_sort
insertion_sort-perm cmp [] = Perm.rfl
insertion_sort-perm cmp (x ∷ l) =
    Perm.trans (merged-perm (x ∷ []) (insertion_sort cmp l))
      (Perm.cons x (insertion_sort-perm cmp l))

insertion_sort-IsQsort : IsQsort insertion_sort
insertion_sort-IsQsort = record {
  ascends =
      λ l. InOrder-Ascends (insertion_sort compare_i64 l) (insertion_sort-InOrder compare_i64 l);
  perm = insertion_sort-perm compare_i64;
}

abbrev words : List (List ℕ)
words = codes "parsort" ∷ codes "numbers" ∷ codes "2" ∷ []

number_2 : strtoul 10 (codes "2") ≡ (2, [])
unfolding strtoul skip_prefix read_sign skip_spaces isspace is_digit digit_value read_digits
number_2 = refl

main-succeeds_example :
    (out : List ℕ) × (main insertion_sort all_succeed (λ path. no_trouble) words arr ≡ status 0 out)
    × InOrder out
    × Perm out arr
main-succeeds_example =
    main-succeeds insertion_sort insertion_sort-IsQsort arr (omega arith) (λ path. no_trouble)
      (codes "parsort") (codes "numbers") (codes "2") 2 number_2 (omega arith) (λ path. refl)
