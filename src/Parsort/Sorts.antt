-- ===== src/Parsort/Sorts.antt =====
-- `merge_sort` of parsort.c: what it does to its range, and when it exits.
use assignments_for_csf.Base.{
  ℕ, zero, suc, ◌+◌, ◌-◌, ◌/◌, ◌%◌, ◌^◌, ◌≤◌, ◌<◌, ◌≡◌, refl, ap, subst, ◌∙◌, sym, inl, inr, arith,
  true, false, List, [], ◌∷◌, ◌++◌, Ordering, ltb, leb, length, take, drop, append_assoc,
  length-append, length-take, length-drop, take-append-drop, Bool-cases,
}
use assignments_for_csf.Parsort.{compare_i64}
use assignments_for_csf.Parsort.Qsort.{IsQsort, Ascends-InOrder, Perm-length}
use assignments_for_csf.Parsort.Processes.{
  leftkid, rightkid, Fates, returned, copy_back, fork_kids, merge_halves, sort_range, merge_sort,
}
use assignments_for_csf.Parsort.Ranges.{copy_back-append, range-append}
use assignments_for_csf.Parsort.Kids.{Sorts, fork_kids-Sorts}

-- A range with its halves, as the program cuts it.
record Halves (l : List ℕ) : Type 0 where
  left : List ℕ
  right : List ℕ
  whole : left ++ right ≡ l
  left-length : length left ≡ length l / 2
  right-length : length right ≡ length l - length l / 2

halves : (l : List ℕ) → Halves l
halves l = record {
  left = take (length l / 2) l;
  right = drop (length l / 2) l;
  whole = take-append-drop (length l / 2) l;
  left-length = length-take (length l / 2) l ∙ omega arith;
  right-length = length-drop (length l / 2) l;
}

module _ (qsort : (ℕ → ℕ → Ordering) → List ℕ → List ℕ) (q : IsQsort qsort) where
  sort_range-Sorts :
      (fates : Fates) (before l after : List ℕ) (begin count : ℕ)
      → begin ≡ length before
      → count ≡ length l
      → Sorts fates before l after
          (returned (sort_range qsort (before ++ (l ++ after)) begin count))
  unfolding Sorts sort_range
  sort_range-Sorts fates before l after begin count eb ec =
      let read : take count (drop begin (before ++ (l ++ after))) ≡ l =
        rw (eb, ec) (range-append before l after) in
      (
        qsort compare_i64 l,
        ap (λ x. copy_back (before ++ (l ++ after)) begin (qsort compare_i64 x)) read
            ∙ copy_back-append before l (qsort compare_i64 l) after begin eb
                (Perm-length (q.perm l)),
        Ascends-InOrder (qsort compare_i64 l) (q.ascends l),
        q.perm l,
      )

  -- The calls of `merge_sort`, with the numbers worked out.
  merge_sort-short :
      (fuel : ℕ) (fates : Fates) (threshold : ℕ) (arr : List ℕ) (begin end n : ℕ)
      → (end + 2 ^ 64 - begin) % 2 ^ 64 ≡ n
      → leb n threshold ≡ true
      → merge_sort qsort (suc fuel) fates threshold arr begin end
        ≡ returned (sort_range qsort arr begin n)
  unfolding merge_sort
  merge_sort-short fuel fates threshold arr begin end n size short =
      rw (merge_sort, size, short) refl

  merge_sort-long :
      (fuel : ℕ) (fates : Fates) (threshold : ℕ) (arr : List ℕ) (begin end n mid : ℕ)
      → (end + 2 ^ 64 - begin) % 2 ^ 64 ≡ n
      → (end + begin) % 2 ^ 64 / 2 ≡ mid
      → leb n threshold ≡ false
      → ltb begin end ≡ true
      → merge_sort qsort (suc fuel) fates threshold arr begin end
        ≡ fork_kids
            (fates [])
            (merge_sort qsort fuel (λ path. fates (leftkid ∷ path)) threshold arr begin mid)
            (λ arr'.
              merge_sort qsort fuel
                (λ path. fates (rightkid ∷ path))
                threshold
                arr'
                (begin + n / 2)
                end)
            (λ arr'. merge_halves arr' begin mid end)
  unfolding merge_sort
  merge_sort-long fuel fates threshold arr begin end n mid size middle long more =
      rw (merge_sort, size, middle, long, more) refl

  pub merge_sort-Sorts :
      (fuel : ℕ) (fates : Fates) (threshold : ℕ) (before l after : List ℕ) (begin end : ℕ)
      → begin ≡ length before
      → end ≡ begin + length l
      → end < 2 ^ 62
      → 1 ≤ threshold
      → length l < fuel
      → Sorts fates before l after
          (merge_sort qsort fuel fates threshold (before ++ (l ++ after)) begin end)
  merge_sort-Sorts zero fates threshold before l after begin end eb ee small pos h =
      absurd (omega arith)
  merge_sort-Sorts (suc fuel) fates threshold before l after begin end eb ee small pos h =
      let half = length l / 2 in
      let mid = begin + half in
      let size : (end + 2 ^ 64 - begin) % 2 ^ 64 ≡ length l = omega arith in
      let middle : (end + begin) % 2 ^ 64 / 2 ≡ mid = omega arith in
      let on_left = λ (arr : List ℕ).
        merge_sort qsort fuel (λ path. fates (leftkid ∷ path)) threshold arr begin mid in
      let on_right = λ (arr : List ℕ).
        merge_sort qsort fuel (λ path. fates (rightkid ∷ path)) threshold arr (begin + half) end in
      let deeper = λ (arr : List ℕ).
        fork_kids (fates []) (on_left arr) on_right (λ arr'. merge_halves arr' begin mid end) in
      elim (Bool-cases (leb (length l) threshold)) [
        | inl e ↦
            subst (Sorts fates before l after)
              (sym (
                merge_sort-short fuel fates threshold (before ++ (l ++ after)) begin end (length l)
                  size e))
              (sort_range-Sorts fates before l after begin (length l) eb refl)
        | inr e ↦
            let two : 2 ≤ length l = ground arith in
            let more : ltb begin end ≡ true = ground arith in
            subst (Sorts fates before l after)
              (sym (
                merge_sort-long fuel fates threshold (before ++ (l ++ after)) begin end (length l)
                  mid size middle e more))
              (subst (λ x. Sorts fates before x after (deeper (before ++ (x ++ after)))) parts.whole
                (fork_kids-Sorts fates before left right after begin mid end
                  (on_left (before ++ ((left ++ right) ++ after))) on_right eb
                  (omega (arith, parts.left-length))
                  (omega (arith, parts.left-length, parts.right-length))
                  (subst
                    (λ arr.
                      Sorts (λ path. fates (leftkid ∷ path)) before left (right ++ after)
                        (on_left arr))
                    (ap (λ x. before ++ x) (sym (append_assoc left right after)))
                    (merge_sort-Sorts fuel (λ path. fates (leftkid ∷ path)) threshold before left
                      (right ++ after) begin mid eb (omega (arith, parts.left-length)) (omega arith)
                      pos (omega (arith, parts.left-length))))
                  (λ l' same.
                    merge_sort-Sorts fuel (λ path. fates (rightkid ∷ path)) threshold (before ++ l')
                      right after (begin + half) end
                      (omega (arith, length-append before l', parts.left-length))
                      (omega (arith, parts.right-length)) small pos
                      (omega (arith, parts.right-length)))))
      ]
    where
      parts : Halves l
      parts = halves l

      open parts use {left, right}
