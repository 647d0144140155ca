-- ===== src/Parsort/Program.antt =====
-- The exits of parsort.c's `main`.
use mathlib.Core.List.{Perm}
use mathlib.Core.List.Perm
use assignments_for_csf.Base.{
  ℕ, ◌+◌, ◌^◌, ◌≤◌, ◌<◌, ◌≡◌, ◌≢◌, refl, ap, subst, ◌∙◌, arith, true, false, List, [], ◌∷◌,
  Ordering, ltb, length, append-nil,
}
use assignments_for_csf.Libc.{strtoul}
use assignments_for_csf.Parsort.Sorted.{InOrder}
use assignments_for_csf.Parsort.Processes.{
  no_trouble, Kid, Fates, Ended, returned, exits, fault, merge_sort, FileCalls, Exit, status,
  failed, crashed, finish, main,
}
use assignments_for_csf.Parsort.Qsort.{IsQsort}
use assignments_for_csf.Parsort.Sorts.{merge_sort-Sorts}
use assignments_for_csf.Parsort.Kids.{Sorts}

-- The file keeps its values, in order if the exit status is 0; a process that dies on the way makes
-- the status another.
unfoldable pub Reports : List ℕ → Exit → Type 0
Reports contents (status code out) = Perm out contents × (code ≡ 0 → InOrder out)
Reports contents (failed code) = code ≢ 0
Reports contents crashed = ⊥

abbrev pub all_succeed : FileCalls
all_succeed = record { opened = true; sized = true; mapped = true; unmapped = true; closed = true }

module _ (qsort : (ℕ → ℕ → Ordering) → List ℕ → List ℕ) (q : IsQsort qsort) (contents : List ℕ)
    (small : length contents < 2 ^ 31) where
  whole :
      (fates : Fates) (threshold : ℕ)
      → 1 ≤ threshold
      → Sorts fates [] contents []
          (merge_sort qsort (length contents + 1) fates threshold contents 0 (length contents))
  whole fates threshold pos =
      subst
        (λ arr.
          Sorts fates [] contents []
            (merge_sort qsort (length contents + 1) fates threshold arr 0 (length contents)))
        (append-nil contents)
        (merge_sort-Sorts qsort q (length contents + 1) fates threshold [] contents [] 0
          (length contents) refl (omega arith) (omega arith) pos (omega arith))

  main_returns :
      (fates : Fates) (program filename number : List ℕ) (threshold : ℕ) (arr : List ℕ)
      → strtoul 10 number ≡ (threshold, [])
      → 1 ≤ threshold
      → merge_sort qsort (length contents + 1) fates threshold contents 0 (length contents)
        ≡ returned arr
      → main qsort all_succeed fates (program ∷ filename ∷ number ∷ []) contents ≡ status 0 arr
  unfolding main finish
  main_returns fates program filename number threshold arr parsed pos e =
      let enough : ltb threshold 1 ≡ false = ground arith in
      rw (main, ap (λ p. p.1) parsed, ap (λ p. p.0) parsed, enough, e) refl

  -- With a qsort that keeps its promises and fewer than 2 ^ 31 values, if the threshold is a number
  -- of at least 1 and all calls and all child processes succeed, `main` exits with status 0, and
  -- the file then holds a permutation of its values that is in order.
  pub main-succeeds :
      (fates : Fates) (program filename number : List ℕ) (threshold : ℕ)
      → strtoul 10 number ≡ (threshold, [])
      → 1 ≤ threshold
      → ((path : List Kid) → fates path ≡ no_trouble)
      → (out : List ℕ) × (main qsort all_succeed fates (program ∷ filename ∷ number ∷ []) contents
          ≡ status 0 out)
        × InOrder out
        × Perm out contents
  unfolding Sorts
  main-succeeds fates program filename number threshold parsed pos fine =
      by_end (merge_sort qsort (length contents + 1) fates threshold contents 0 (length contents))
        refl (whole fates threshold pos)
    where
      by_end :
          (e : Ended)
          → merge_sort qsort (length contents + 1) fates threshold contents 0 (length contents) ≡ e
          → Sorts fates [] contents [] e
          → (out : List ℕ) × (main qsort all_succeed fates
                (program ∷ filename ∷ number ∷ [])
                contents
              ≡ status 0 out)
            × InOrder out
            × Perm out contents
      by_end (returned arr) e (out, same, order, perm) = (
        out,
        main_returns fates program filename number threshold arr parsed pos e
            ∙ ap (status 0) (same ∙ append-nil out),
        order,
        perm,
      )
      by_end (exits code) e (n, (path, trouble)) = absurd (trouble (fine path))
      by_end fault e h = absurd h
