-- ===== src/Parsort/Processes.antt =====
-- csf_assign04/csf_assign04/parsort.c: `merge_sort`, which sorts the halves of a range in two child
-- processes, and `main`. The mapped file is shared, so a child's writes are seen by its parent.
-- `qsort` is not in the source and is a parameter; what `fork`, `waitpid` and the calls on the file
-- answer is part of the input. `malloc` is taken to succeed, and the file to have fewer than 2 ^ 31
-- values, as the int counter of the copying loop needs.
use assignments_for_csf.Base.{
  ℕ, zero, suc, ◌+◌, ◌-◌, ◌/◌, ◌%◌, ◌^◌, Bool, true, false, not, List, [], ◌∷◌, none, some,
  Ordering, ltb, leb, length, take, drop, set, if◌then◌else◌,
}
use assignments_for_csf.Libc.{strtoul}
use assignments_for_csf.Parsort.{compare_i64, merge}

-- What `waitpid` reports of a child: nothing, an abnormal end, or the child's own exit status.
pub data Wait : Type 0 where
  wait_failed : Wait
  not_exited : Wait
  exited : Wait

-- The answers that one process gets.
pub record Answers : Type 0 where
  pub left_fork : Bool
  pub right_fork : Bool
  pub left_wait : Wait
  pub right_wait : Wait

abbrev pub no_trouble : Answers
no_trouble = record { left_fork = true; right_fork = true; left_wait = exited; right_wait = exited }

pub data Kid : Type 0 where
  leftkid : Kid
  rightkid : Kid

-- The answers to each process, which is known by its way down from the first.
abbrev pub Fates : Type 0
Fates = List Kid → Answers

-- A process ends its call of `merge_sort` with the array after it, or it exits with a status. The
-- fault is a read outside the array, or a lack of fuel.
pub data Ended : Type 0 where
  returned : List ℕ → Ended
  exits : ℕ → Ended
  fault : Ended

-- Writing values from place `begin` on.
unfoldable pub copy_back : List ℕ → ℕ → List ℕ → List ℕ
copy_back arr begin [] = arr
copy_back arr begin (x ∷ temp) = copy_back (set arr begin x) (begin + 1) temp

-- The checks on the child that is waited for: the exit statuses of the parent, or its next step.
unfoldable pub after_kid : Wait → Ended → ℕ → ℕ → ℕ → (List ℕ → Ended) → Ended
after_kid wait_failed kid no_wait abnormal nonzero next = exits no_wait
after_kid not_exited kid no_wait abnormal nonzero next = exits abnormal
after_kid exited (returned arr) no_wait abnormal nonzero next = next arr
after_kid exited (exits status) no_wait abnormal nonzero next = exits nonzero
after_kid exited fault no_wait abnormal nonzero next = fault

unfoldable pub merge_halves : List ℕ → ℕ → ℕ → ℕ → Ended
merge_halves arr begin mid end = elim (merge arr begin mid end) [
  | none ↦ fault
  | some temp ↦ returned (copy_back arr begin temp)
]

-- Both forks, and the waits for both children.
unfoldable pub fork_kids : Answers → Ended → (List ℕ → Ended) → (List ℕ → Ended) → Ended
fork_kids now left right merged =
    if not now.left_fork
    then exits 255
    else if not now.right_fork
    then exits 1
    else after_kid now.left_wait left 254 253 252
        (λ arr'. after_kid now.right_wait (right arr') 2 3 4 merged)

module _ (qsort : (ℕ → ℕ → Ordering) → List ℕ → List ℕ) where
  -- `qsort(arr + begin, count, sizeof(int64_t), compare_i64)`
  unfoldable pub sort_range : List ℕ → ℕ → ℕ → List ℕ
  sort_range arr begin count = copy_back arr begin (qsort compare_i64 (take count (drop begin arr)))

  -- The numbers of type `size_t` wrap.
  unfoldable pub merge_sort : ℕ → Fates → ℕ → List ℕ → ℕ → ℕ → Ended
  merge_sort zero fates threshold arr begin end = fault
  merge_sort (suc fuel) fates threshold arr begin end =
      let prob_size = (end + 2 ^ 64 - begin) % 2 ^ 64 in
      let mid = (end + begin) % 2 ^ 64 / 2 in
      let deeper =
        fork_kids (fates [])
          (merge_sort fuel (λ path. fates (leftkid ∷ path)) threshold arr begin mid)
          (λ arr'.
            merge_sort fuel (λ path. fates (rightkid ∷ path)) threshold arr' (begin + prob_size / 2)
              end)
          (λ arr'. merge_halves arr' begin mid end) in
      if leb prob_size threshold
      then returned (sort_range arr begin prob_size)
      else if ltb begin end
      then deeper
      else returned arr

-- Which of the calls on the file succeed.
pub record FileCalls : Type 0 where
  pub opened : Bool
  pub sized : Bool
  pub mapped : Bool
  pub unmapped : Bool
  pub closed : Bool

-- The exit status with the contents of the file; after a failed sort the contents are not known.
pub data Exit : Type 0 where
  status : ℕ → List ℕ → Exit
  failed : ℕ → Exit
  crashed : Exit

abbrev pub is_empty : List ℕ → Bool
is_empty [] = true
is_empty (c ∷ s) = false

unfoldable pub finish : FileCalls → Ended → Exit
finish calls (returned arr) =
    if not calls.unmapped
    then status 3 arr
    else if not calls.closed
    then status 3 arr
    else status 0 arr
finish calls (exits code) = failed code
finish calls fault = crashed

-- `main` with the words of the command line, on the values of the file; the bytes after the last
-- whole value stay as they are.
unfoldable pub main :
    ((ℕ → ℕ → Ordering) → List ℕ → List ℕ) → FileCalls → Fates → List (List ℕ) → List ℕ → Exit
main qsort calls fates (program ∷ filename ∷ number ∷ []) contents =
    let (threshold, rest) = strtoul 10 number in
    if not (is_empty rest)
    then status 2 contents
    else if ltb threshold 1
    then status 2 contents
    else if not (calls.opened)
    then status 1 contents
    else if not (calls.sized)
    then status 1 contents
    else if not (calls.mapped)
    then status 1 contents
    else finish calls
        (merge_sort qsort (length contents + 1) fates threshold contents 0 (length contents))
main qsort calls fates words contents = status 1 contents
