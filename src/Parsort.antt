-- ===== src/Parsort.antt =====
-- csf_assign04/csf_assign04: `merge` of parsort.c, and is_sorted.c. An `int64_t` is its 64-bit
-- pattern. The bytes that `fread` delivers are the input, as whole values.
pub mod Merge
pub mod Sorted
pub mod Merged
pub mod Processes
pub mod Ranges
pub mod Qsort
pub mod Kids
pub mod Sorts
pub mod Program
mod Tests
use mathlib.Core.Option
use assignments_for_csf.Base.{
  ℕ, zero, suc, ◌+◌, ◌-◌, ◌%◌, ◌^◌, Bool, true, false, ◌&&◌, List, [], ◌∷◌, Option, none, some,
  Ordering, ltb, leb, get_elem?, if◌then◌else◌,
}
use Prim.Native.Nat.{lt, eq, gt}
use assignments_for_csf.Cache.{◌>>=◌}

-- The order of patterns as signed numbers.
abbrev pub signed_place : ℕ → ℕ
signed_place x = (x + 2 ^ 63) % 2 ^ 64

abbrev pub less : ℕ → ℕ → Bool
less x y = ltb (signed_place x) (signed_place y)

-- -1, 0 and 1 are `lt`, `eq` and `gt`.
unfoldable pub compare_i64 : ℕ → ℕ → Ordering
compare_i64 left right = if less left right then lt else if less right left then gt else eq

-- `cmp <= 0`
abbrev pub not_greater : Ordering → Bool
not_greater lt = true
not_greater eq = true
not_greater gt = false

-- Which side the next value comes from; a read outside the array is `none`.
unfoldable pub take_left : List ℕ → ℕ → ℕ → ℕ → ℕ → Option Bool
take_left arr left endl right endr =
    if leb endl left
    then some false
    else if leb endr right
    then some true
    else (do l ← get_elem? arr left; r ← get_elem? arr right; some (not_greater (compare_i64 l r)))

-- The values written to `temparr`, from the places that `left` and `right` point to.
unfoldable pub merge_loop : ℕ → List ℕ → ℕ → ℕ → ℕ → ℕ → Option (List ℕ)
merge_loop zero arr left endl right endr = none
merge_loop (suc fuel) arr left endl right endr = elim (leb endl left && leb endr right) [
  | true ↦ some []
  | false ↦ do
    from_left ← take_left arr left endl right endr
    x ← get_elem? arr (if from_left then left else right)
    rest ←
        merge_loop fuel arr (if from_left then left + 1 else left) endl
          (if from_left then right else right + 1) endr
    some (x ∷ rest)
]

unfoldable pub merge : List ℕ → ℕ → ℕ → ℕ → Option (List ℕ)
merge arr begin mid end = merge_loop (end - begin + 1) arr begin mid mid end

pub data Verdict : Type 0 where
  empty_file : Verdict
  values_sorted : Verdict
  not_sorted : ℕ → Verdict

-- The loop of is_sorted.c: the number of the element that is less than the one before.
unfoldable pub check_from : ℕ → ℕ → List ℕ → Verdict
check_from num_elts prev [] = values_sorted
check_from num_elts prev (curr ∷ values) =
    let later = check_from (num_elts + 1) curr values in
    if less curr prev then not_sorted (num_elts + 1) else later

unfoldable pub is_sorted : List ℕ → Verdict
is_sorted [] = empty_file
is_sorted (prev ∷ values) = check_from 1 prev values
