-- ===== src/Parsort/Qsort.antt =====
-- What parsort.c relies on of the C library's `qsort`.
use mathlib.Core.List.{Perm, Permᴰ}
use mathlib.Core.Logic.{∥∥₁_elim}
use native.Mathlib.Nat.{ℕ_set}
use assignments_for_csf.Base.{ℕ, ◌≡◌, refl, sym, arith, true, List, [], ◌∷◌, Ordering, length}
use assignments_for_csf.Parsort.{compare_i64, not_greater}
use assignments_for_csf.Parsort.Sorted.{AllFrom, InOrder}
use assignments_for_csf.Parsort.Merged.{not_greater-le}

-- No value of the list compares as less than `x`, and none as less than one before it.
unfoldable pub NoneBefore : (ℕ → ℕ → Ordering) → ℕ → List ℕ → Type 0
NoneBefore cmp x [] = Unit
NoneBefore cmp x (y ∷ l) = (not_greater (cmp x y) ≡ true) × NoneBefore cmp x l

unfoldable pub Ascends : (ℕ → ℕ → Ordering) → List ℕ → Type 0
Ascends cmp [] = Unit
Ascends cmp (x ∷ l) = NoneBefore cmp x l × Ascends cmp l

-- What `qsort` promises for the comparison of the program.
pub record IsQsort (qsort : (ℕ → ℕ → Ordering) → List ℕ → List ℕ) : Type 0 where
  pub ascends : (l : List ℕ) → Ascends compare_i64 (qsort compare_i64 l)
  pub perm : (l : List ℕ) → Perm (qsort compare_i64 l) l

NoneBefore-AllFrom : (x : ℕ) (l : List ℕ) → NoneBefore compare_i64 x l → AllFrom x l
unfolding NoneBefore AllFrom
NoneBefore-AllFrom x [] h = tt
NoneBefore-AllFrom x (y ∷ l) (e, h) = (not_greater-le x y e, NoneBefore-AllFrom x l h)

pub Ascends-InOrder : (l : List ℕ) → Ascends compare_i64 l → InOrder l
unfolding Ascends InOrder
Ascends-InOrder [] h = tt
Ascends-InOrder (x ∷ l) (b, h) = (NoneBefore-AllFrom x l b, Ascends-InOrder l h)

Permᴰ-length {ℓ} : {A : Type ℓ} {l r : List A} → Permᴰ l r → length r ≡ length l
Permᴰ-length Permᴰ.nil = refl
Permᴰ-length (Permᴰ.cons e p) = omega (arith, Permᴰ-length p)
Permᴰ-length (Permᴰ.swap e f) = refl
Permᴰ-length (Permᴰ.trans p q) = omega (arith, Permᴰ-length p, Permᴰ-length q)

pub Perm-length {ℓ} : {A : Type ℓ} {l r : List A} → Perm l r → length l ≡ length r
Perm-length p = ∥∥₁_elim p (ℕ_set _ _) (λ d. sym (Permᴰ-length d))
