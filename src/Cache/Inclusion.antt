-- ===== src/Cache/Inclusion.antt =====
-- Lists of blocks whose tags are a subsequence of another list's.
pub mod Sets
pub mod Accesses
pub mod Runs
use assignments_for_csf.Base.{
  ℕ, ◌≤◌, ◌≡◌, refl, ap, ◌∙◌, inl, inr, arith, Bool, false, List, [], ◌∷◌, none, length, ◌==◌,
  Bool-cases,
}
use assignments_for_csf.Cache.Spec.{Line, lookup, remove, drop_last, mark}

pub data Sub : List Line → List Line → Type 0 where
  empty : (ys : List Line) → Sub [] ys
  skip : (y : Line) (xs ys : List Line) → Sub xs ys → Sub xs (y ∷ ys)
  keep : (x y : Line) (xs ys : List Line) → x.tag ≡ y.tag → Sub xs ys → Sub (x ∷ xs) (y ∷ ys)

length-Sub : (xs ys : List Line) → Sub xs ys → length xs ≤ length ys
length-Sub _ _ (empty ys) = omega arith
length-Sub _ _ (skip y xs ys s) = omega (arith, length-Sub xs ys s)
length-Sub _ _ (keep x y xs ys e s) = omega (arith, length-Sub xs ys s)

-- What is not in the longer list is not in the shorter.
pub lookup-Sub : (t : ℕ) (xs ys : List Line) → Sub xs ys → lookup t ys ≡ none → lookup t xs ≡ none
unfolding lookup
lookup-Sub t _ _ (empty ys) h = refl
lookup-Sub t _ _ (skip y xs ys s) h = ground (arith, lookup-Sub t xs ys s)
lookup-Sub t _ _ (keep x y xs ys e s) h = ground (arith, lookup-Sub t xs ys s)

-- A list of the same length has the same tags.
pub lookup-Sub_full :
    (t : ℕ) (xs ys : List Line)
    → Sub xs ys
    → length xs ≡ length ys
    → lookup t xs ≡ none
    → lookup t ys ≡ none
unfolding lookup
lookup-Sub_full t _ _ (empty []) n h = refl
lookup-Sub_full t _ _ (empty (y ∷ ys)) n h = absurd (omega arith)
lookup-Sub_full t _ _ (skip y xs ys s) n h = absurd (omega (arith, length-Sub xs ys s))
lookup-Sub_full t _ _ (keep x y xs ys e s) n h = ground (arith, lookup-Sub_full t xs ys s)

remove-left : (t : ℕ) (xs ys : List Line) → Sub xs ys → Sub (remove t xs) ys
unfolding remove
remove-left t _ _ (empty ys) = empty ys
remove-left t _ _ (skip y xs ys s) = skip y (remove t xs) ys (remove-left t xs ys s)
remove-left t _ _ (keep x y xs ys e s) = elim (Bool-cases (x.tag == t)) [
  | inl here ↦ rw here (skip y xs ys s)
  | inr there ↦ rw there (keep x y (remove t xs) ys e (remove-left t xs ys s))
]

pub remove-Sub : (t : ℕ) (xs ys : List Line) → Sub xs ys → Sub (remove t xs) (remove t ys)
unfolding remove
remove-Sub t _ _ (empty ys) = empty (remove t ys)
remove-Sub t _ _ (skip y xs ys s) = elim (Bool-cases (y.tag == t)) [
  | inl here ↦ rw here (remove-left t xs ys s)
  | inr there ↦ rw there (skip y (remove t xs) (remove t ys) (remove-Sub t xs ys s))
]
remove-Sub t _ _ (keep x y xs ys e s) =
    let same = ap (λ (n : ℕ). n == t) e in
    elim (Bool-cases (y.tag == t)) [
      | inl here ↦ rw (same ∙ here, here) s
      | inr there ↦
          rw (same ∙ there, there) (keep x y (remove t xs) (remove t ys) e (remove-Sub t xs ys s))
    ]

-- A tag that the shorter list does not have may leave the longer.
pub remove-right :
    (t : ℕ) (xs ys : List Line) → Sub xs ys → lookup t xs ≡ none → Sub xs (remove t ys)
unfolding remove lookup
remove-right t _ _ (empty ys) h = empty (remove t ys)
remove-right t _ _ (skip y xs ys s) h = elim (Bool-cases (y.tag == t)) [
  | inl here ↦ rw here s
  | inr there ↦ rw there (skip y xs (remove t ys) (remove-right t xs ys s h))
]
remove-right t _ _ (keep x y xs ys e s) h =
    let other : (x.tag == t) ≡ false = ground arith in
    let other' : (y.tag == t) ≡ false = ground arith in
    rw other' (keep x y xs (remove t ys) e (remove-right t xs ys s (ground arith)))

pub drop_last-left : (xs ys : List Line) → Sub xs ys → Sub (drop_last xs) ys
unfolding drop_last
drop_last-left _ _ (empty ys) = empty ys
drop_last-left _ _ (skip y xs ys s) = skip y (drop_last xs) ys (drop_last-left xs ys s)
drop_last-left _ _ (keep x y [] ys e s) = empty (y ∷ ys)
drop_last-left _ _ (keep x y (z ∷ xs) ys e s) =
    keep x y (drop_last (z ∷ xs)) ys e (drop_last-left (z ∷ xs) ys s)

pub drop_last-Sub : (xs ys : List Line) → Sub xs ys → Sub (drop_last xs) (drop_last ys)
unfolding drop_last
drop_last-Sub _ _ (empty ys) = empty (drop_last ys)
drop_last-Sub _ _ (skip y [] ys s) = empty (drop_last (y ∷ ys))
drop_last-Sub _ _ (skip y (x ∷ xs) [] s) = absurd (omega (arith, length-Sub (x ∷ xs) [] s))
drop_last-Sub _ _ (skip y (x ∷ xs) (z ∷ ys) s) =
    skip y (drop_last (x ∷ xs)) (drop_last (z ∷ ys)) (drop_last-Sub (x ∷ xs) (z ∷ ys) s)
drop_last-Sub _ _ (keep x y [] ys e s) = empty (drop_last (y ∷ ys))
drop_last-Sub _ _ (keep x y (z ∷ xs) [] e s) = absurd (omega (arith, length-Sub (z ∷ xs) [] s))
drop_last-Sub _ _ (keep x y (z ∷ xs) (w ∷ ys) e s) =
    keep x y (drop_last (z ∷ xs)) (drop_last (w ∷ ys)) e (drop_last-Sub (z ∷ xs) (w ∷ ys) s)

-- Marking a block keeps its tag.
pub mark-left : (t : ℕ) (d : Bool) (xs ys : List Line) → Sub xs ys → Sub (mark t d xs) ys
unfolding mark
mark-left t d _ _ (empty ys) = empty ys
mark-left t d _ _ (skip y xs ys s) = skip y (mark t d xs) ys (mark-left t d xs ys s)
mark-left t d _ _ (keep x y xs ys e s) = elim (Bool-cases (x.tag == t)) [
  | inl here ↦ rw here (keep (record x { dirty = d }) y xs ys e s)
  | inr there ↦ rw there (keep x y (mark t d xs) ys e (mark-left t d xs ys s))
]

pub mark-right : (t : ℕ) (d : Bool) (xs ys : List Line) → Sub xs ys → Sub xs (mark t d ys)
unfolding mark
mark-right t d _ _ (empty ys) = empty (mark t d ys)
mark-right t d _ _ (skip y xs ys s) = elim (Bool-cases (y.tag == t)) [
  | inl here ↦ rw here (skip (record y { dirty = d }) xs ys s)
  | inr there ↦ rw there (skip y xs (mark t d ys) (mark-right t d xs ys s))
]
mark-right t d _ _ (keep x y xs ys e s) = elim (Bool-cases (y.tag == t)) [
  | inl here ↦ rw here (keep x (record y { dirty = d }) xs ys e s)
  | inr there ↦ rw there (keep x y xs (mark t d ys) e (mark-right t d xs ys s))
]
