-- ===== src/Parsort/Merge.antt =====
-- The merge loop of parsort.c.
use assignments_for_csf.Base.{
  ℕ, zero, suc, ◌+◌, ◌-◌, ◌≤◌, ◌<◌, ◌≡◌, refl, ◌∙◌, inl, inr, arith, Bool, true, false, ◌&&◌, List,
  [], ◌∷◌, some, leb, length, get_elem?-lt, Bool-cases,
}
use assignments_for_csf.Parsort.{compare_i64, not_greater, take_left, merge_loop, merge}

-- The side that is taken has a value left.
record Takes (arr : List ℕ) (left endl right endr : ℕ) : Type 0 where
  from_left : Bool
  taken : take_left arr left endl right endr ≡ some from_left
  has_left : from_left ≡ true → left < endl
  has_right : from_left ≡ false → right < endr

take_left-Takes :
    (arr : List ℕ) (left endl right endr : ℕ)
    → endl ≤ length arr
    → endr ≤ length arr
    → (leb endl left && leb endr right) ≡ false
    → Takes arr left endl right endr
unfolding take_left
take_left-Takes arr left endl right endr l r more = elim (Bool-cases (leb endl left)) [
  | inl e ↦ record {
    from_left = false;
    taken = rw e refl;
    has_left = λ h. absurd (ground arith);
    has_right = λ h. ground arith;
  }
  | inr e ↦ elim (Bool-cases (leb endr right)) [
    | inl f ↦ record {
      from_left = true;
      taken = rw (e, f) refl;
      has_left = λ h. ground arith;
      has_right = λ h. absurd (ground arith);
    }
    | inr f ↦
        let (a, ea) = get_elem?-lt arr left (ground arith) in
        let (b, eb) = get_elem?-lt arr right (ground arith) in
        record {
          from_left = not_greater (compare_i64 a b);
          taken = rw (e, f, ea, eb) refl;
          has_left = λ h. ground arith;
          has_right = λ h. ground arith;
        }
  ]
]

merge_loop-some :
    (fuel : ℕ) (arr : List ℕ) (left endl right endr : ℕ)
    → endl ≤ length arr
    → endr ≤ length arr
    → (endl - left) + (endr - right) < fuel
    → (out : List ℕ) × (merge_loop fuel arr left endl right endr ≡ some out)
      × (length out ≡ (endl - left) + (endr - right))
unfolding merge_loop
merge_loop-some zero arr left endl right endr l r h = absurd (omega arith)
merge_loop-some (suc fuel) arr left endl right endr l r h =
    elim (Bool-cases (leb endl left && leb endr right)) [
      | inl done ↦ ([], rw (merge_loop, done) refl, ground arith)
      | inr more ↦
          let t = take_left-Takes arr left endl right endr l r more in
          elim (Bool-cases t.from_left) [
            | inl e ↦
                let (x, ex) = get_elem?-lt arr left (omega (arith, t.has_left e)) in
                let (out, run, size) =
                  merge_loop-some fuel arr (left + 1) endl right endr l r
                    (omega (arith, t.has_left e)) in
                (
                  x ∷ out,
                  rw (merge_loop, more, t.taken, e, ex, run) refl,
                  omega (arith, size, t.has_left e),
                )
            | inr e ↦
                let (x, ex) = get_elem?-lt arr right (omega (arith, t.has_right e)) in
                let (out, run, size) =
                  merge_loop-some fuel arr left endl (right + 1) endr l r
                    (omega (arith, t.has_right e)) in
                (
                  x ∷ out,
                  rw (merge_loop, more, t.taken, e, ex, run) refl,
                  omega (arith, size, t.has_right e),
                )
          ]
    ]

-- In an array that holds the range, `merge` ends without reading outside the array, and writes as
-- many values as the range has.
merge-some :
    (arr : List ℕ) (begin mid end : ℕ)
    → begin ≤ mid
    → mid ≤ end
    → end ≤ length arr
    → (out : List ℕ) × (merge arr begin mid end ≡ some out) × (length out ≡ end - begin)
unfolding merge
merge-some arr begin mid end bm me fits =
    let (out, run, size) =
      merge_loop-some (end - begin + 1) arr begin mid mid end (omega arith) fits (omega arith) in
    (out, run, size ∙ omega arith)
