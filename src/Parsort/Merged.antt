-- ===== src/Parsort/Merged.antt =====
-- What `merge` of parsort.c writes, as a merge of lists.
use mathlib.Core.List.{Perm, perm_middle}
use mathlib.Core.List.Perm
use assignments_for_csf.Base.{
  ℕ, zero, suc, ◌+◌, ◌-◌, ◌≤◌, ◌<◌, ◌≡◌, refl, ap, subst, ◌∙◌, sym, inl, inr, arith, Bool, true,
  false, ◌&&◌, List, [], ◌∷◌, ◌++◌, some, leb, length, get_elem?, append_assoc, append-nil,
  length-append, Bool-cases, if◌then◌else◌,
}
use assignments_for_csf.Parsort.{
  signed_place, compare_i64, not_greater, take_left, merge_loop, merge,
}
use assignments_for_csf.Parsort.Sorted.{AllFrom, InOrder, AllFrom-lower}

-- The smaller first value comes first, and of equal ones that of the left list.
pub merged : List ℕ → List ℕ → List ℕ
merged [] r = r
merged (x ∷ l) [] = x ∷ l
merged (x ∷ l) (y ∷ r) =
    let keep = merged l (y ∷ r) in
    let pass = merged (x ∷ l) r in if not_greater (compare_i64 x y) then x ∷ keep else y ∷ pass

-- What holds of either choice between two first values holds of the merge.
by_choice :
    (P : List ℕ → Type 0) (x y : ℕ) (l r : List ℕ)
    → (not_greater (compare_i64 x y) ≡ true → P (x ∷ merged l (y ∷ r)))
    → (not_greater (compare_i64 x y) ≡ false → P (y ∷ merged (x ∷ l) r))
    → P (merged (x ∷ l) (y ∷ r))
unfolding merged
by_choice P x y l r keeps passes = elim (Bool-cases (not_greater (compare_i64 x y))) [
  | inl e ↦ rw (merged, e) (keeps e)
  | inr e ↦ rw (merged, e) (passes e)
]

to_middle : (y : ℕ) (out l r : List ℕ) → Perm out (l ++ r) → Perm (y ∷ out) (l ++ y ∷ r)
to_middle y out l r p = Perm.trans (Perm.cons y p) (Perm.symm (perm_middle l r))

pub merged-perm : (l r : List ℕ) → Perm (merged l r) (l ++ r)
merged-perm [] r = unfold merged in Perm.rfl
merged-perm (x ∷ l) [] =
    subst (Perm (merged (x ∷ l) [])) (sym (append-nil (x ∷ l))) (unfold merged in Perm.rfl)
merged-perm (x ∷ l) (y ∷ r) =
    by_choice (λ out. Perm out (x ∷ (l ++ y ∷ r))) x y l r
      (λ e. Perm.cons x (merged-perm l (y ∷ r)))
      (λ e. to_middle y (merged (x ∷ l) r) (x ∷ l) r (merged-perm (x ∷ l) r))

pub le-not_greater :
    (x y : ℕ) → signed_place x ≤ signed_place y → not_greater (compare_i64 x y) ≡ true
unfolding compare_i64
le-not_greater x y e = ground arith

pub not_greater-le :
    (x y : ℕ) → not_greater (compare_i64 x y) ≡ true → signed_place x ≤ signed_place y
unfolding compare_i64
not_greater-le x y e = ground arith

greater-le : (x y : ℕ) → not_greater (compare_i64 x y) ≡ false → signed_place y ≤ signed_place x
unfolding compare_i64
greater-le x y e = ground arith

merged-AllFrom : (a : ℕ) (l r : List ℕ) → AllFrom a l → AllFrom a r → AllFrom a (merged l r)
unfolding AllFrom
merged-AllFrom a [] r hl hr = unfold merged in hr
merged-AllFrom a (x ∷ l) [] hl hr = unfold merged in hl
merged-AllFrom a (x ∷ l) (y ∷ r) (hx, hl) (hy, hr) =
    by_choice (AllFrom a) x y l r (λ e. (hx, merged-AllFrom a l (y ∷ r) hl (hy, hr)))
      (λ e. (hy, merged-AllFrom a (x ∷ l) r (hx, hl) hr))

pub merged-InOrder : (l r : List ℕ) → InOrder l → InOrder r → InOrder (merged l r)
unfolding InOrder AllFrom
merged-InOrder [] r hl hr = unfold merged in hr
merged-InOrder (x ∷ l) [] hl hr = unfold merged in hl
merged-InOrder (x ∷ l) (y ∷ r) (fl, hl) (fr, hr) =
    by_choice InOrder x y l r
      (λ e.
        let le = not_greater-le x y e in
        (
          merged-AllFrom x l (y ∷ r) fl (le, AllFrom-lower x y r le fr),
          merged-InOrder l (y ∷ r) hl (fr, hr),
        ))
      (λ e.
        let le = greater-le x y e in
        (
          merged-AllFrom y (x ∷ l) r (le, AllFrom-lower y x l le fl) fr,
          merged-InOrder (x ∷ l) r (fl, hl) hr,
        ))

get_elem?-append {ℓ} :
    {A : Type ℓ} (a : List A) (x : A) (b : List A) → get_elem? (a ++ x ∷ b) (length a) ≡ some x
get_elem?-append [] x b = refl
get_elem?-append (y ∷ a) x b = get_elem?-append a x b

merged_nil : (l : List ℕ) → merged l [] ≡ l
unfolding merged
merged_nil [] = refl
merged_nil (x ∷ l) = refl

-- A pointer to the first of the values `l`, and one past the last.
record Points (arr : List ℕ) (place stop : ℕ) (l : List ℕ) : Type 0 where
  before : List ℕ
  after : List ℕ
  split : arr ≡ before ++ (l ++ after)
  at_start : place ≡ length before
  at_stop : stop ≡ place + length l

Points-value :
    (arr : List ℕ) (place stop x : ℕ) (l : List ℕ)
    → Points arr place stop (x ∷ l)
    → get_elem? arr place ≡ some x
Points-value arr place stop x l p =
    rw (p.split, p.at_start) (get_elem?-append p.before x (l ++ p.after))

Points-next :
    (arr : List ℕ) (place stop x : ℕ) (l : List ℕ)
    → Points arr place stop (x ∷ l)
    → Points arr (place + 1) stop l
Points-next arr place stop x l p = record {
  before = p.before ++ x ∷ [];
  after = p.after;
  split = p.split ∙ sym (append_assoc p.before (x ∷ []) (l ++ p.after));
  at_start = omega (arith, p.at_start, length-append p.before (x ∷ []));
  at_stop = omega (arith, p.at_stop);
}

-- A round of the loop, once its choice is known.
merge_round :
    (fuel : ℕ) (arr : List ℕ) (left endl right endr x : ℕ) (from_left : Bool) (rest : List ℕ)
    → (leb endl left && leb endr right) ≡ false
    → take_left arr left endl right endr ≡ some from_left
    → get_elem? arr (if from_left then left else right) ≡ some x
    → merge_loop fuel arr
        (if from_left then left + 1 else left)
        endl
        (if from_left then right else right + 1)
        endr
      ≡ some rest
    → merge_loop (suc fuel) arr left endl right endr ≡ some (x ∷ rest)
unfolding merge_loop
merge_round fuel arr left endl right endr x from_left rest more choice value later =
    rw (merge_loop, more, choice, value, later) refl

take_left-both :
    (arr : List ℕ) (left endl right endr x y : ℕ)
    → left < endl
    → right < endr
    → get_elem? arr left ≡ some x
    → get_elem? arr right ≡ some y
    → take_left arr left endl right endr ≡ some (not_greater (compare_i64 x y))
unfolding take_left
take_left-both arr left endl right endr x y h k ex ey =
    let more_l : leb endl left ≡ false = ground arith in
    let more_r : leb endr right ≡ false = ground arith in rw (more_l, more_r, ex, ey) refl

merge_loop-merged :
    (fuel : ℕ) (arr : List ℕ) (left endl right endr : ℕ) (l r : List ℕ)
    → Points arr left endl l
    → Points arr right endr r
    → length l + length r < fuel
    → merge_loop fuel arr left endl right endr ≡ some (merged l r)
merge_loop-merged zero arr left endl right endr l r p q h = absurd (omega arith)
merge_loop-merged (suc fuel) arr left endl right endr [] [] p q h =
    unfold merge_loop merged in ground (arith, p.at_stop, q.at_stop)
merge_loop-merged (suc fuel) arr left endl right endr [] (y ∷ r) p q h =
    merge_round fuel arr left endl right endr y false r (ground (arith, q.at_stop))
      (unfold take_left in ground (arith, p.at_stop)) (Points-value arr right endr y r q)
      (merge_loop-merged fuel arr left endl (right + 1) endr [] r p
          (Points-next arr right endr y r q) (omega arith)
        ∙ unfold merged in refl)
    ∙ unfold merged in refl
merge_loop-merged (suc fuel) arr left endl right endr (x ∷ l) [] p q h =
    merge_round fuel arr left endl right endr x true l (ground (arith, p.at_stop))
      (unfold take_left in ground (arith, p.at_stop, q.at_stop)) (Points-value arr left endl x l p)
      (merge_loop-merged fuel arr (left + 1) endl right endr l [] (Points-next arr left endl x l p)
          q (omega arith)
        ∙ ap some (merged_nil l))
    ∙ unfold merged in refl
merge_loop-merged (suc fuel) arr left endl right endr (x ∷ l) (y ∷ r) p q h =
    let at_l = Points-value arr left endl x l p in
    let at_r = Points-value arr right endr y r q in
    let more : (leb endl left && leb endr right) ≡ false = ground (arith, p.at_stop) in
    let choice =
      take_left-both arr left endl right endr x y (omega (arith, p.at_stop))
        (omega (arith, q.at_stop)) at_l at_r in
    by_choice (λ out. merge_loop (suc fuel) arr left endl right endr ≡ some out) x y l r
      (λ e.
        merge_round fuel arr left endl right endr x true (merged l (y ∷ r)) more
          (choice ∙ ap some e) at_l
          (merge_loop-merged fuel arr (left + 1) endl right endr l (y ∷ r)
            (Points-next arr left endl x l p) q (omega arith)))
      (λ e.
        merge_round fuel arr left endl right endr y false (merged (x ∷ l) r) more
          (choice ∙ ap some e) at_r
          (merge_loop-merged fuel arr left endl (right + 1) endr (x ∷ l) r p
            (Points-next arr right endr y r q) (omega arith)))

-- In an array with the range `l ++ r` after `before`, what `merge` writes is the merge of the lists.
merge-merged :
    (before l r after : List ℕ) (begin mid end : ℕ)
    → begin ≡ length before
    → mid ≡ begin + length l
    → end ≡ mid + length r
    → merge (before ++ (l ++ (r ++ after))) begin mid end ≡ some (merged l r)
unfolding merge
merge-merged before l r after begin mid end eb em ee =
    merge_loop-merged (end - begin + 1) (before ++ (l ++ (r ++ after))) begin mid mid end l r
      (record { before = before; after = r ++ after; split = refl; at_start = eb; at_stop = em })
      (record {
        before = before ++ l;
        after = after;
        split = sym (append_assoc before l (r ++ after));
        at_start = omega (arith, length-append before l);
        at_stop = ee;
      })
      (omega arith)

-- Of two ranges that are in order, `merge` writes a permutation that is in order, and it reads
-- nothing outside them.
pub merge-InOrder :
    (before l r after : List ℕ) (begin mid end : ℕ)
    → begin ≡ length before
    → mid ≡ begin + length l
    → end ≡ mid + length r
    → InOrder l
    → InOrder r
    → (out : List ℕ) × (merge (before ++ (l ++ (r ++ after))) begin mid end ≡ some out)
      × InOrder out
      × Perm out (l ++ r)
merge-InOrder before l r after begin mid end eb em ee hl hr = (
  merged l r,
  merge-merged before l r after begin mid end eb em ee,
  merged-InOrder l r hl hr,
  merged-perm l r,
)
