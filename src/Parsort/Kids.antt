-- ===== src/Parsort/Kids.antt =====
-- A process of parsort.c with its two child processes.
use mathlib.Core.List.{Perm}
use mathlib.Core.List.Perm
use assignments_for_csf.Base.{
  ℕ, ◌+◌, ◌≡◌, ◌≢◌, refl, ap, subst, ◌∙◌, sym, inl, inr, arith, List, [], ◌∷◌, ◌++◌, length,
  append_assoc, Bool-cases,
}
use assignments_for_csf.Parsort.Sorted.{InOrder}
use assignments_for_csf.Parsort.Merged.{merge-InOrder}
use assignments_for_csf.Parsort.Qsort.{Perm-length}
use assignments_for_csf.Parsort.Processes.{
  Wait, wait_failed, not_exited, exited, no_trouble, Kid, leftkid, rightkid, Fates, Ended, returned,
  exits, fault, copy_back, after_kid, fork_kids, merge_halves,
}
use assignments_for_csf.Parsort.Ranges.{copy_back-append}

-- The range `l` after `before` has been sorted in place, or the process exits with a status that is
-- not 0, for a reason that it was given.
unfoldable pub Sorts : Fates → List ℕ → List ℕ → List ℕ → Ended → Type 0
Sorts fates before l after (returned arr) =
    (out : List ℕ) × (arr ≡ before ++ (out ++ after)) × InOrder out × Perm out l
Sorts fates before l after (exits status) =
    (status ≢ 0) × ((path : List Kid) × (fates path ≢ no_trouble))
Sorts fates before l after fault = ⊥

-- Two sorted halves are merged into a sorted range.
merge_halves-Sorts :
    (fates : Fates) (before l r l' r' after : List ℕ) (begin mid end : ℕ)
    → begin ≡ length before
    → mid ≡ begin + length l
    → end ≡ mid + length r
    → InOrder l'
    → InOrder r'
    → Perm l' l
    → Perm r' r
    → Sorts fates before
        (l ++ r)
        after
        (merge_halves (before ++ (l' ++ (r' ++ after))) begin mid end)
unfolding Sorts merge_halves
merge_halves-Sorts fates before l r l' r' after begin mid end eb em ee hl hr pl pr =
    let (out, run, order, perm) =
      merge-InOrder before l' r' after begin mid end eb (omega (arith, Perm-length pl))
        (omega (arith, Perm-length pr)) hl hr in
    let ends : merge_halves (before ++ (l' ++ (r' ++ after))) begin mid end
        ≡ returned (copy_back (before ++ (l' ++ (r' ++ after))) begin out) =
      rw (merge_halves, run) refl in
    subst (Sorts fates before (l ++ r) after) (sym ends) (
      out,
      ap (λ rest. copy_back (before ++ rest) begin out) (sym (append_assoc l' r' after))
          ∙ copy_back-append before (l' ++ r') out after begin eb (Perm-length perm),
      order,
      Perm.trans perm (Perm.append pl pr),
    )

-- The parent's next step, after a child that sorts its own range.
after_kid-Sorts :
    (fates : Fates) (side : Kid) (before l after kid_before kid_l kid_after : List ℕ) (wait : Wait)
    (kid : Ended) (a b c : ℕ) (next : List ℕ → Ended)
    → a ≢ 0
    → b ≢ 0
    → c ≢ 0
    → (wait ≢ exited → fates [] ≢ no_trouble)
    → Sorts (λ path. fates (side ∷ path)) kid_before kid_l kid_after kid
    → ((out : List ℕ)
        → InOrder out
        → Perm out kid_l
        → Sorts fates before l after (next (kid_before ++ (out ++ kid_after))))
    → Sorts fates before l after (after_kid wait kid a b c next)
unfolding Sorts after_kid
after_kid-Sorts fates side before l after kb kl ka wait_failed kid a b c next na nb nc bad k
      goes_on =
    (na, ([], bad (λ e. cc)))
after_kid-Sorts fates side before l after kb kl ka not_exited kid a b c next na nb nc bad k
      goes_on =
    (nb, ([], bad (λ e. cc)))
after_kid-Sorts fates side before l after kb kl ka exited (returned arr) a b c next na nb nc bad
      (out, e, order, perm) goes_on =
    subst (λ x. Sorts fates before l after (next x)) (sym e) (goes_on out order perm)
after_kid-Sorts fates side before l after kb kl ka exited (exits status) a b c next na nb nc bad
      (n, (path, trouble)) goes_on =
    (nc, (side ∷ path, trouble))
after_kid-Sorts fates side before l after kb kl ka exited fault a b c next na nb nc bad k goes_on =
    k

pub fork_kids-Sorts :
    (fates : Fates) (before l r after : List ℕ) (begin mid end : ℕ) (left : Ended)
    (right : List ℕ → Ended)
    → begin ≡ length before
    → mid ≡ begin + length l
    → end ≡ mid + length r
    → Sorts (λ path. fates (leftkid ∷ path)) before l (r ++ after) left
    → ((l' : List ℕ)
        → length l' ≡ length l
        → Sorts
            (λ path. fates (rightkid ∷ path))
            (before ++ l')
            r
            after
            (right ((before ++ l') ++ (r ++ after))))
    → Sorts fates before
        (l ++ r)
        after
        (fork_kids (fates []) left right (λ arr. merge_halves arr begin mid end))
unfolding fork_kids
fork_kids-Sorts fates before l r after begin mid end left right eb em ee on_left on_right =
    elim (Bool-cases (fates []).left_fork) [
      | inr e ↦
          rw e (
            unfold Sorts in
            ((λ z. cc), ([], λ t. absurd (ground (arith, ap (λ a. a.left_fork) t)))))
      | inl e ↦ elim (Bool-cases (fates []).right_fork) [
        | inr f ↦
            rw (e, f)
              (unfold Sorts in
                ((λ z. cc), ([], λ t. absurd (ground (arith, ap (λ a. a.right_fork) t)))))
        | inl f ↦
            rw (e, f)
              (after_kid-Sorts fates leftkid before (l ++ r) after before l (r ++ after)
                (fates []).left_wait left 254 253 252 _ (λ z. cc) (λ z. cc) (λ z. cc)
                (λ w t. w (ap (λ a. a.left_wait) t)) on_left
                (λ l' order_l perm_l.
                  after_kid-Sorts fates rightkid before (l ++ r) after (before ++ l') r after
                    (fates []).right_wait (right (before ++ (l' ++ (r ++ after)))) 2 3 4 _ (λ z. cc)
                    (λ z. cc) (λ z. cc) (λ w t. w (ap (λ a. a.right_wait) t))
                    (subst
                      (λ arr.
                        Sorts (λ path. fates (rightkid ∷ path)) (before ++ l') r after (right arr))
                      (append_assoc before l' (r ++ after)) (on_right l' (Perm-length perm_l)))
                    (λ r' order_r perm_r.
                      subst
                        (λ arr. Sorts fates before (l ++ r) after (merge_halves arr begin mid end))
                        (sym (append_assoc before l' (r' ++ after)))
                        (merge_halves-Sorts fates before l r l' r' after begin mid end eb em ee
                          order_l order_r perm_l perm_r))))
      ]
    ]
