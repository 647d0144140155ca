-- ===== src/Cache/Inclusion/Sets.antt =====
-- A set under LRU beside the same set with room for more blocks.
use assignments_for_csf.Base.{
  ℕ, suc, ◌≤◌, ◌<◌, ◌≡◌, refl, ap, sym, ◌∙◌, inl, inr, arith, Bool, false, List, [], ◌∷◌, none,
  some, length, ◌==◌, ==_iff, if◌then◌else◌, Bool-cases, Option-cases,
}
use assignments_for_csf.Cache.{Config}
use assignments_for_csf.Cache.Spec.{Line, lookup, remove, drop_last, mark, move_to_front, push}
use assignments_for_csf.Cache.Order.{length-remove, length-drop_last, length-mark}
use assignments_for_csf.Cache.Inclusion.{
  Sub, skip, keep, lookup-Sub_full, remove-Sub, remove-right, drop_last-left, drop_last-Sub,
  mark-left, mark-right,
}

-- The smaller set has at most `k` blocks, in the order of the larger one; until it is full, both
-- have the same.
pub record Within (k : ℕ) (s s' : List Line) : Type 0 where
  pub sub : Sub s s'
  pub bounded : length s ≤ k
  pub small : length s < k → length s ≡ length s'

lookup-tag : (t : ℕ) (s : List Line) (l : Line) → lookup t s ≡ some l → l.tag ≡ t
unfolding lookup
lookup-tag t [] l h = absurd (cc)
lookup-tag t (m ∷ s) l h = ground (arith, lookup-tag t s l)

length-move_to_front : (t : ℕ) (s : List Line) → length (move_to_front t s) ≡ length s
unfolding move_to_front
length-move_to_front t s = elim (Option-cases (lookup t s)) [
  | inl n ↦ rw (move_to_front, n) refl
  | inr (l, h) ↦ rw (move_to_front, h) (sym (length-remove t s l h))
]

move_to_front-hit :
    (t : ℕ) (s : List Line) (l : Line) → lookup t s ≡ some l → move_to_front t s ≡ l ∷ remove t s
unfolding move_to_front
move_to_front-hit t s l h = rw (move_to_front, h) refl

length-drop : (s : List Line) → 1 ≤ length s → suc (length (drop_last s)) ≡ length s
length-drop [] h = absurd (omega arith)
length-drop (l ∷ s) h = ap suc (length-drop_last l s)

module _ (k : ℕ) (s s' : List Line) (w : Within k s s') where
  pub mark-Within_left : (t : ℕ) (d : Bool) → Within k (mark t d s) s'
  mark-Within_left t d = record {
    sub = mark-left t d s s' w.sub;
    bounded = omega (arith, w.bounded, length-mark t d s);
    small = λ h. length-mark t d s ∙ w.small (omega (arith, length-mark t d s));
  }

  pub mark-Within_right : (t : ℕ) (d : Bool) → Within k s (mark t d s')
  mark-Within_right t d = record {
    sub = mark-right t d s s' w.sub;
    bounded = w.bounded;
    small = λ h. w.small h ∙ sym (length-mark t d s');
  }

  pub both_hit :
      (t : ℕ) (l l' : Line)
      → lookup t s ≡ some l
      → lookup t s' ≡ some l'
      → Within k (move_to_front t s) (move_to_front t s')
  both_hit t l l' h h' = record {
    sub =
        rw (move_to_front-hit t s l h, move_to_front-hit t s' l' h')
          (keep l l' (remove t s) (remove t s') (lookup-tag t s l h ∙ sym (lookup-tag t s' l' h'))
            (remove-Sub t s s' w.sub));
    bounded = omega (arith, w.bounded, length-move_to_front t s);
    small = λ less.
        length-move_to_front t s
        ∙ w.small (omega (arith, length-move_to_front t s))
        ∙ sym (length-move_to_front t s');
  }

  -- A block that only the larger set has is there because the smaller one is full.
  only_larger : (t : ℕ) (l' : Line) → lookup t s ≡ none → lookup t s' ≡ some l' → length s ≡ k
  only_larger t l' h h' = elim (Bool-cases (length s == k)) [
    | inl full ↦ (==_iff (length s) k).0 full
    | inr room ↦
        let less : length s < k = ground (arith, w.bounded) in
        let none' = lookup-Sub_full t s s' w.sub (w.small less) h in absurd (ground arith)
  ]

  module _ (config : Config) (size : config.block_num ≡ k) (pos : 1 ≤ k) where
    push-full : (l : Line) → length s ≡ k → push config l s ≡ l ∷ drop_last s
    unfolding push
    push-full l full = rw ((==_iff (length s) config.block_num).1 (full ∙ sym size)) refl

    pub half_hit :
        (t : ℕ) (l l' : Line)
        → l.tag ≡ t
        → lookup t s ≡ none
        → lookup t s' ≡ some l'
        → Within k (push config l s) (move_to_front t s')
    half_hit t l l' e h h' =
        let full = only_larger t l' h h' in
        let dropped = length-drop s (omega (arith, full)) in
        record {
          sub =
              rw (push-full l full, move_to_front-hit t s' l' h')
                (keep l l' (drop_last s) (remove t s') (e ∙ sym (lookup-tag t s' l' h'))
                  (drop_last-left s (remove t s') (remove-right t s s' w.sub h)));
          bounded = omega (arith, ap length (push-full l full), dropped, full);
          small = λ less. absurd (omega (arith, ap length (push-full l full), dropped, full));
        }

    dropped_too :
        (larger : Config)
        → Sub (drop_last s) (if length s' == larger.block_num then drop_last s' else s')
    dropped_too larger = elim (Bool-cases (length s' == larger.block_num)) [
      | inl b ↦ rw b (drop_last-Sub s s' w.sub)
      | inr b ↦ rw b (drop_last-left s s' w.sub)
    ]

    pub both_miss :
        (larger : Config) (l l' : Line)
        → k ≤ larger.block_num
        → l.tag ≡ l'.tag
        → Within k (push config l s) (push larger l' s')
    unfolding push
    both_miss larger l l' le e = elim (Bool-cases (length s == k)) [
      | inl b ↦
          let full = (==_iff (length s) k).0 b in
          let dropped = length-drop s (omega (arith, full)) in
          record {
            sub = rw (push-full l full) (keep l l' (drop_last s) _ e (dropped_too larger));
            bounded = omega (arith, ap length (push-full l full), dropped, full);
            small = λ less. absurd (omega (arith, ap length (push-full l full), dropped, full));
          }
      | inr b ↦
          let less : length s < k = ground (arith, w.bounded) in
          let same = w.small less in
          let fits : (length s == config.block_num) ≡ false = ground arith in
          let fits' : (length s' == larger.block_num) ≡ false = ground arith in
          rw (fits, fits')
            (record {
              sub = keep l l' s s' e w.sub;
              bounded = omega arith;
              small = λ _. ap suc same;
            })
    ]

  -- Without write-allocate, the smaller set is left alone.
  pub stays :
      (t : ℕ) (l' : Line)
      → lookup t s ≡ none
      → lookup t s' ≡ some l'
      → Within k s (move_to_front t s')
  stays t l' h h' = record {
    sub = rw (move_to_front-hit t s' l' h') (skip l' s (remove t s') (remove-right t s s' w.sub h));
    bounded = w.bounded;
    small = λ less. w.small less ∙ sym (length-move_to_front t s');
  }
