-- ===== src/Chat/Rooms/Threads/Release.antt =====
-- The lock of a queue is not held for ever.
use assignments_for_csf.Base.{
  ℕ, suc, ◌≡◌, refl, ap, ◌∙◌, inl, inr, arith, Bool, true, false, List, [], ◌∷◌, ◌++◌, ◌⊎◌,
  if◌then◌else◌,
}
use assignments_for_csf.Chat.Rooms.Threads.{
  Place, outside, at_lock, before_push, before_post, before_unlock, at_wait, granted, before_pop,
  Shared, Move, push, post, unlock, pop, System, Step, turn, Reach,
}
use assignments_for_csf.Chat.Rooms.Threads.Counting.{total, holds}
use assignments_for_csf.Chat.Rooms.Threads.Safety.{Inv, Reach-Inv, pop-nonempty}

-- At most `n` steps.
pub data Steps : System → ℕ → System → Type 0 where
  stay : (s : System) (n : ℕ) → Steps s n s
  go : (s t u : System) (n : ℕ) → Step s t → Steps t n u → Steps s (suc n) u

record Holder (threads : List Place) : Type 0 where
  before : List Place
  after : List Place
  place : Place
  split : threads ≡ before ++ (place ∷ after)
  has_lock : holds place ≡ 1

holds-cases : (p : Place) → (holds p ≡ 1) ⊎ (holds p ≡ 0)
holds-cases outside = inr refl
holds-cases (at_lock msg) = inr refl
holds-cases (before_push msg) = inl refl
holds-cases before_post = inl refl
holds-cases before_unlock = inl refl
holds-cases at_wait = inr refl
holds-cases granted = inr refl
holds-cases before_pop = inl refl

find-Holder : (threads : List Place) → total holds threads ≡ 1 → Holder threads
unfolding total
find-Holder [] e = absurd (omega arith)
find-Holder (p ∷ threads) e = elim (holds-cases p) [
  | inl h ↦ record { before = []; after = threads; place = p; split = refl; has_lock = h }
  | inr n ↦
      let h = find-Holder threads (omega arith) in
      record {
        before = p ∷ h.before;
        after = h.after;
        place = h.place;
        split = ap (◌∷◌ p) h.split;
        has_lock = h.has_lock;
      }
]

-- A run to a state in which the lock is free.
Releases : System → ℕ → Type 0
Releases s n = (t : System) × Steps s n t × (t.shared.locked ≡ false)

module _ (before after : List Place) where
  moved : Shared → Place → System
  moved shared p = record { shared = shared; threads = before ++ (p ∷ after) }

  step_to :
      (s : System) (p p' : Place) (shared : Shared) (n : ℕ)
      → s.threads ≡ before ++ (p ∷ after)
      → Move s.shared p shared p'
      → Releases (moved shared p') n
      → Releases s (suc n)
  unfolding Releases moved
  step_to s p p' shared n e move (t, run, free) =
      (t, go s (moved shared p') t n (turn before after p p' e refl move) run, free)

  from_unlock :
      (s : System) (n : ℕ) → s.threads ≡ before ++ (before_unlock ∷ after) → Releases s (suc n)
  unfolding Releases moved
  from_unlock s n e = step_to s before_unlock outside _ n e unlock (_, stay _ n, refl)

  from_post :
      (s : System) (n : ℕ) → s.threads ≡ before ++ (before_post ∷ after) → Releases s (suc (suc n))
  unfolding moved
  from_post s n e = step_to s before_post before_unlock _ (suc n) e post (from_unlock _ n refl)

  from_place :
      (s : System) (p : Place)
      → Reach s
      → s.threads ≡ before ++ (p ∷ after)
      → holds p ≡ 1
      → Releases s 3
  unfolding moved
  from_place s (before_push msg) r e h =
      step_to s (before_push msg) before_post _ 2 e push (from_post _ 0 refl)
  from_place s before_post r e h = from_post s 1 e
  from_place s before_unlock r e h = from_unlock s 2 e
  from_place s before_pop r e h =
      let (msg, rest, front) = pop-nonempty s before after r e in
      step_to s before_pop before_unlock _ 2 e (pop msg rest front) (from_unlock _ 1 refl)
  from_place s outside r e h = absurd (omega arith)
  from_place s (at_lock msg) r e h = absurd (omega arith)
  from_place s at_wait r e h = absurd (omega arith)
  from_place s granted r e h = absurd (omega arith)

-- From every reachable state in which the lock is held, three steps suffice to free it.
pub lock-released :
    (s : System)
    → Reach s
    → s.shared.locked ≡ true
    → (t : System) × Steps s 3 t × (t.shared.locked ≡ false)
unfolding Inv Releases
lock-released s r held =
    let inv : Inv s = Reach-Inv s r in
    let one : total holds s.threads ≡ 1 =
      inv.one_holder ∙ ap (λ (b : Bool). if b then 1 else 0) held in
    let h = find-Holder s.threads one in from_place h.before h.after s h.place r h.split h.has_lock
