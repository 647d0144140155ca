-- ===== src/Chat/Rooms/Threads/Safety.antt =====
-- What holds of the queue whatever the threads do.
use assignments_for_csf.Base.{
  ℕ, ◌+◌, ◌≤◌, ◌≡◌, refl, ap, ◌∙◌, sym, arith, Bool, true, false, List, [], ◌∷◌, ◌++◌, length,
  length-append, append_assoc, if◌then◌else◌,
}
use assignments_for_csf.Chat.{Message}
use assignments_for_csf.Chat.Rooms.Threads.{
  Place, outside, before_pop, Shared, Move, enter_enqueue, lock_push, push, post, unlock,
  enter_dequeue, give_up, grant, lock_pop, pop, System, Step, turn, AllOutside, Reach, start, later,
}
use assignments_for_csf.Chat.Rooms.Queue.{Counts}
use assignments_for_csf.Chat.Rooms.Threads.Counting.{total, total-append, holds, claims, owes}

-- With the counts of the threads that hold the lock, that have a claim, and that owe a post.
pub record Balanced (s : Shared) (holding claiming owing : ℕ) : Type 0 where
  pub one_holder : holding ≡ (if s.locked then 1 else 0)
  pub counted : s.avail + claiming + owing ≡ length s.messages
  pub in_order : s.pushed ≡ s.popped ++ s.messages

unfoldable pub Inv : System → Type 0
Inv s = Balanced s.shared (total holds s.threads) (total claims s.threads) (total owes s.threads)

-- A step takes the moving thread's counts from `p` to `p'`.
Move-Balanced :
    (s s' : Shared) (p p' : Place) (h c o : ℕ)
    → Move s p s' p'
    → Balanced s (h + holds p) (c + claims p) (o + owes p)
    → Balanced s' (h + holds p') (c + claims p') (o + owes p')
Move-Balanced s s' p p' h c o (enter_enqueue msg) b = b
Move-Balanced s s' p p' h c o (lock_push free) b = record {
  one_holder = ground (arith, b.one_holder);
  counted = b.counted;
  in_order = b.in_order;
}
Move-Balanced s s' p p' h c o (push {msg}) b = record {
  one_holder = b.one_holder;
  counted = omega (arith, b.counted, length-append s.messages (msg ∷ []));
  in_order = ap (λ l. l ++ msg ∷ []) b.in_order ∙ append_assoc s.popped s.messages (msg ∷ []);
}
Move-Balanced s s' p p' h c o post b = record {
  one_holder = b.one_holder;
  counted = omega (arith, b.counted);
  in_order = b.in_order;
}
Move-Balanced s s' p p' h c o unlock b = record {
  one_holder = ground (arith, b.one_holder);
  counted = b.counted;
  in_order = b.in_order;
}
Move-Balanced s s' p p' h c o enter_dequeue b = b
Move-Balanced s s' p p' h c o give_up b = b
Move-Balanced s s' p p' h c o (grant n e) b = record {
  one_holder = b.one_holder;
  counted = omega (arith, b.counted);
  in_order = b.in_order;
}
Move-Balanced s s' p p' h c o (lock_pop free) b = record {
  one_holder = ground (arith, b.one_holder);
  counted = b.counted;
  in_order = b.in_order;
}
Move-Balanced s s' p p' h c o (pop msg rest e) b = record {
  one_holder = b.one_holder;
  counted = omega (arith, b.counted, ap length e);
  in_order = b.in_order ∙ ap (λ l. s.popped ++ l) e ∙ sym (append_assoc s.popped (msg ∷ []) rest);
}

Step-Inv : (s t : System) → Step s t → Inv s → Inv t
unfolding Inv
Step-Inv s t (turn before after p p' es et move) inv =
    let at_s = λ (w : Place → ℕ). ap (total w) es ∙ total-append w before p after in
    let at_t = λ (w : Place → ℕ). ap (total w) et ∙ total-append w before p' after in
    let rest = λ (w : Place → ℕ). total w before + total w after in
    let b : Balanced s.shared (rest holds + holds p) (rest claims + claims p) (rest owes + owes p) =
      record {
        one_holder = omega (arith, inv.one_holder, at_s holds);
        counted = omega (arith, inv.counted, at_s claims, at_s owes);
        in_order = inv.in_order;
      } in
    let b' = Move-Balanced s.shared t.shared p p' (rest holds) (rest claims) (rest owes) move b in
    record {
      one_holder = omega (arith, b'.one_holder, at_t holds);
      counted = omega (arith, b'.counted, at_t claims, at_t owes);
      in_order = b'.in_order;
    }

total-AllOutside :
    (weight : Place → ℕ) (threads : List Place)
    → weight outside ≡ 0
    → AllOutside threads
    → total weight threads ≡ 0
unfolding AllOutside total
total-AllOutside weight [] z h = refl
total-AllOutside weight (p ∷ threads) z (e, h) =
    omega (arith, ap weight e, total-AllOutside weight threads z h)

pub Reach-Inv : (s : System) → Reach s → Inv s
unfolding Inv
Reach-Inv s (start _ fresh quiet) =
    let none = λ (w : Place → ℕ) (z : w outside ≡ 0). total-AllOutside w s.threads z quiet in
    record {
      one_holder = none holds refl ∙ ap (λ q. if q.locked then 1 else 0) (sym fresh);
      counted = omega (
        arith,
        none claims refl,
        none owes refl,
        ap (λ q. q.avail) fresh,
        ap (λ q. length q.messages) fresh,
      );
      in_order = ap (λ q. q.pushed) fresh ∙ sym (ap (λ q. q.popped ++ q.messages) fresh);
    }
Reach-Inv t (later s _ r step) = Step-Inv s t step (Reach-Inv s r)

-- In every reachable state, a thread that is about to take the front of the queue finds a message
-- there.
pub pop-nonempty :
    (s : System) (before after : List Place)
    → Reach s
    → s.threads ≡ before ++ (before_pop ∷ after)
    → (msg : Message) × (rest : List Message) × (s.shared.messages ≡ msg ∷ rest)
unfolding Inv
pop-nonempty s before after r e =
    let inv : Inv s = Reach-Inv s r in
    first s.shared.messages refl
      (omega (arith, inv.counted, ap (total claims) e, total-append claims before before_pop after))
  where
    first :
        (messages : List Message)
        → s.shared.messages ≡ messages
        → 1 ≤ length s.shared.messages
        → (msg : Message) × (rest : List Message) × (s.shared.messages ≡ msg ∷ rest)
    first [] same n = absurd (omega (arith, ap length same))
    first (msg ∷ rest) same n = (msg, rest, same)

-- In every reachable state, the messages that have been popped are, in order, the first that were
-- pushed, and the others wait in the queue.
pub pushed-popped : (s : System) → Reach s → s.shared.pushed ≡ s.shared.popped ++ s.shared.messages
unfolding Inv
pushed-popped s r = let inv : Inv s = Reach-Inv s r in inv.in_order

-- In every reachable state, no two threads hold the lock.
pub one_lock_holder :
    (s : System) (before between after : List Place) (p q : Place)
    → Reach s
    → s.threads ≡ before ++ (p ∷ (between ++ (q ∷ after)))
    → holds p + holds q ≤ 1
unfolding Inv
one_lock_holder s before between after p q r e =
    let inv : Inv s = Reach-Inv s r in
    let bound : total holds s.threads ≤ 1 = at_most s.shared.locked (inv.one_holder) in
    omega (
      arith,
      bound,
      ap (total holds) e,
      total-append holds before p (between ++ (q ∷ after)),
      total-append holds between q after,
    )
  where
    at_most : (b : Bool) → total holds s.threads ≡ (if b then 1 else 0) → total holds s.threads ≤ 1
    at_most true h = omega arith
    at_most false h = omega arith

-- In every reachable state with no thread inside an operation, the semaphore counts the messages.
quiet-Counts :
    (s : System)
    → Reach s
    → AllOutside s.threads
    → Counts (record { avail = s.shared.avail; messages = s.shared.messages })
unfolding Inv Counts
quiet-Counts s r quiet =
    let inv : Inv s = Reach-Inv s r in
    omega (
      arith,
      inv.counted,
      total-AllOutside claims s.threads refl quiet,
      total-AllOutside owes s.threads refl quiet,
    )
