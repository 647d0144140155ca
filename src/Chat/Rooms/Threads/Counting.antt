-- ===== src/Chat/Rooms/Threads/Counting.antt =====
-- Counting the threads at certain places.
use assignments_for_csf.Base.{ℕ, ◌+◌, ◌≡◌, arith, List, [], ◌∷◌, ◌++◌}
use assignments_for_csf.Chat.Rooms.Threads.{
  Place, outside, at_lock, before_push, before_post, before_unlock, at_wait, granted, before_pop,
}

unfoldable pub total : (Place → ℕ) → List Place → ℕ
total weight [] = 0
total weight (p ∷ threads) = weight p + total weight threads

pub total-append :
    (weight : Place → ℕ) (before : List Place) (p : Place) (after : List Place)
    → total weight (before ++ (p ∷ after)) ≡ total weight before + (weight p + total weight after)
unfolding total
total-append weight [] p after = omega arith
total-append weight (q ∷ before) p after = omega (arith, total-append weight before p after)

-- The thread holds the lock.
abbrev pub holds : Place → ℕ
holds outside = 0
holds (at_lock msg) = 0
holds (before_push msg) = 1
holds before_post = 1
holds before_unlock = 1
holds at_wait = 0
holds granted = 0
holds before_pop = 1

-- The thread has taken a unit of the semaphore, and not yet its message.
abbrev pub claims : Place → ℕ
claims outside = 0
claims (at_lock msg) = 0
claims (before_push msg) = 0
claims before_post = 0
claims before_unlock = 0
claims at_wait = 0
claims granted = 1
claims before_pop = 1

-- The thread has pushed a message that the semaphore does not count yet.
abbrev pub owes : Place → ℕ
owes outside = 0
owes (at_lock msg) = 0
owes (before_push msg) = 0
owes before_post = 1
owes before_unlock = 0
owes at_wait = 0
owes granted = 0
owes before_pop = 0
