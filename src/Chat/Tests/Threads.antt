-- ===== src/Chat/Tests/Threads.antt =====
-- The theorems on the threads at a queue, for two threads and one message.
use assignments_for_csf.Base.{◌+◌, ◌≤◌, ◌≡◌, refl, true, false, List, [], ◌∷◌, ◌++◌, codes}
use assignments_for_csf.Chat.{Message}
use assignments_for_csf.Chat.Rooms.Threads.{
  Place, outside, at_lock, before_push, before_post, before_unlock, at_wait, granted, before_pop,
  Shared, Move, enter_enqueue, lock_push, push, post, unlock, enter_dequeue, grant, lock_pop,
  System, turn, fresh_queue, AllOutside, Reach, start, later,
}
use assignments_for_csf.Chat.Rooms.Threads.Counting.{holds}
use assignments_for_csf.Chat.Rooms.Threads.Safety.{pop-nonempty, pushed-popped, one_lock_holder}
use assignments_for_csf.Chat.Rooms.Threads.Release.{Steps, lock-released}

abbrev msg : Message
msg = record { tag = codes "delivery"; text = codes "cafe:ann:hi" }

-- The first thread at a place, and the second outside.
abbrev at : Shared → Place → System
at shared p = record { shared = shared; threads = p ∷ outside ∷ [] }

first_moves : (s s' : Shared) (p p' : Place) → Reach (at s p) → Move s p s' p' → Reach (at s' p')
first_moves s s' p p' r move =
    later (at s p) (at s' p') r (turn [] (outside ∷ []) p p' refl refl move)

abbrev locked : Shared
locked = record fresh_queue { locked = true }

abbrev holding : Shared
holding = record { locked = true; avail = 0; messages = msg ∷ []; pushed = msg ∷ []; popped = [] }

abbrev posted : Shared
posted = record holding { avail = 1 }

abbrev waiting : Shared
waiting = record posted { locked = false }

abbrev claimed : Shared
claimed = record waiting { avail = 0 }

at_start : Reach (at fresh_queue outside)
unfolding AllOutside
at_start = start _ refl (refl, (refl, tt))

at_push : Reach (at locked (before_push msg))
at_push =
    first_moves fresh_queue locked (at_lock msg) (before_push msg)
      (first_moves fresh_queue fresh_queue outside (at_lock msg) at_start (enter_enqueue msg))
      (lock_push refl)

at_rest : Reach (at waiting outside)
at_rest =
    first_moves posted waiting before_unlock outside
      (first_moves holding posted before_post before_unlock
        (first_moves locked holding (before_push msg) before_post at_push push) post)
      unlock

at_pop : Reach (at holding before_pop)
at_pop =
    first_moves claimed holding granted before_pop
      (first_moves waiting claimed at_wait granted
        (first_moves waiting waiting outside at_wait at_rest enter_dequeue) (grant 0 refl))
      (lock_pop refl)

pop-nonempty_example : (m : Message) × (rest : List Message) × (msg ∷ [] ≡ m ∷ rest)
pop-nonempty_example = pop-nonempty (at holding before_pop) [] (outside ∷ []) at_pop refl

pushed-popped_example : msg ∷ [] ≡ [] ++ msg ∷ []
pushed-popped_example = pushed-popped (at waiting outside) at_rest

one_lock_holder_example : holds before_pop + holds outside ≤ 1
one_lock_holder_example =
    one_lock_holder (at holding before_pop) [] [] [] before_pop outside at_pop refl

lock-released_example : (t : System) × Steps (at holding before_pop) 3 t × (t.shared.locked ≡ false)
lock-released_example = lock-released (at holding before_pop) at_pop refl
