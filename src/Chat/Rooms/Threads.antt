-- ===== src/Chat/Rooms/Threads.antt =====
-- csf_assign05/message_queue.cpp under several threads: every access to the shared state of a queue
-- is a step of its own. The histories of what was pushed and popped are kept beside the state.
pub mod Counting
pub mod Safety
pub mod Release
use assignments_for_csf.Base.{ℕ, ◌+◌, ◌≡◌, Bool, true, false, List, [], ◌∷◌, ◌++◌}
use assignments_for_csf.Chat.{Message}

-- Where a thread stands in `enqueue` or in `dequeue`.
pub data Place : Type 0 where
  outside : Place
  at_lock : Message → Place
  before_push : Message → Place
  before_post : Place
  before_unlock : Place
  at_wait : Place
  granted : Place
  before_pop : Place

pub record Shared : Type 0 where
  pub locked : Bool
  pub avail : ℕ
  pub messages : List Message
  pub pushed : List Message
  pub popped : List Message

-- A step of one thread. `sem_timedwait` may give up at any time; `front` of an empty deque is
-- undefined behaviour, so `pop` asks for a message.
pub data Move (s : Shared) : Place → Shared → Place → Type 0 where
  enter_enqueue : (msg : Message) → Move s outside s (at_lock msg)
  lock_push :
      {msg : Message}
      → s.locked ≡ false
      → Move s (at_lock msg) (record s { locked = true }) (before_push msg)
  push :
      {msg : Message}
      → Move s
          (before_push msg)
          (record s { messages = s.messages ++ msg ∷ []; pushed = s.pushed ++ msg ∷ [] })
          before_post
  post : Move s before_post (record s { avail = s.avail + 1 }) before_unlock
  unlock : Move s before_unlock (record s { locked = false }) outside
  enter_dequeue : Move s outside s at_wait
  give_up : Move s at_wait s outside
  grant : (n : ℕ) → s.avail ≡ n + 1 → Move s at_wait (record s { avail = n }) granted
  lock_pop : s.locked ≡ false → Move s granted (record s { locked = true }) before_pop
  pop :
      (msg : Message) (rest : List Message)
      → s.messages ≡ msg ∷ rest
      → Move s before_pop
          (record s { messages = rest; popped = s.popped ++ msg ∷ [] })
          before_unlock

pub record System : Type 0 where
  pub shared : Shared
  pub threads : List Place

-- One of the threads takes a step.
pub data Step (s t : System) : Type 0 where
  turn :
      (before after : List Place) (p p' : Place)
      → s.threads ≡ before ++ (p ∷ after)
      → t.threads ≡ before ++ (p' ∷ after)
      → Move s.shared p t.shared p'
      → Step s t

abbrev pub fresh_queue : Shared
fresh_queue = record { locked = false; avail = 0; messages = []; pushed = []; popped = [] }

unfoldable pub AllOutside : List Place → Type 0
AllOutside [] = Unit
AllOutside (p ∷ threads) = (p ≡ outside) × AllOutside threads

-- All threads start outside, at the queue that the constructor made.
pub data Reach : System → Type 0 where
  start : (s : System) → s.shared ≡ fresh_queue → AllOutside s.threads → Reach s
  later : (s t : System) → Reach s → Step s t → Reach t
