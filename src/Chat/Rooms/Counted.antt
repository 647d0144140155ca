-- ===== src/Chat/Rooms/Counted.antt =====
-- The queues of all users (room.cpp and message_queue.cpp) and their semaphores.
use assignments_for_csf.Base.{
  ℕ, zero, suc, ◌≡◌, refl, arith, List, [], ◌∷◌, ◌++◌, length, get_or, set,
}
use assignments_for_csf.Chat.{Message}
use assignments_for_csf.Chat.Rooms.{MessageQueue, dequeue, User, Room, deliver, broadcast_message}
use assignments_for_csf.Chat.Rooms.Queue.{Counts, enqueue-Counts}
use assignments_for_csf.Chat.Rooms.Broadcast.{nobody}

unfoldable pub AllCount : List User → Type 0
AllCount [] = Unit
AllCount (u ∷ users) = Counts u.mqueue × AllCount users

pub get-Counts :
    (users : List User) (i : ℕ) → AllCount users → Counts (get_or users i nobody).mqueue
unfolding AllCount Counts
get-Counts [] i h = refl
get-Counts (u ∷ users) zero (c, h) = c
get-Counts (u ∷ users) (suc i) (c, h) = get-Counts users i h

pub set-AllCount :
    (users : List User) (i : ℕ) (u : User)
    → AllCount users
    → Counts u.mqueue
    → AllCount (set users i u)
unfolding AllCount
set-AllCount [] i u h c = tt
set-AllCount (v ∷ users) zero u (d, h) c = (c, h)
set-AllCount (v ∷ users) (suc i) u (d, h) c = (d, set-AllCount users i u h c)

pub append-AllCount :
    (users : List User) (u : User) → AllCount users → Counts u.mqueue → AllCount (users ++ u ∷ [])
unfolding AllCount
append-AllCount [] u h c = (c, tt)
append-AllCount (v ∷ users) u (d, h) c = (d, append-AllCount users u h c)

deliver-AllCount :
    (msg : Message) (members : List ℕ) (users : List User)
    → AllCount users
    → AllCount (deliver msg members users)
unfolding deliver
deliver-AllCount msg [] users h = h
deliver-AllCount msg (m ∷ members) users h =
    deliver-AllCount msg members _
      (set-AllCount users m _ h (enqueue-Counts _ msg (get-Counts users m h)))

pub broadcast_message-AllCount :
    (room : Room) (sender text : List ℕ) (users : List User)
    → AllCount users
    → AllCount (broadcast_message room sender text users)
unfolding broadcast_message
broadcast_message-AllCount room sender text users h = deliver-AllCount _ room.members users h

pub dequeue-Counts : (q : MessageQueue) → Counts q → Counts (dequeue q).1
unfolding dequeue Counts
dequeue-Counts q h = by_parts q.avail q.messages h
  where
    by_parts :
        (avail : ℕ) (messages : List Message)
        → avail ≡ length messages
        → (dequeue (record { avail = avail; messages = messages })).1.avail
          ≡ length (dequeue (record { avail = avail; messages = messages })).1.messages
    by_parts zero messages e = e
    by_parts (suc avail) [] e = absurd (omega (arith, e))
    by_parts (suc avail) (msg ∷ messages) e = omega (arith, e)
