-- ===== src/Chat/Rooms/Queue.antt =====
-- The order of the messages in the queue of a user (message_queue.cpp).
use assignments_for_csf.Base.{
  ℕ, zero, suc, ◌+◌, ◌≡◌, refl, ap, subst, sym, arith, List, [], ◌∷◌, ◌++◌, map, Option, none, some,
  length, length-append,
}
use assignments_for_csf.Chat.{Message}
use assignments_for_csf.Chat.Rooms.{MessageQueue, enqueue, dequeue}

-- The semaphore counts the messages.
unfoldable pub Counts : MessageQueue → Type 0
Counts q = q.avail ≡ length q.messages

pub enqueue-Counts : (q : MessageQueue) (msg : Message) → Counts q → Counts (enqueue q msg)
unfolding Counts enqueue
enqueue-Counts q msg h = omega (arith, length-append q.messages (msg ∷ []))

-- What `n` calls of `dequeue` return.
unfoldable pub drain : ℕ → MessageQueue → List (Option Message)
drain zero q = []
drain (suc n) q = let (msg, q') = dequeue q in msg ∷ drain n q'

drain-from :
    (messages : List Message)
    → drain (suc (length messages)) (record { avail = length messages; messages = messages })
      ≡ map some messages ++ none ∷ []
unfolding drain dequeue
drain-from [] = refl
drain-from (msg ∷ messages) = ap (◌∷◌ (some msg)) (drain-from messages)

-- A queue whose semaphore counts its messages gives them in order, and then none.
pub drain-all :
    (q : MessageQueue)
    → Counts q
    → drain (suc (length q.messages)) q ≡ map some q.messages ++ none ∷ []
unfolding Counts
drain-all q h =
    subst
      (λ n.
        drain (suc (length q.messages)) (record { avail = n; messages = q.messages })
        ≡ map some q.messages ++ none ∷ [])
      (sym h) (drain-from q.messages)

-- If the semaphore counts the messages, then after `enqueue` the calls of `dequeue` return the
-- messages that waited, in order, then the new one, and then time out.
drain-enqueue :
    (q : MessageQueue) (msg : Message)
    → Counts q
    → drain (suc (length q.messages + 1)) (enqueue q msg)
      ≡ map some (q.messages ++ msg ∷ []) ++ none ∷ []
unfolding enqueue
drain-enqueue q msg h =
    subst (λ n. drain (suc n) (enqueue q msg) ≡ map some (q.messages ++ msg ∷ []) ++ none ∷ [])
      (length-append q.messages (msg ∷ [])) (drain-all (enqueue q msg) (enqueue-Counts q msg h))
