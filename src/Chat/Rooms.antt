-- ===== src/Chat/Rooms.antt =====
-- csf_assign05/user.h, message_queue.cpp, room.cpp and Server::find_or_create_room of server.cpp:
-- users with their queues, rooms with their members. A user is known by its place in the list of
-- users, a room by its name. The locks make each operation one step.
pub mod Queue
pub mod Broadcast
pub mod Names
pub mod Growth
pub mod Counted
pub mod Threads
use assignments_for_csf.Base.{
  ℕ, zero, suc, ◌+◌, Bool, false, ◌||◌, List, [], ◌∷◌, ◌++◌, Option, none, some, ◌==◌,
  if◌then◌else◌, codes, str_eq, get_or, set,
}
use assignments_for_csf.Chat.{Message}

-- The semaphore's count and the messages.
pub record MessageQueue : Type 0 where
  pub avail : ℕ
  pub messages : List Message

abbrev pub empty_queue : MessageQueue
empty_queue = record { avail = 0; messages = [] }

unfoldable pub enqueue : MessageQueue → Message → MessageQueue
enqueue q msg = record { avail = q.avail + 1; messages = q.messages ++ msg ∷ [] }

-- The wait on a count of 0 ends after a second, without a message. An empty queue with a count
-- above 0 would be undefined behaviour; here it leaves the queue empty.
unfoldable pub dequeue : MessageQueue → Option Message × MessageQueue
dequeue q = elim q.avail [
  | zero ↦ (none, q)
  | suc avail ↦ elim q.messages [
    | [] ↦ (none, record { avail = avail; messages = [] })
    | msg ∷ messages ↦ (some msg, record { avail = avail; messages = messages })
  ]
]

pub record User : Type 0 where
  pub username : List ℕ
  pub mqueue : MessageQueue

pub record Room : Type 0 where
  pub room_name : List ℕ
  pub members : List ℕ

pub record Server : Type 0 where
  pub rooms : List Room
  pub users : List User

unfoldable pub member : ℕ → List ℕ → Bool
member user [] = false
member user (m ∷ members) = m == user || member user members

unfoldable pub add_member : Room → ℕ → Room
add_member room user = record room {
  members = if member user room.members then room.members else room.members ++ user ∷ [];
}

unfoldable pub erase_member : ℕ → List ℕ → List ℕ
erase_member user [] = []
erase_member user (m ∷ members) = if m == user then members else m ∷ erase_member user members

unfoldable pub remove_member : Room → ℕ → Room
remove_member room user = record room { members = erase_member user room.members }

unfoldable pub deliver : Message → List ℕ → List User → List User
deliver msg [] users = users
deliver msg (m ∷ members) users =
    let now = get_or users m (record { username = []; mqueue = empty_queue }) in
    deliver msg members (set users m (record now { mqueue = enqueue now.mqueue msg }))

unfoldable pub broadcast_message : Room → List ℕ → List ℕ → List User → List User
broadcast_message room sender_username message_text users =
    let text = room.room_name ++ b':' ∷ sender_username ++ b':' ∷ message_text in
    deliver (record { tag = codes "delivery"; text = text }) room.members users

unfoldable pub find_room : List ℕ → List Room → Option Room
find_room name [] = none
find_room name (r ∷ rooms) = if str_eq r.room_name name then some r else find_room name rooms

unfoldable pub find_or_create_room : Server → List ℕ → Server × Room
find_or_create_room server room_name = elim (find_room room_name server.rooms) [
  | some room ↦ (server, room)
  | none ↦
      let room : Room = record { room_name = room_name; members = [] } in
      (record server { rooms = server.rooms ++ room ∷ [] }, room)
]
