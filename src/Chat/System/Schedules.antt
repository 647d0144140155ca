-- ===== src/Chat/System/Schedules.antt =====
-- csf_assign05/server.cpp after any schedule of its threads.
use assignments_for_csf.Base.{
  ℕ, ◌≡◌, refl, ap, ◌∙◌, sym, List, ◌∷◌, ◌++◌, Option, some, codes, length, get_elem?, get_or,
  if◌then◌else◌,
}
use assignments_for_csf.Chat.{Connection, Message}
use assignments_for_csf.Chat.Rooms.{Room, member, find_room, broadcast_message}
use assignments_for_csf.Chat.Rooms.Broadcast.{IsMembership, nobody, told, broadcast_message-each}
use assignments_for_csf.Chat.Rooms.Names.{HasNames}
use assignments_for_csf.Chat.Sender.Cases.{HasRoom}
use assignments_for_csf.Chat.System.{talking, Event, started, run}
use assignments_for_csf.Chat.System.Presence.{present, is_in}
use assignments_for_csf.Chat.System.Distinct.{find_room-IsMembership}
use assignments_for_csf.Chat.System.Threads.{visits, IsPlaced, AllPlaced}
use assignments_for_csf.Chat.System.Order.{AllPlaced-Perm, at_place}
use assignments_for_csf.Chat.System.Turns.{Holds, started-Inv, run-Inv}

holds : (events : List Event) → Holds (run started events)
holds events = run-Inv started events started-Inv

-- After any schedule of connections and turns of the clients' threads: the rooms have distinct
-- names, and the members of a room that is found are distinct users, which all exist, and are
-- exactly the users of the threads that are serving a receiving client in that room.
pub run-members :
    (events : List Event) (name : List ℕ) (r : Room)
    → find_room name (run started events).server.rooms ≡ some r
    → HasNames (run started events).server.rooms
      × IsMembership (length (run started events).server.users) r.members
      × ((user : ℕ) → member user r.members ≡ visits name user (run started events).clients)
unfolding present
run-members events name r found =
    let v = holds events in
    (
      v.names,
      find_room-IsMembership _ name _ r v.distinct found,
      λ user. ap (is_in user) (sym found) ∙ v.exact name user,
    )

-- After any schedule of connections and turns of the clients' threads, a broadcast to a room that
-- is found adds one delivery, with the names of the room and of the sender, to the queue of each
-- user whose thread is serving a receiving client in that room, and changes no other user.
pub run-broadcast_message :
    (events : List Event) (name : List ℕ) (r : Room) (sender text : List ℕ)
    → find_room name (run started events).server.rooms ≡ some r
    → (j : ℕ)
    → get_or (broadcast_message r sender text (run started events).server.users) j nobody ≡ (
        if visits name j (run started events).clients
        then told
            (record { tag = codes "delivery"; text = r.room_name ++ b':' ∷ sender ++ b':' ∷ text })
            (get_or (run started events).server.users j nobody)
        else get_or (run started events).server.users j nobody)
run-broadcast_message events name r sender text found j =
    let (names, distinct, exact) = run-members events name r found in
    broadcast_message-each r sender text (run started events).server.users distinct j
    ∙ rw (exact j) refl

-- After any schedule of connections and turns of the clients' threads, the room that the session of
-- a sending client is in, if it is in one, exists.
pub run-HasRoom :
    (events : List Event) (i : ℕ) (username : List ℕ) (conn : Connection) (m : Message)
    (room : Option (List ℕ))
    → get_elem? (run started events).clients i ≡ some (talking username conn m room)
    → HasRoom room (run started events).server.rooms
unfolding AllPlaced IsPlaced
run-HasRoom events i username conn m room e =
    let (others, there, back) = at_place (run started events).clients i _ e in
    (AllPlaced-Perm (run started events).server.rooms there (holds events).placed).0
