-- ===== src/Chat/Tests/Clients.antt =====
-- The theorems on the clients, and on the server's side of a receiving client, at a room `cafe`.
use assignments_for_csf.Base.{
  ℕ, ◌<◌, length, ◌≡◌, refl, arith, true, false, List, [], ◌∷◌, ◌++◌, some, codes, str_eq, get_or,
  if◌then◌else◌,
}
use assignments_for_csf.Chat.{
  Message, Connection, success, encode, has, right_trim, send, c_string, max_len,
}
use assignments_for_csf.Chat.Rooms.{
  empty_queue, enqueue, dequeue, User, Room, Server, member, find_room, find_or_create_room,
}
use assignments_for_csf.Chat.Rooms.Broadcast.{IsMembership, nobody, told}
use assignments_for_csf.Chat.Sender.{Session, goes_on, sender_step}
use assignments_for_csf.Chat.Receiver.{enqueue_all, deliver_to, serve, worker}
use assignments_for_csf.Chat.Receiver.Delivery.{queue_of, all_of, Delivers, serve-Delivers}
use assignments_for_csf.Chat.Receiver.Departure.{IsAbsent, Visits}
use assignments_for_csf.Chat.Receiver.Whole.{worker-Visits}
use assignments_for_csf.Chat.Clients.Sending.{
  Talk, message_for, command, starts_with, after_space, skip_space, send_helper,
}
use assignments_for_csf.Chat.Clients.Commands.{
  IsTalk, AllTalk, send_helper-endless, join-reaches, line-reaches,
}
use assignments_for_csf.Chat.Clients.Receiving.{Screen}
use assignments_for_csf.Chat.Clients.Lines.{Said, delivery}

abbrev said : Said
said = record { user = codes "ann"; text = codes "hi" }

abbrev told_hi : Message
told_hi = delivery (codes "cafe") said

-- The server's end of the connection of a receiving client.
abbrev client : Connection
client = record { incoming = []; writes = true ∷ true ∷ []; sent = []; last_result = success }

one_round : (serve ((told_hi ∷ []) ∷ []) client (queue_of [])).running ≡ true
unfolding serve enqueue_all enqueue dequeue deliver_to send
one_round = refl

serve-Delivers_example :
    Delivers client (told_hi ∷ []) (serve ((told_hi ∷ []) ∷ []) client (queue_of []))
unfolding all_of
serve-Delivers_example = serve-Delivers ((told_hi ∷ []) ∷ []) [] client refl one_round

plain_room : (has b':' (codes "cafe") ≡ false) × (has 0 (codes "cafe") ≡ false)
unfolding has
plain_room = (refl, refl)

abbrev screen : List (List ℕ) → Screen
screen incoming = record {
  conn = record { incoming = incoming; writes = []; sent = []; last_result = success };
  output = [];
  complaints = 0;
}

abbrev written : List (List ℕ)
written = (serve ((told_hi ∷ []) ∷ [] ∷ []) client (queue_of [])).conn.sent

abbrev room : Room
room = record { room_name = codes "cafe"; members = 1 ∷ [] }

abbrev user : List ℕ → User
user name = record { username = name; mqueue = empty_queue }

abbrev server : Server
server = record { rooms = room ∷ []; users = user (codes "ann") ∷ user (codes "bob") ∷ [] }

-- A client that logs in as a receiver, and joins.
abbrev joining : Connection
joining = record client {
  incoming =
      encode (record { tag = codes "rlogin"; text = codes "eve" })
      ∷ encode (record { tag = codes "join"; text = codes "cafe" })
      ∷ [];
  writes = true ∷ true ∷ true ∷ [];
}

nobody_yet : IsAbsent 2 server.rooms
unfolding IsAbsent member
nobody_yet = (refl, tt)

worker-Visits_example : Visits 2 server.rooms (worker joining server ((told_hi ∷ []) ∷ [] ∷ []))
worker-Visits_example = worker-Visits joining server ((told_hi ∷ []) ∷ [] ∷ []) nobody_yet

abbrev talk : Talk
talk = record { conn = client; input = codes "hi" ∷ []; errors = [] }

talk-AllTalk : AllTalk talk.input
unfolding AllTalk IsTalk message_for str_eq
talk-AllTalk = (refl, tt)

send_helper-endless_example : (send_helper 3 talk).0 ≡ false
send_helper-endless_example = send_helper-endless 3 talk talk-AllTalk

-- The session of a sending client whose next line is a message.
abbrev session : Message → Session
session m = record {
  conn = record client { incoming = encode m ∷ [] };
  server = server;
  curr_mes = record { tag = []; text = [] };
  current_room = some (codes "cafe");
}

join_fits : length (encode (message_for (codes "/join cafe"))) < max_len
unfolding message_for command starts_with after_space skip_space encode c_string
join_fits = omega arith

hi_fits : length (encode (message_for (codes "hi"))) < max_len
unfolding message_for encode c_string
hi_fits = omega arith

join-reaches_example :
    (s' : Session) × (sender_step (codes "ann") (session (message_for (codes "/join cafe")))
      ≡ goes_on s')
    × (s'.current_room ≡ some (right_trim (codes "cafe")))
    × (s'.server ≡ (find_or_create_room server (right_trim (codes "cafe"))).0)
join-reaches_example =
    join-reaches (codes "ann") (session (message_for (codes "/join cafe"))) (codes "cafe") []
      (true ∷ []) plain_room.1 refl join_fits refl

no_nul : has 0 (codes "hi") ≡ false
unfolding has
no_nul = refl

found : find_room (codes "cafe") server.rooms ≡ some room
unfolding find_room str_eq
found = refl

room-IsMembership : IsMembership 2 room.members
unfolding IsMembership member
room-IsMembership = (omega arith, refl, tt)

line-reaches_example :
    (s' : Session) × (sender_step (codes "ann") (session (message_for (codes "hi"))) ≡ goes_on s')
    × (s'.current_room ≡ some (codes "cafe"))
    × ((j : ℕ)
        → get_or s'.server.users j nobody ≡ (
            if member j (1 ∷ [])
            then told
                (record {
                  tag = codes "delivery";
                  text = codes "cafe" ++ b':' ∷ codes "ann" ++ b':' ∷ right_trim (codes "hi");
                })
                (get_or server.users j nobody)
            else get_or server.users j nobody))
line-reaches_example =
    line-reaches (codes "ann") (session (message_for (codes "hi"))) b'h' (codes "i") [] (true ∷ [])
      (codes "cafe") room refl no_nul refl hi_fits refl refl found room-IsMembership
