-- ===== src/Chat/Tests/System.antt =====
-- The theorems on the whole chat server, for a receiving client and a sending client.
use assignments_for_csf.Base.{
  ℕ, ◌≡◌, refl, List, [], ◌∷◌, some, true, codes, str_eq, length, get_elem?, get_or, if◌then◌else◌,
}
use assignments_for_csf.Chat.{
  Connection, success, send, c_string, next_piece, before_colon, after_first, after_colon, encode,
  receive, has, known_tag, right_trim, trim_end,
}
use assignments_for_csf.Chat.Rooms.{
  Room, member, add_member, find_room, find_or_create_room, broadcast_message,
}
use assignments_for_csf.Chat.Rooms.Names.{HasNames}
use assignments_for_csf.Chat.Rooms.Broadcast.{IsMembership, nobody, told}
use assignments_for_csf.Chat.Worker.{
  login, login_result, check_name, valid_name, all_in_alphabet, by_tag, refuse,
}
use assignments_for_csf.Chat.Sender.{sender_step, on_result, on_message, on_join, reply}
use assignments_for_csf.Chat.Sender.Cases.{HasRoom}
use assignments_for_csf.Chat.Receiver.{add_user, update_room}
use assignments_for_csf.Chat.System.{
  talking, Event, connects, runs, started, run, step, turn, logged_in, met, enter, on_or_out,
  talked,
}
use assignments_for_csf.Chat.System.Threads.{visits}
use assignments_for_csf.Chat.System.Schedules.{run-members, run-broadcast_message, run-HasRoom}

abbrev listener : Connection
listener = record {
  incoming = codes "rlogin:bob\n" ∷ codes "join:cafe\n" ∷ [];
  writes = true ∷ true ∷ true ∷ [];
  sent = [];
  last_result = success;
}

abbrev talker : Connection
talker = record {
  incoming = codes "slogin:ann\n" ∷ codes "join:cafe\n" ∷ [];
  writes = true ∷ true ∷ true ∷ [];
  sent = [];
  last_result = success;
}

-- The receiving client is served, and the sending client has joined the same room.
abbrev events : List Event
events = connects listener ∷ connects talker ∷ runs 0 ∷ runs 1 ∷ runs 0 ∷ runs 1 ∷ runs 0 ∷ []

abbrev cafe : Room
cafe = record { room_name = codes "cafe"; members = 0 ∷ [] }

there : find_room (codes "cafe") (run started events).server.rooms ≡ some cafe
unfolding run step turn logged_in met enter on_or_out talked login login_result check_name
    valid_name all_in_alphabet by_tag refuse sender_step on_result on_message on_join reply add_user
    update_room find_room find_or_create_room member add_member send receive encode c_string
    next_piece before_colon after_colon after_first has known_tag trim_end right_trim str_eq
there = refl

run-members_example :
    HasNames (run started events).server.rooms
    × IsMembership (length (run started events).server.users) (0 ∷ [])
    × ((user : ℕ) → member user (0 ∷ []) ≡ visits (codes "cafe") user (run started events).clients)
run-members_example = run-members events (codes "cafe") cafe there

run-broadcast_message_example :
    get_or
      (broadcast_message cafe (codes "ann") (codes "hi") (run started events).server.users)
      0
      nobody
    ≡ (if visits (codes "cafe") 0 (run started events).clients
        then told
            (record { tag = codes "delivery"; text = codes "cafe:ann:hi" })
            (get_or (run started events).server.users 0 nobody)
        else get_or (run started events).server.users 0 nobody)
run-broadcast_message_example =
    run-broadcast_message events (codes "cafe") cafe (codes "ann") (codes "hi") there 0

abbrev talker_in : Connection
talker_in = record {
  incoming = [];
  writes = true ∷ [];
  sent = codes "ok:\n" ∷ codes "ok:\n" ∷ [];
  last_result = success;
}

in_room :
    get_elem? (run started events).clients 1
    ≡ some (
        talking
          (codes "ann")
          talker_in
          (record { tag = codes "join"; text = codes "cafe\n" })
          (some (codes "cafe")))
unfolding run step turn logged_in met enter on_or_out talked login login_result check_name
    valid_name all_in_alphabet by_tag refuse sender_step on_result on_message on_join reply add_user
    update_room find_room find_or_create_room member add_member send receive encode c_string
    next_piece before_colon after_colon after_first has known_tag trim_end right_trim str_eq
in_room = refl

run-HasRoom_example : HasRoom (some (codes "cafe")) (run started events).server.rooms
run-HasRoom_example =
    run-HasRoom events 1 (codes "ann") talker_in
      (record { tag = codes "join"; text = codes "cafe\n" }) (some (codes "cafe")) in_room
