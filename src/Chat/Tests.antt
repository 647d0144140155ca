-- ===== src/Chat/Tests.antt =====
-- The theorems on the chat at concrete messages, rooms and clients.
mod Threads
mod Clients
mod System
use assignments_for_csf.Base.{replicate, ℕ, ◌≡◌, true, List, [], ◌∷◌, none, some, codes}
use assignments_for_csf.Chat.{Message, Connection, success, encode}
use assignments_for_csf.Chat.Rooms.{empty_queue, Room, User, Server}
use assignments_for_csf.Chat.Sender.{Session, chat_with_sender}
use assignments_for_csf.Chat.Sender.Replies.{chat_with_sender-ends}

abbrev join : Message
join = record { tag = codes "join"; text = codes "cafe" }

abbrev conn : Connection
conn = record { incoming = encode join ∷ []; writes = true ∷ []; sent = []; last_result = success }

-- A text of 300 letters comes in two pieces.
abbrev long : Message
long = record { tag = codes "join"; text = replicate 300 97 }

abbrev room : Room
room = record { room_name = codes "cafe"; members = 1 ∷ [] }

abbrev user : List ℕ → User
user name = record { username = name; mqueue = empty_queue }

abbrev users : List User
users = user (codes "ann") ∷ user (codes "bob") ∷ []

abbrev server : Server
server = record { rooms = room ∷ []; users = users }

abbrev session : Session
session = record { conn = conn; server = server; curr_mes = join; current_room = none }

chat_with_sender-ends_example :
    (s : Session) × (chat_with_sender conn server (codes "ann") ≡ some s)
chat_with_sender-ends_example = chat_with_sender-ends conn server (codes "ann")
