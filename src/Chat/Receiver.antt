-- ===== src/Chat/Receiver.antt =====
-- csf_assign05/server.cpp: `chat_with_receiver`, and `worker` as a whole. While a receiving client
-- is served, other threads enqueue messages for it: the messages that arrive before each call of
-- `dequeue` are an input, and so is the number of those calls.
pub mod Delivery
pub mod Draining
pub mod Departure
pub mod Whole
use assignments_for_csf.Base.{
  ℕ, ◌+◌, Bool, true, false, not, ◌||◌, List, [], ◌∷◌, ◌++◌, Option, none, some, if◌then◌else◌,
  codes, str_eq, length, get_or, set,
}
use assignments_for_csf.Chat.{
  Message, Result, success, eof_or_error, invalid_msg, Connection, send, receive, has, right_trim,
}
use assignments_for_csf.Chat.Rooms.{
  MessageQueue, empty_queue, enqueue, dequeue, User, Room, Server, add_member, remove_member,
  find_or_create_room,
}
use assignments_for_csf.Chat.Worker.{Login, refused, as_sender, as_receiver, login}
use assignments_for_csf.Chat.Sender.{Session, chat_with_sender}

unfoldable pub enqueue_all : MessageQueue → List Message → MessageQueue
enqueue_all q [] = q
enqueue_all q (msg ∷ messages) = enqueue_all (enqueue q msg) messages

-- The connection and the queue after the loop, and whether the loop is still running.
pub record Served : Type 0 where
  pub conn : Connection
  pub mqueue : MessageQueue
  pub running : Bool

-- `response != nullptr`
unfoldable pub deliver_to : Connection → Option Message → Connection
deliver_to conn none = conn
deliver_to conn (some response) = (send conn response).0

abbrev pub is_closed : Result → Bool
is_closed eof_or_error = true
is_closed success = false
is_closed invalid_msg = false

-- The loop, by the messages that arrive before each of its rounds.
unfoldable pub serve : List (List Message) → Connection → MessageQueue → Served
serve [] conn q = record { conn = conn; mqueue = q; running = true }
serve (arrivals ∷ polls) conn q =
    let (response, q') = dequeue (enqueue_all q arrivals) in
    let conn' = deliver_to conn response in
    let later = serve polls conn' q' in
    if is_closed conn'.last_result
    then record { conn = conn'; mqueue = q'; running = false }
    else later

-- A change to the room of a name.
unfoldable pub update_room : List ℕ → (Room → Room) → List Room → List Room
update_room name f [] = []
update_room name f (r ∷ rooms) =
    if str_eq r.room_name name then f r ∷ rooms else r ∷ update_room name f rooms

unfoldable pub join_room : Server → List ℕ → ℕ → Server
join_room server name user =
    let found = (find_or_create_room server name).0 in
    record found { rooms = update_room name (λ r. add_member r user) found.rooms }

unfoldable pub leave_room : Server → List ℕ → ℕ → Server
leave_room server name user = record server {
  rooms = update_room name (λ r. remove_member r user) server.rooms;
}

-- The function has thrown or returned, or it still serves the client.
pub data Visit : Type 0 where
  over : Connection → Server → Visit
  serving : Connection → Server → Visit

unfoldable pub turn_away : Connection → Server → List ℕ → Visit
turn_away conn server text = over (send conn (record { tag = codes "err"; text = text })).0 server

abbrev pub nobody : User
nobody = record { username = []; mqueue = empty_queue }

-- The end of the loop.
unfoldable pub end_visit : Served → Server → List ℕ → ℕ → Visit
end_visit served server name user =
    let users =
      set server.users user (record (get_or server.users user nobody) { mqueue = served.mqueue }) in
    let server' : Server = record server { users = users } in
    if served.running
    then serving served.conn server'
    else over served.conn (leave_room server' name user)

-- From the join on.
unfoldable pub visit_room : Connection → Server → ℕ → List (List Message) → List ℕ → Visit
visit_room conn server user polls name =
    let joined = join_room server name user in
    let conn' = (send conn (record { tag = codes "ok"; text = [] })).0 in
    if is_closed conn'.last_result
    then over conn' (leave_room joined name user)
    else end_visit (serve polls conn' (get_or joined.users user nobody).mqueue) joined name user

-- By the result of receiving the first message.
unfoldable pub on_first : Result → Connection → Server → ℕ → List (List Message) → Message → Visit
on_first success conn server user polls join_meg =
    if not (str_eq join_meg.tag (codes "join")) || not (has b'\n' join_meg.text)
    then turn_away conn server (codes "wrong format")
    else visit_room conn server user polls (right_trim join_meg.text)
on_first eof_or_error conn server user polls join_meg =
    turn_away conn server (codes "something went wrong")
on_first invalid_msg conn server user polls join_meg =
    turn_away conn server (codes "something went wrong")

unfoldable pub chat_with_receiver : Connection → Server → ℕ → List (List Message) → Visit
chat_with_receiver conn server user polls =
    let (conn', join_meg) = receive conn (record { tag = []; text = [] }) in
    on_first conn'.last_result conn' server user polls join_meg

-- The loop for a sending client ends; `none` would be a lack of fuel.
unfoldable pub after_sender : Option Session → Connection → Server → Visit
after_sender none conn server = over conn server
after_sender (some s) conn server = over s.conn s.server

-- The new user has the next place in the list of users.
unfoldable pub add_user : Server → List ℕ → Server
add_user server username =
    let user : User = record { username = username; mqueue = empty_queue } in
    record server { users = server.users ++ user ∷ [] }

unfoldable pub after_login : Login → Server → List (List Message) → Visit
after_login (refused conn) server polls = over conn server
after_login (as_sender conn username) server polls =
    after_sender (chat_with_sender conn server username) conn server
after_login (as_receiver conn username) server polls =
    chat_with_receiver conn (add_user server username) (length server.users) polls

unfoldable pub worker : Connection → Server → List (List Message) → Visit
worker conn server polls = after_login (login conn) server polls
