-- ===== src/Chat/System.antt =====
-- csf_assign05/server_main.cpp and server.cpp: Server::handle_client_requests with all its worker threads, which share
-- the rooms and the users' queues. The threads are interleaved at every access to what they share:
-- a turn of a thread makes at most one such access, under its lock, with what the thread does by
-- itself before or after it. A broadcast with its enqueues is one access, under the lock of the
-- room: a `dequeue` of another thread meanwhile touches one queue only, and might as well come
-- before or after the broadcast. A schedule is a list of events; every user that was made keeps its
-- place in the list of users.
pub mod Distinct
pub mod Presence
pub mod Kept
pub mod Threads
pub mod Order
pub mod Invariant
pub mod Turns
pub mod Schedules
use assignments_for_csf.Base.{
  ℕ, Bool, not, ◌||◌, List, [], ◌∷◌, ◌++◌, Option, none, some, codes, str_eq, length, get_elem?,
  get_or, set, if◌then◌else◌,
}
use assignments_for_csf.Libc.{stoi}
use assignments_for_csf.Chat.{
  Message, Result, success, eof_or_error, invalid_msg, Connection, send, receive, has, right_trim,
}
use assignments_for_csf.Chat.Rooms.{dequeue, Server, add_member, find_or_create_room}
use assignments_for_csf.Chat.Worker.{Login, refused, as_sender, as_receiver, login}
use assignments_for_csf.Chat.Sender.{Flow, goes_on, thrown, sender_step}
use assignments_for_csf.Chat.Receiver.{
  deliver_to, is_closed, update_room, leave_room, nobody, add_user,
}

-- Where the thread of a client stands: accepted; in chat_with_sender; in chat_with_receiver before
-- the first message, with its room found, in the loop, and after the loop; or ended.
pub data Client : Type 0 where
  accepted : Connection → Client
  talking : List ℕ → Connection → Message → Option (List ℕ) → Client
  meeting : Connection → ℕ → Client
  entering : Connection → ℕ → List ℕ → Client
  visiting : Connection → ℕ → List ℕ → Client
  leaving : Connection → ℕ → List ℕ → Client
  gone : Connection → Client

unfoldable pub logged_in : Login → Server → Server × Client
logged_in (refused conn) server = (server, gone conn)
logged_in (as_sender conn username) server =
    (server, talking username conn (record { tag = []; text = [] }) none)
logged_in (as_receiver conn username) server =
    (add_user server username, meeting conn (length server.users))

unfoldable pub talked : List ℕ → Flow → Server × Client
talked username (goes_on s) = (s.server, talking username s.conn s.curr_mes s.current_room)
talked username (thrown s) = (s.server, gone s.conn)

abbrev pub sent_away : Connection → Server → List ℕ → Server × Client
sent_away conn server text =
    (server, gone (send conn (record { tag = codes "err"; text = text })).0)

-- By the result of receiving the first message.
unfoldable pub met : Result → Connection → Message → Server → ℕ → Server × Client
met success conn join_meg server user =
    if not (str_eq join_meg.tag (codes "join")) || not (has b'\n' join_meg.text)
    then sent_away conn server (codes "wrong format")
    else (let name = right_trim join_meg.text in
        ((find_or_create_room server name).0, entering conn user name))
met eof_or_error conn join_meg server user = sent_away conn server (codes "something went wrong")
met invalid_msg conn join_meg server user = sent_away conn server (codes "something went wrong")

-- On with the loop for a receiving client, or out of it.
unfoldable pub on_or_out : Connection → ℕ → List ℕ → Client
on_or_out conn user name =
    if is_closed conn.last_result then leaving conn user name else visiting conn user name

unfoldable pub enter : Server → ℕ → List ℕ → Server
enter server user name = record server {
  rooms = update_room name (λ r. add_member r user) server.rooms;
}

unfoldable pub take_message : Server → ℕ → Option Message × Server
take_message server user =
    let now = get_or server.users user nobody in
    let (response, q) = dequeue now.mqueue in
    (response, record server { users = set server.users user (record now { mqueue = q }) })

-- A turn of a client's thread.
unfoldable pub turn : Server → Client → Server × Client
turn server (accepted conn) = logged_in (login conn) server
turn server (talking username conn curr_mes current_room) = talked username (
    sender_step username
      (record { conn = conn; server = server; curr_mes = curr_mes; current_room = current_room }))
turn server (meeting conn user) =
    let (conn', join_meg) = receive conn (record { tag = []; text = [] }) in
    met conn'.last_result conn' join_meg server user
turn server (entering conn user name) =
    let conn' = (send conn (record { tag = codes "ok"; text = [] })).0 in
    (enter server user name, on_or_out conn' user name)
turn server (visiting conn user name) =
    let (response, server') = take_message server user in
    (server', on_or_out (deliver_to conn response) user name)
turn server (leaving conn user name) = (leave_room server name user, gone conn)
turn server (gone conn) = (server, gone conn)

pub record System : Type 0 where
  pub server : Server
  pub clients : List Client

-- A client connects, or the thread of a client has a turn.
pub data Event : Type 0 where
  connects : Connection → Event
  runs : ℕ → Event

unfoldable pub step : System → Event → System
step system (connects conn) = record system { clients = system.clients ++ accepted conn ∷ [] }
step system (runs i) = elim (get_elem? system.clients i) [
  | none ↦ system
  | some client ↦
      let (server, client') = turn system.server client in
      record { server = server; clients = set system.clients i client' }
]

-- The server at its start.
abbrev pub started : System
started = record { server = record { rooms = []; users = [] }; clients = [] }

unfoldable pub run : System → List Event → System
run system [] = system
run system (event ∷ events) = run (step system event) events

-- How server_main.cpp ends, or the server that is running: a wrong number of arguments, a port
-- that `stoi` does not read, a port on which Server::listen fails.
pub data Outcome : Type 0 where
  usage : Outcome
  uncaught : Outcome
  not_listening : ℕ → Outcome
  serving_clients : ℕ → System → Outcome

-- `listens` is what Server::listen returns for a port.
unfoldable pub main : (ℕ → Bool) → List (List ℕ) → List Event → Outcome
main listens (argument ∷ []) events = elim (stoi argument) [
  | none ↦ uncaught
  | some port ↦
      if listens port then serving_clients port (run started events) else not_listening port
]
main listens arguments events = usage
