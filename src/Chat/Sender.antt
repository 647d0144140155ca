-- ===== src/Chat/Sender.antt =====
-- csf_assign05/server.cpp: the loop that serves a sending client.
pub mod Cases
pub mod Replies
pub mod Growth
use assignments_for_csf.Base.{
  ◌∷◌, ◌+◌, ℕ, zero, suc, ◌+◌, List, [], Option, none, some, if◌then◌else◌, codes, str_eq, length,
}
use assignments_for_csf.Chat.{
  Message, Result, success, eof_or_error, invalid_msg, Connection, send, receive, has, right_trim,
}
use assignments_for_csf.Chat.Rooms.{Server, find_room, find_or_create_room, broadcast_message}

-- The connection, the server, and the local variables of the loop; the room is the name of the
-- room that the pointer points to.
pub record Session : Type 0 where
  pub conn : Connection
  pub server : Server
  pub curr_mes : Message
  pub current_room : Option (List ℕ)

-- A round goes on to the next, or throws.
pub data Flow : Type 0 where
  goes_on : Session → Flow
  thrown : Session → Flow

abbrev pub after : Flow → Session
after (goes_on s) = s
after (thrown s) = s

-- Sending a reply, and throwing if that fails.
unfoldable pub reply : Session → List ℕ → List ℕ → Flow
reply s tag text =
    let (conn, sent) = send s.conn (record { tag = tag; text = text }) in
    if sent then goes_on (record s { conn = conn }) else thrown (record s { conn = conn })

abbrev pub reply_ok : Session → Flow
reply_ok s = reply s (codes "ok") []

abbrev pub reply_err : Session → List ℕ → Flow
reply_err s text = reply s (codes "err") text

-- Once the reply to `quit` has been tried, the loop ends.
abbrev pub stop : Flow → Flow
stop (goes_on s) = thrown s
stop (thrown s) = thrown s

unfoldable pub on_join : Session → Flow
on_join s =
    if has b'\n' s.curr_mes.text
    then (let name = right_trim s.curr_mes.text in
        let (server, room) = find_or_create_room s.server name in
        reply_ok (record s { server = server; current_room = some room.room_name }))
    else reply_err s (codes "wrong room format")

-- By the room that the client is in.
unfoldable pub leave_from : Option (List ℕ) → Session → Flow
leave_from none s = reply_err s (codes "wrong")
leave_from (some room) s = reply_ok (record s { current_room = none })

unfoldable pub on_leave : Session → Flow
on_leave s = leave_from s.current_room s

unfoldable pub broadcast_to : List ℕ → List ℕ → List ℕ → Server → Server
broadcast_to room username text server = elim (find_room room server.rooms) [
  | none ↦ server
  | some r ↦ record server { users = broadcast_message r username text server.users }
]

unfoldable pub sendall_in : Option (List ℕ) → List ℕ → Session → Flow
sendall_in none username s = reply_err s (codes "don't join a room")
sendall_in (some room) username s =
    if has b'\n' s.curr_mes.text
    then reply_ok
        (record s { server = broadcast_to room username (right_trim s.curr_mes.text) s.server })
    else reply_err s (codes "wrong formate")

unfoldable pub on_sendall : List ℕ → Session → Flow
on_sendall username s = sendall_in s.current_room username s

-- What a valid message asks for.
unfoldable pub on_message : List ℕ → Session → Flow
on_message username s =
    let tag = s.curr_mes.tag in
    if str_eq tag (codes "join")
    then on_join s
    else if str_eq tag (codes "leave")
    then on_leave s
    else if str_eq tag (codes "sendall")
    then on_sendall username s
    else if str_eq tag (codes "quit")
    then stop (reply_ok s)
    else reply_err s (codes "wrong tag pops up")

-- What follows a call of `receive`, by its result.
unfoldable pub on_result : Result → List ℕ → Session → Flow
on_result eof_or_error username s = thrown s
on_result invalid_msg username s = reply_err s (codes "wrong message")
on_result success username s = on_message username s

-- A round of the loop.
unfoldable pub sender_step : List ℕ → Session → Flow
sender_step username s =
    let (conn, msg) = receive s.conn s.curr_mes in
    on_result conn.last_result username (record s { conn = conn; curr_mes = msg })

-- The loop, on fuel; `none` is fuel that does not suffice.
unfoldable pub sender_loop : ℕ → List ℕ → Session → Option Session
sender_loop zero username s = none
sender_loop (suc fuel) username s = elim (sender_step username s) [
  | goes_on s' ↦ sender_loop fuel username s'
  | thrown s' ↦ some s'
]

-- More than enough for the reads of these lines: every read takes a byte, or the end of a line.
unfoldable pub unread : List (List ℕ) → ℕ
unread [] = 0
unread (line ∷ incoming) = length line + 1 + unread incoming

-- `chat_with_sender` until it throws.
unfoldable pub chat_with_sender : Connection → Server → List ℕ → Option Session
chat_with_sender conn server username =
    let curr_mes : Message = record { tag = []; text = [] } in
    sender_loop (unread conn.incoming + 1) username
      (record { conn = conn; server = server; curr_mes = curr_mes; current_room = none })
