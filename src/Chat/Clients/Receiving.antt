-- ===== src/Chat/Clients/Receiving.antt =====
-- csf_assign05/receiver.cpp: the client that receives.
use assignments_for_csf.Base.{ℕ, zero, suc, ◌+◌, List, [], ◌∷◌, ◌++◌, if◌then◌else◌, codes, str_eq}
use assignments_for_csf.Chat.{
  Message, Result, success, eof_or_error, invalid_msg, Connection, c_string, before_colon,
  after_colon, send, receive,
}
use assignments_for_csf.Chat.Clients.{blank_message, Dial, bad_port, unreachable, connected}

-- The connection, the standard output and the number of calls of `perror`.
pub record Screen : Type 0 where
  pub conn : Connection
  pub output : List ℕ
  pub complaints : ℕ

-- The text that is printed for a delivery: in an `int`, the place -1 is that of no colon.
unfoldable pub shown : List ℕ → List ℕ → List ℕ
shown room_name text =
    let room = before_colon text in
    let message = after_colon text in
    if str_eq room room_name
    then c_string (before_colon message ++ b':' ∷ b' ' ∷ after_colon message)
    else []

-- By the result of `receive`.
unfoldable pub show_response : List ℕ → Result → Screen → Message → Screen
show_response room_name eof_or_error screen response = screen
show_response room_name invalid_msg screen response = record screen {
  complaints = screen.complaints + 1;
}
show_response room_name success screen response =
    if str_eq response.tag (codes "delivery")
    then record screen { output = screen.output ++ shown room_name response.text }
    else record screen { complaints = screen.complaints + 1 }

unfoldable pub listen_once : List ℕ → Screen → Screen
listen_once room_name screen =
    let (conn, response) = receive screen.conn blank_message in
    show_response room_name conn.last_result (record screen { conn = conn }) response

-- The loop, which does not end, for a number of rounds.
unfoldable pub listen : ℕ → List ℕ → Screen → Screen
listen zero room_name screen = screen
listen (suc rounds) room_name screen = listen rounds room_name (listen_once room_name screen)

-- The program has ended with a status and its standard error, or it listens.
pub data Listener : Type 0 where
  exits : ℕ → List ℕ → Listener
  terminated : Listener
  listens : Screen → Listener

-- What the program says of an answer that is not `ok`; the status -1 is 255.
unfoldable pub refused : Message → List ℕ → Listener
refused answer not_normal =
    if str_eq answer.tag (codes "err")
    then exits 255 (c_string answer.text)
    else exits 255 not_normal

unfoldable pub join_room : ℕ → List ℕ → Connection → Listener
join_room rounds room_name conn =
    let conn' = (send conn (record { tag = codes "join"; text = room_name })).0 in
    let (conn'', response2) = receive conn' blank_message in
    let screen = listen rounds room_name (record { conn = conn''; output = []; complaints = 0 }) in
    if str_eq response2.tag (codes "ok")
    then listens screen
    else refused response2 (codes "not normal join tag\n")

unfoldable pub log_in : ℕ → List ℕ → List ℕ → Connection → Listener
log_in rounds username room_name conn =
    let conn' = (send conn (record { tag = codes "rlogin"; text = username })).0 in
    let (conn'', response1) = receive conn' blank_message in
    if str_eq response1.tag (codes "ok")
    then join_room rounds room_name conn''
    else refused response1 (codes "not normal login tag\n")

unfoldable pub after_dial : ℕ → List ℕ → List ℕ → Dial → Listener
after_dial rounds username room_name bad_port = terminated
after_dial rounds username room_name unreachable = exits 1 (codes "Could not connect to server\n")
after_dial rounds username room_name (connected conn) = log_in rounds username room_name conn

-- By the arguments of the program, its name first.
unfoldable pub main : (List ℕ → List ℕ → Dial) → ℕ → List (List ℕ) → Listener
main dial rounds (program ∷ server_hostname ∷ server_port ∷ username ∷ room_name ∷ []) =
    after_dial rounds username room_name (dial server_hostname server_port)
main dial rounds argv =
    exits 1 (codes "Usage: ./receiver [server_address] [port] [username] [room]\n")
