-- ===== src/Chat/Clients/Sending.antt =====
-- csf_assign05/sender.cpp: the client that sends. Its input is a list of lines, after which
-- `std::getline` fails and leaves the text empty.
use assignments_for_csf.Base.{
  ℕ, zero, suc, Bool, true, false, ◌&&◌, List, [], ◌∷◌, ◌++◌, ◌==◌, if◌then◌else◌, codes, str_eq,
}
use assignments_for_csf.Chat.{Message, Connection, c_string, send, receive}
use assignments_for_csf.Chat.Clients.{
  blank_message, is_success, Dial, bad_port, unreachable, connected,
}

-- The connection, the lines to come and what is on the standard error.
pub record Talk : Type 0 where
  pub conn : Connection
  pub input : List (List ℕ)
  pub errors : List (List ℕ)

unfoldable pub starts_with : List ℕ → List ℕ → Bool
starts_with [] s = true
starts_with (c ∷ word) [] = false
starts_with (c ∷ word) (d ∷ s) = c == d && starts_with word s

unfoldable pub skip_space : List ℕ → List ℕ → List ℕ
skip_space whole [] = whole
skip_space whole (c ∷ s) = if c == b' ' then s else skip_space whole s

-- `input_gotten.substr(input_gotten.find(" ") + 1, …)`: without a space, the whole text.
unfoldable pub after_space : List ℕ → List ℕ
after_space s = skip_space s s

-- The message for a line that starts with a slash, from what follows the slash.
unfoldable pub command : List ℕ → List ℕ → Message
command input word =
    if starts_with (codes "join") word
    then record { tag = codes "join"; text = after_space input }
    else if starts_with (codes "leave") word
    then record { tag = codes "leave"; text = [] }
    else if starts_with (codes "quit") word
    then record { tag = codes "quit"; text = [] }
    else blank_message

unfoldable pub message_for : List ℕ → Message
message_for [] = record { tag = codes "sendall"; text = [] }
message_for (c ∷ word) =
    if c == b'/' then command (c ∷ word) word else record { tag = codes "sendall"; text = c ∷ word }

-- What the line puts on the standard error: the message stays blank only for a bad command.
unfoldable pub complaint : Message → List (List ℕ)
complaint msg = if str_eq msg.tag [] then codes "The command is not valid\n" ∷ [] else []

abbrev pub first_line : List (List ℕ) → List ℕ
first_line [] = []
first_line (line ∷ input) = line

abbrev pub next_lines : List (List ℕ) → List (List ℕ)
next_lines [] = []
next_lines (line ∷ input) = input

-- The connection after the line's message is sent and an answer received.
unfoldable pub exchange : Connection → Message → Connection
exchange conn msg = (receive (send conn msg).0 blank_message).0

unfoldable pub talk_on : Talk → Message → Talk
talk_on t msg = record {
  conn = exchange t.conn msg;
  input = next_lines t.input;
  errors = t.errors ++ complaint msg;
}

-- The loop, for a number of rounds: whether it has returned, and its state.
unfoldable pub send_helper : ℕ → Talk → Bool × Talk
send_helper zero t = (false, t)
send_helper (suc rounds) t =
    let msg = message_for (first_line t.input) in
    let t' = talk_on t msg in
    let later = send_helper rounds t' in
    if str_eq msg.tag (codes "quit") && is_success t'.conn.last_result then (true, t') else later

-- The program has ended with a status, or an exception ends it, or the loop still runs.
pub data Run : Type 0 where
  exits : ℕ → List (List ℕ) → Run
  terminated : Run
  runs : Talk → Run

unfoldable pub ended : Bool × Talk → Run
ended (returned, t) = if returned then exits 0 t.errors else runs t

unfoldable pub by_answer : ℕ → List (List ℕ) → Connection → Message → Run
by_answer rounds input conn answer =
    if str_eq answer.tag (codes "err")
    then exits 2 (c_string answer.text ∷ [])
    else if str_eq answer.tag (codes "ok")
    then ended (send_helper rounds (record { conn = conn; input = input; errors = [] }))
    else exits 2 (codes "the wrong tag\n" ∷ [])

unfoldable pub log_in : ℕ → List (List ℕ) → List ℕ → Connection → Run
log_in rounds input username conn =
    let (conn', sent) = send conn (record { tag = codes "slogin"; text = username }) in
    let (conn'', answer) = receive conn' blank_message in
    if sent
    then (if is_success conn''.last_result
        then by_answer rounds input conn'' answer
        else exits 2 [])
    else exits 2 (codes "the error happens\n" ∷ [])

unfoldable pub after_dial : ℕ → List (List ℕ) → List ℕ → Dial → Run
after_dial rounds input username bad_port = terminated
after_dial rounds input username unreachable = exits 1 (codes "Could not connect to server\n" ∷ [])
after_dial rounds input username (connected conn) = log_in rounds input username conn

-- By the arguments of the program, its name first.
unfoldable pub main : (List ℕ → List ℕ → Dial) → ℕ → List (List ℕ) → List (List ℕ) → Run
main dial rounds input (program ∷ server_hostname ∷ server_port ∷ username ∷ []) =
    after_dial rounds input username (dial server_hostname server_port)
main dial rounds input argv =
    exits 1 (codes "Usage: ./sender [server_address] [port] [username]\n" ∷ [])
