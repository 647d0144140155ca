-- ===== src/Chat/Clients/Commands.antt =====
-- From the lines typed at the sending client to the rooms of the server.
use assignments_for_csf.Base.{
  ℕ, zero, suc, ◌<◌, subst, ◌≡◌, refl, ap, ◌∙◌, arith, Bool, true, false, List, [], ◌∷◌, ◌++◌, some,
  ◌==◌, if◌then◌else◌, codes, str_eq, length, get_or,
}
use assignments_for_csf.Chat.{
  success, encode, send, has, known_tag, max_len, right_trim, line_blank,
}
use assignments_for_csf.Chat.Codec.{receive-encode, trim_end-blank}
use assignments_for_csf.Chat.Rooms.{
  Room, Server, broadcast_message, member, find_room, find_or_create_room,
}
use assignments_for_csf.Chat.Rooms.Names.{find_room-name, find_or_create_room-found}
use assignments_for_csf.Chat.Rooms.Broadcast.{IsMembership, nobody, told, broadcast_message-each}
use assignments_for_csf.Chat.Sender.{
  Session, goes_on, reply, on_join, on_sendall, sendall_in, broadcast_to, on_message, on_result,
  sender_step,
}
use assignments_for_csf.Chat.Clients.Sending.{
  Talk, starts_with, skip_space, after_space, command, message_for, next_lines, first_line, talk_on,
  send_helper,
}

-- The line is no command that quits.
unfoldable pub IsTalk : List ℕ → Type 0
IsTalk line = str_eq (message_for line).tag (codes "quit") ≡ false

unfoldable pub AllTalk : List (List ℕ) → Type 0
AllTalk [] = Unit
AllTalk (line ∷ input) = IsTalk line × AllTalk input

first_line-IsTalk : (input : List (List ℕ)) → AllTalk input → IsTalk (first_line input)
unfolding AllTalk IsTalk message_for str_eq
first_line-IsTalk [] h = refl
first_line-IsTalk (line ∷ input) (h, rest) = h

next_lines-AllTalk : (input : List (List ℕ)) → AllTalk input → AllTalk (next_lines input)
unfolding AllTalk
next_lines-AllTalk [] h = tt
next_lines-AllTalk (line ∷ input) (h, rest) = rest

-- If no line of the input is a command to quit, the loop of the sending client is still running
-- after any number of rounds, whatever the results of its sending and receiving; the end of the
-- input does not end it.
pub send_helper-endless :
    (rounds : ℕ) (t : Talk) → AllTalk t.input → (send_helper rounds t).0 ≡ false
unfolding send_helper talk_on IsTalk
send_helper-endless zero t h = refl
send_helper-endless (suc rounds) t h = rw (first_line-IsTalk t.input h) (
    send_helper-endless rounds (talk_on t (message_for (first_line t.input)))
      (next_lines-AllTalk t.input h))

has-last : (c : ℕ) (s : List ℕ) → has c (s ++ c ∷ []) ≡ true
unfolding has
has-last c [] = ground arith
has-last c (d ∷ s) = ground (arith, has-last c s)

right_trim-line : (s : List ℕ) → right_trim (s ++ b'\n' ∷ []) ≡ right_trim s
unfolding right_trim
right_trim-line s = trim_end-blank line_blank s b'\n' refl

message_for-join :
    (room : List ℕ)
    → message_for (codes "/join " ++ room) ≡ record { tag = codes "join"; text = room }
unfolding message_for command starts_with after_space skip_space
message_for-join room = refl

message_for-text :
    (c : ℕ) (line : List ℕ)
    → (c == b'/') ≡ false
    → message_for (c ∷ line) ≡ record { tag = codes "sendall"; text = c ∷ line }
unfolding message_for
message_for-text c line h = rw h refl

reply-goes_on :
    (s : Session) (tag text : List ℕ) (writes : List Bool)
    → s.conn.writes ≡ true ∷ writes
    → (s' : Session) × (reply s tag text ≡ goes_on s')
      × (s'.current_room ≡ s.current_room)
      × (s'.server ≡ s.server)
unfolding reply send
reply-goes_on s tag text writes e = rw e (_, refl, refl, refl)

broadcast_to-found :
    (room username text : List ℕ) (server : Server) (r : Room)
    → find_room room server.rooms ≡ some r
    → broadcast_to room username text server
      ≡ record server { users = broadcast_message r username text server.users }
unfolding broadcast_to
broadcast_to-found room username text server r there = rw (broadcast_to, there) refl

-- The server has read the encoding of a message.
module _ (username : List ℕ) (s : Session) (text : List ℕ) (rest : List (List ℕ))
    (writes : List Bool) (clean : has 0 text ≡ false) (ok : s.conn.writes ≡ true ∷ writes) where
  -- The session after the message has been received.
  abbrev heard : List ℕ → Session
  heard tag = record s {
    conn = record s.conn { incoming = rest; last_result = success };
    curr_mes = record { tag = tag; text = text ++ b'\n' ∷ [] };
  }

  sender_step-message :
      (tag : List ℕ)
      → known_tag tag ≡ true
      → has b':' tag ≡ false
      → has 0 tag ≡ false
      → length (encode (record { tag = tag; text = text })) < max_len
      → s.conn.incoming ≡ encode (record { tag = tag; text = text }) ∷ rest
      → sender_step username s ≡ on_message username (heard tag)
  unfolding sender_step on_result
  sender_step-message tag known colon nul fits next =
      rw
        (receive-encode s.conn (record { tag = tag; text = text }) s.curr_mes rest next known colon
          nul clean fits)
        refl

  on_join-goes_on :
      (s' : Session) × (on_message username (heard (codes "join")) ≡ goes_on s')
      × (s'.current_room ≡ some (right_trim text))
      × (s'.server ≡ (find_or_create_room s.server (right_trim text)).0)
  unfolding on_message on_join str_eq
  on_join-goes_on =
      let name = right_trim (text ++ b'\n' ∷ []) in
      let (found, room) = find_or_create_room s.server name in
      let (s', e, there, same) =
        reply-goes_on
          (record (heard (codes "join")) { server = found; current_room = some room.room_name })
          (codes "ok") [] writes ok in
      let named : room.room_name ≡ name =
        find_room-name name found.rooms room (find_or_create_room-found s.server name) in
      (
        s',
        rw (has-last b'\n' text) e,
        there ∙ ap some (named ∙ right_trim-line text),
        same ∙ ap (λ n. (find_or_create_room s.server n).0) (right_trim-line text),
      )

  -- In the room `r`.
  module _ (room : List ℕ) (r : Room) (joined : s.current_room ≡ some room)
      (there : find_room room s.server.rooms ≡ some r) where
    on_sendall-goes_on :
        (s' : Session) × (on_message username (heard (codes "sendall")) ≡ goes_on s')
        × (s'.current_room ≡ some room)
        × (s'.server ≡ record s.server {
          users = broadcast_message r username (right_trim text) s.server.users;
        })
    unfolding on_message on_sendall sendall_in str_eq
    on_sendall-goes_on =
        let line = text ++ b'\n' ∷ [] in
        let server : Server = record s.server {
          users = broadcast_message r username (right_trim line) s.server.users;
        } in
        let (s', e, kept, same) =
          reply-goes_on (record (heard (codes "sendall")) { server = server }) (codes "ok") []
            writes ok in
        (
          s',
          ap (λ here. sendall_in here username (heard (codes "sendall"))) joined
              ∙ rw
                  (
                    has-last b'\n' text,
                    broadcast_to-found room username (right_trim line) s.server r there,
                  )
                  e,
          kept ∙ joined,
          same
              ∙ ap (λ t. record s.server { users = broadcast_message r username t s.server.users })
                  (right_trim-line text),
        )

-- If the sending client types `/join` and a room's name without NUL, and the message that the
-- client sends for it has fewer than 255 bytes with its newline and is the next that the server
-- reads, and the server's next write does not fail, then the session goes
-- on in the room of that name, trimmed, of which the server has found the room or created it.
pub join-reaches :
    (username : List ℕ) (s : Session) (room : List ℕ) (rest : List (List ℕ)) (writes : List Bool)
    → has 0 room ≡ false
    → s.conn.writes ≡ true ∷ writes
    → length (encode (message_for (codes "/join " ++ room))) < max_len
    → s.conn.incoming ≡ encode (message_for (codes "/join " ++ room)) ∷ rest
    → (s' : Session) × (sender_step username s ≡ goes_on s')
      × (s'.current_room ≡ some (right_trim room))
      × (s'.server ≡ (find_or_create_room s.server (right_trim room)).0)
unfolding known_tag str_eq has
join-reaches username s room rest writes clean ok fits next =
    let (s', e, there, same) = on_join-goes_on username s room rest writes clean ok in
    let step =
      sender_step-message username s room rest writes clean ok (codes "join") refl refl refl
        (subst (λ msg. length (encode msg) < max_len) (message_for-join room) fits)
        (next ∙ ap (λ msg. encode msg ∷ rest) (message_for-join room)) in
    (s', step ∙ e, there, same)

-- If the sending client, whose session is in a room of distinct users, types a line without NUL
-- that is not empty and does not start with a slash, and the message that the client
-- sends for it has fewer than 255 bytes with its newline and is the next that the server reads, and
-- the server's next write does not fail, then the session goes on in the room; each
-- member's queue has one more message, the delivery of the line, trimmed at its end, under the
-- names of the room and of the sender; and every other user is left alone.
pub line-reaches :
    (username : List ℕ) (s : Session) (c : ℕ) (line : List ℕ) (rest : List (List ℕ))
    (writes : List Bool) (room : List ℕ) (r : Room)
    → (c == b'/') ≡ false
    → has 0 (c ∷ line) ≡ false
    → s.conn.writes ≡ true ∷ writes
    → length (encode (message_for (c ∷ line))) < max_len
    → s.conn.incoming ≡ encode (message_for (c ∷ line)) ∷ rest
    → s.current_room ≡ some room
    → find_room room s.server.rooms ≡ some r
    → IsMembership (length s.server.users) r.members
    → (s' : Session) × (sender_step username s ≡ goes_on s')
      × (s'.current_room ≡ some room)
      × ((j : ℕ)
          → get_or s'.server.users j nobody ≡ (
              if member j r.members
              then told
                  (record {
                    tag = codes "delivery";
                    text = room ++ b':' ∷ username ++ b':' ∷ right_trim (c ∷ line);
                  })
                  (get_or s.server.users j nobody)
              else get_or s.server.users j nobody))
unfolding known_tag str_eq has
line-reaches username s c line rest writes room r plain clean ok fits next joined there distinct =
    let (s', e, kept, same) =
      on_sendall-goes_on username s (c ∷ line) rest writes clean ok room r joined there in
    let step =
      sender_step-message username s (c ∷ line) rest writes clean ok (codes "sendall") refl refl
        refl (subst (λ msg. length (encode msg) < max_len) (message_for-text c line plain) fits)
        (next ∙ ap (λ msg. encode msg ∷ rest) (message_for-text c line plain)) in
    let text = right_trim (c ∷ line) in
    (
      s',
      step ∙ e,
      kept,
      λ j.
          ap (λ server. get_or server.users j nobody) same
          ∙ broadcast_message-each r username (right_trim (c ∷ line)) s.server.users distinct j
          ∙ ap
              (λ (name : List ℕ).
                if member j r.members
                then told
                    (record {
                      tag = codes "delivery";
                      text = name ++ b':' ∷ username ++ b':' ∷ text;
                    })
                    (get_or s.server.users j nobody)
                else get_or s.server.users j nobody)
              (find_room-name room s.server.rooms r there),
    )
