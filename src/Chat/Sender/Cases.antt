-- ===== src/Chat/Sender/Cases.antt =====
-- The cases of a round of the loop for a sending client.
use assignments_for_csf.Base.{
  ℕ, length, ap, ◌∙◌, ◌≡◌, ◌≢◌, refl, subst, sym, inl, inr, List, [], Option, none, some, codes,
  str_eq, Bool-cases, Option-cases,
}
use assignments_for_csf.Chat.{Result, success, eof_or_error, invalid_msg, has, right_trim}
use assignments_for_csf.Chat.Rooms.{Room, Server, find_room, find_or_create_room}
use assignments_for_csf.Chat.Rooms.Growth.{
  Grows, Grows-same, find_or_create_room-Grows, find_or_create_room-users,
}
use assignments_for_csf.Chat.Rooms.Names.{
  HasNames, find_or_create_room-HasNames, find_room-name, find_or_create_room-found,
}
use assignments_for_csf.Chat.Rooms.Broadcast.{length-broadcast_message}
use assignments_for_csf.Chat.Rooms.Counted.{AllCount, broadcast_message-AllCount}
use assignments_for_csf.Chat.Sender.{
  Session, Flow, reply, stop, on_join, on_leave, on_sendall, leave_from, sendall_in, broadcast_to,
  on_result, on_message,
}

broadcast_to-rooms :
    (room username text : List ℕ) (server : Server)
    → (broadcast_to room username text server).rooms ≡ server.rooms
unfolding broadcast_to
broadcast_to-rooms room username text server = elim (Option-cases (find_room room server.rooms)) [
  | inl n ↦ rw (broadcast_to, n) refl
  | inr (r, e) ↦ rw (broadcast_to, e) refl
]

broadcast_to-users :
    (room username text : List ℕ) (server : Server)
    → length (broadcast_to room username text server).users ≡ length server.users
unfolding broadcast_to
broadcast_to-users room username text server = elim (Option-cases (find_room room server.rooms)) [
  | inl n ↦ rw (broadcast_to, n) refl
  | inr (r, e) ↦ rw (broadcast_to, e) (length-broadcast_message r username text server.users)
]

broadcast_to-AllCount :
    (room username text : List ℕ) (server : Server)
    → AllCount server.users
    → AllCount (broadcast_to room username text server).users
unfolding broadcast_to
broadcast_to-AllCount room username text server h =
    elim (Option-cases (find_room room server.rooms)) [
      | inl n ↦ rw (broadcast_to, n) h
      | inr (r, e) ↦
          rw (broadcast_to, e) (broadcast_message-AllCount r username text server.users h)
    ]

-- The room that the session is in exists.
unfoldable pub HasRoom : Option (List ℕ) → List Room → Type 0
HasRoom none rooms = Unit
HasRoom (some room) rooms = (r : Room) × (find_room room rooms ≡ some r)

-- What a round may do to the server and to the session's room.
pub record Moves (s s' : Session) : Type 0 where
  pub rooms : Grows s.server.rooms s'.server.rooms
  pub users : length s'.server.users ≡ length s.server.users
  pub names : HasNames s.server.rooms → HasNames s'.server.rooms
  pub counts : AllCount s.server.users → AllCount s'.server.users
  pub has_room : HasRoom s.current_room s.server.rooms → HasRoom s'.current_room s'.server.rooms

pub Moves-same :
    (s s' : Session) → s.server ≡ s'.server → s.current_room ≡ s'.current_room → Moves s s'
Moves-same s s' e f = record {
  rooms = subst (λ server. Grows s.server.rooms server.rooms) e (Grows-same s.server.rooms);
  users = ap (λ server. length server.users) (sym e);
  names = subst (λ server. HasNames server.rooms) e;
  counts = subst (λ server. AllCount server.users) e;
  has_room = λ h.
      subst (λ server. HasRoom s'.current_room server.rooms) e
        (subst (λ room. HasRoom room s.server.rooms) f h);
}

-- What holds of a reply from any session with this connection after such a move, and is kept
-- by `stop`, holds of the round.
module _ (username : List ℕ) (s : Session) (P : Flow → Type 0)
    (replied : (s' : Session) (tag text : List ℕ)
      → s.conn ≡ s'.conn
      → Moves s s'
      → P (reply s' tag text))
    (stopped : (flow : Flow) → P flow → P (stop flow)) where
  same : Moves s s
  same = Moves-same s s refl refl

  joined : Moves s (record s {
    server = (find_or_create_room s.server (right_trim s.curr_mes.text)).0;
    current_room = some (find_or_create_room s.server (right_trim s.curr_mes.text)).1.room_name;
  })
  unfolding HasRoom
  joined =
      let name = right_trim s.curr_mes.text in
      let (server, room) = find_or_create_room s.server name in
      let found = find_or_create_room-found s.server name in
      record {
        rooms = find_or_create_room-Grows s.server name;
        users = ap (λ users. length users) (find_or_create_room-users s.server name);
        names = λ h. (find_or_create_room-HasNames s.server name h).0;
        counts = subst AllCount (sym (find_or_create_room-users s.server name));
        has_room = λ _. (
          room,
          ap (λ n. find_room n server.rooms) (find_room-name name server.rooms room found) ∙ found,
        );
      }

  left : Moves s (record s { current_room = none })
  unfolding HasRoom
  left = record {
    rooms = Grows-same s.server.rooms;
    users = refl;
    names = λ h. h;
    counts = λ h. h;
    has_room = λ _. tt;
  }

  told_room :
      (room : List ℕ)
      → Moves s
          (record s { server = broadcast_to room username (right_trim s.curr_mes.text) s.server })
  told_room room =
      let text = right_trim s.curr_mes.text in
      let kept = broadcast_to-rooms room username text s.server in
      record {
        rooms = subst (Grows s.server.rooms) (sym kept) (Grows-same s.server.rooms);
        users = broadcast_to-users room username text s.server;
        names = subst HasNames (sym kept);
        counts = broadcast_to-AllCount room username text s.server;
        has_room = subst (HasRoom s.current_room) (sym kept);
      }

  on_join-all : P (on_join s)
  unfolding on_join
  on_join-all = elim (Bool-cases (has b'\n' s.curr_mes.text)) [
    | inl t ↦ rw t (replied _ (codes "ok") [] refl joined)
    | inr f ↦ rw f (replied s _ _ refl same)
  ]

  leave_from-all : (room : Option (List ℕ)) → P (leave_from room s)
  unfolding leave_from
  leave_from-all none = replied s _ _ refl same
  leave_from-all (some room) = replied _ (codes "ok") [] refl left

  sendall_in-all : (room : Option (List ℕ)) → P (sendall_in room username s)
  unfolding sendall_in
  sendall_in-all none = replied s _ _ refl same
  sendall_in-all (some room) = elim (Bool-cases (has b'\n' s.curr_mes.text)) [
    | inl t ↦ rw t (replied _ (codes "ok") [] refl (told_room room))
    | inr f ↦ rw f (replied s _ _ refl same)
  ]

  on_message-all : P (on_message username s)
  unfolding on_message on_leave on_sendall
  on_message-all = elim (Bool-cases (str_eq s.curr_mes.tag (codes "join"))) [
    | inl t ↦ rw t on_join-all
    | inr not_join ↦ elim (Bool-cases (str_eq s.curr_mes.tag (codes "leave"))) [
      | inl t ↦ rw (not_join, t) (leave_from-all s.current_room)
      | inr not_leave ↦ elim (Bool-cases (str_eq s.curr_mes.tag (codes "sendall"))) [
        | inl t ↦ rw (not_join, not_leave, t) (sendall_in-all s.current_room)
        | inr not_sendall ↦ elim (Bool-cases (str_eq s.curr_mes.tag (codes "quit"))) [
          | inl t ↦
              rw (not_join, not_leave, not_sendall, t)
                (stopped _ (replied s (codes "ok") [] refl same))
          | inr not_quit ↦ rw (not_join, not_leave, not_sendall, not_quit) (replied s _ _ refl same)
        ]
      ]
    ]
  ]

  pub on_result-all : (result : Result) → result ≢ eof_or_error → P (on_result result username s)
  unfolding on_result
  on_result-all eof_or_error h = absurd (h refl)
  on_result-all invalid_msg h = replied s _ _ refl same
  on_result-all success h = on_message-all
