-- ===== src/Chat/Receiver/Whole.antt =====
-- `worker` as a whole: the rooms it leaves behind.
use assignments_for_csf.Base.{ℕ, length, ◌≡◌, refl, List, Option, none, some}
use assignments_for_csf.Chat.{Message, Connection}
use assignments_for_csf.Chat.Rooms.{Server}
use assignments_for_csf.Chat.Rooms.Growth.{Grows-same}
use assignments_for_csf.Chat.Worker.{Login, refused, as_sender, as_receiver, login}
use assignments_for_csf.Chat.Sender.{Session, chat_with_sender}
use assignments_for_csf.Chat.Sender.Growth.{chat_with_sender-Grows}
use assignments_for_csf.Chat.Receiver.{after_sender, add_user, after_login, worker}
use assignments_for_csf.Chat.Receiver.Departure.{
  IsAbsent, Visits, Grows-Restored, chat_with_receiver-Visits,
}

after_sender-Visits :
    (user : ℕ) (conn : Connection) (server : Server) (username : List ℕ) (o : Option Session)
    → chat_with_sender conn server username ≡ o
    → IsAbsent user server.rooms
    → Visits user server.rooms (after_sender o conn server)
unfolding after_sender Visits
after_sender-Visits user conn server username none e ok =
    Grows-Restored user server.rooms server.rooms ok (Grows-same server.rooms)
after_sender-Visits user conn server username (some s) e ok =
    Grows-Restored user server.rooms s.server.rooms ok
      (chat_with_sender-Grows conn server username s e)

after_login-Visits :
    (l : Login) (server : Server) (polls : List (List Message))
    → IsAbsent (length server.users) server.rooms
    → Visits (length server.users) server.rooms (after_login l server polls)
unfolding after_login add_user
after_login-Visits (refused conn) server polls ok =
    unfold Visits in
    Grows-Restored (length server.users) server.rooms server.rooms ok (Grows-same server.rooms)
after_login-Visits (as_sender conn username) server polls ok =
    after_sender-Visits (length server.users) conn server username _ refl ok
after_login-Visits (as_receiver conn username) server polls ok =
    chat_with_receiver-Visits conn (add_user server username) (length server.users) polls ok

-- For a server with no member in any room at the place that the next user gets: while `worker`
-- serves a receiving client, that user is a member of a room; once `worker` has ended, whatever
-- the client sent, the user is in no room, and the rooms are those there were before, with at
-- most new ones after them.
pub worker-Visits :
    (conn : Connection) (server : Server) (polls : List (List Message))
    → IsAbsent (length server.users) server.rooms
    → Visits (length server.users) server.rooms (worker conn server polls)
unfolding worker
worker-Visits conn server polls ok = after_login-Visits (login conn) server polls ok
