-- ===== src/Chat/Sender/Growth.antt =====
-- The rooms after the loop for a sending client.
use assignments_for_csf.Base.{
  ℕ, zero, suc, ◌≡◌, ◌≢◌, refl, subst, ◌∙◌, inl, inr, arith, List, Option, some, Bool-cases,
}
use assignments_for_csf.Chat.{Result, success, eof_or_error, invalid_msg, Connection, send, receive}
use assignments_for_csf.Chat.Rooms.{Server}
use assignments_for_csf.Chat.Rooms.Growth.{Grows}
use assignments_for_csf.Chat.Sender.{
  Session, Flow, goes_on, thrown, after, reply, stop, on_result, sender_step, sender_loop,
  chat_with_sender,
}
use assignments_for_csf.Chat.Rooms.Growth.{Grows-trans}
use assignments_for_csf.Chat.Sender.Cases.{Moves, Moves-same, on_result-all}

reply-server : (s : Session) (tag text : List ℕ) → s.server ≡ (after (reply s tag text)).server
unfolding reply
reply-server s tag text = elim (Bool-cases (send s.conn (record { tag = tag; text = text })).1) [
  | inl e ↦ rw e refl
  | inr e ↦ rw e refl
]

reply-room :
    (s : Session) (tag text : List ℕ) → s.current_room ≡ (after (reply s tag text)).current_room
unfolding reply
reply-room s tag text = elim (Bool-cases (send s.conn (record { tag = tag; text = text })).1) [
  | inl e ↦ rw e refl
  | inr e ↦ rw e refl
]

Moves-then :
    (s t u : Session)
    → Moves s t
    → t.server ≡ u.server
    → t.current_room ≡ u.current_room
    → Moves s u
Moves-then s t u m e f =
    let rest = Moves-same t u e f in
    record {
      rooms = Grows-trans s.server.rooms t.server.rooms u.server.rooms m.rooms rest.rooms;
      users = rest.users ∙ m.users;
      names = λ h. rest.names (m.names h);
      counts = λ h. rest.counts (m.counts h);
      has_room = λ h. rest.has_room (m.has_room h);
    }

stop-Moves : (s : Session) (flow : Flow) → Moves s (after flow) → Moves s (after (stop flow))
stop-Moves s (goes_on s') h = h
stop-Moves s (thrown s') h = h

received-Moves :
    (result : Result) (username : List ℕ) (s : Session)
    → result ≢ eof_or_error
    → Moves s (after (on_result result username s))
received-Moves result username s h =
    on_result-all username s (λ flow. Moves s (after flow))
      (λ s' tag text same m.
        Moves-then s s' (after (reply s' tag text)) m (reply-server s' tag text)
          (reply-room s' tag text))
      (stop-Moves s) result h

on_result-Moves :
    (result : Result) (username : List ℕ) (s : Session)
    → Moves s (after (on_result result username s))
on_result-Moves eof_or_error username s = unfold on_result in Moves-same s s refl refl
on_result-Moves success username s = received-Moves success username s (λ e. cc)
on_result-Moves invalid_msg username s = received-Moves invalid_msg username s (λ e. cc)

-- What a round does to the server and to the session's room.
pub sender_step-Moves : (username : List ℕ) (s : Session) → Moves s (after (sender_step username s))
unfolding sender_step
sender_step-Moves username s =
    let received = receive s.conn s.curr_mes in
    let s' : Session = record s { conn = received.0; curr_mes = received.1 } in
    let m = on_result-Moves received.0.last_result username s' in
    record {
      rooms = m.rooms;
      users = m.users;
      names = m.names;
      counts = m.counts;
      has_room = m.has_room;
    }

sender_loop-Grows :
    (fuel : ℕ) (username : List ℕ) (s s' : Session)
    → sender_loop fuel username s ≡ some s'
    → Grows s.server.rooms s'.server.rooms
sender_loop-Grows zero username s s' e = absurd (unfold sender_loop in ground arith)
sender_loop-Grows (suc fuel) username s s' e =
    by_flow (sender_loop-Grows fuel username) (sender_step username s)
      (sender_step-Moves username s).rooms (unfold sender_loop in e)
  where
    by_flow :
        ((t r : Session)
          → sender_loop fuel username t ≡ some r
          → Grows t.server.rooms r.server.rooms)
        → (flow : Flow) → Grows s.server.rooms (after flow).server.rooms
        → (elim flow as (λ x. Option Session) [
          | goes_on t ↦ sender_loop fuel username t
          | thrown t ↦ some t
        ])
          ≡ some s'
        → Grows s.server.rooms s'.server.rooms
    by_flow later (goes_on t) grown f =
        Grows-trans s.server.rooms t.server.rooms s'.server.rooms grown (later t s' f)
    by_flow later (thrown t) grown f =
        let same : t ≡ s' = cc in subst (λ r. Grows s.server.rooms r.server.rooms) same grown

-- The loop for a sending client at most adds rooms, without members.
pub chat_with_sender-Grows :
    (conn : Connection) (server : Server) (username : List ℕ) (s : Session)
    → chat_with_sender conn server username ≡ some s
    → Grows server.rooms s.server.rooms
unfolding chat_with_sender
chat_with_sender-Grows conn server username s e = sender_loop-Grows _ username _ s e
