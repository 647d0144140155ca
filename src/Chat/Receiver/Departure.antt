-- ===== src/Chat/Receiver/Departure.antt =====
-- The rooms before, during and after the visit of a receiving client.
use assignments_for_csf.Base.{
  ℕ, ◌≡◌, refl, ap, subst, ◌∙◌, sym, inl, inr, arith, true, false, ◌||◌, List, [], ◌∷◌, ◌++◌,
  Option, none, some, ==_iff, codes, str_eq, append-nil, Bool-cases, not,
}
use assignments_for_csf.Chat.{
  Message, Result, success, eof_or_error, invalid_msg, Connection, send, has,
}
use assignments_for_csf.Chat.Rooms.{
  Room, Server, member, add_member, erase_member, remove_member, find_room, find_or_create_room,
}
use assignments_for_csf.Chat.Rooms.Broadcast.{member-append}
use assignments_for_csf.Chat.Rooms.Names.{find_or_create_room-found}
use assignments_for_csf.Chat.Rooms.Growth.{AllEmpty, Grows, find_or_create_room-Grows}
use assignments_for_csf.Chat.Receiver.{
  Served, is_closed, update_room, join_room, leave_room, Visit, over, serving, turn_away, end_visit,
  visit_room, on_first, chat_with_receiver,
}

-- The user is in no room.
unfoldable pub IsAbsent : ℕ → List Room → Type 0
IsAbsent user [] = Unit
IsAbsent user (r ∷ rooms) = (member user r.members ≡ false) × IsAbsent user rooms

erase_member-append :
    (user : ℕ) (members : List ℕ)
    → member user members ≡ false
    → erase_member user (members ++ user ∷ []) ≡ members
unfolding member erase_member
erase_member-append user [] h = rw ((==_iff user user).1 refl) refl
erase_member-append user (m ∷ members) h = ground (arith, erase_member-append user members)

remove-add :
    (user : ℕ) (r : Room)
    → member user r.members ≡ false
    → remove_member (add_member r user) user ≡ r
unfolding remove_member add_member
remove-add user r h =
    rw h (ap (λ members. record r { members = members }) (erase_member-append user r.members h))

-- A user who joins a room and leaves it again has changed no room.
update_room-restores :
    (user : ℕ) (name : List ℕ) (rooms : List Room)
    → IsAbsent user rooms
    → update_room name (λ r. remove_member r user) (update_room name (λ r. add_member r user) rooms)
      ≡ rooms
unfolding update_room IsAbsent add_member
update_room-restores user name [] ok = refl
update_room-restores user name (r ∷ rooms) (first, ok) =
    elim (Bool-cases (str_eq r.room_name name)) [
      | inl e ↦ rw (e, e) (ap (λ x. x ∷ rooms) (remove-add user r first))
      | inr e ↦ rw (e, e) (ap (◌∷◌ r) (update_room-restores user name rooms ok))
    ]

abbrev with_user : ℕ → Option Room → Option Room
with_user user none = none
with_user user (some r) = some (add_member r user)

find_room-update :
    (name : List ℕ) (user : ℕ) (rooms : List Room) (r : Room)
    → find_room name rooms ≡ some r
    → find_room name (update_room name (λ x. add_member x user) rooms) ≡ some (add_member r user)
unfolding find_room update_room add_member
find_room-update name user [] r h = ground arith
find_room-update name user (x ∷ rooms) r h = elim (Bool-cases (str_eq x.room_name name)) [
  | inl e ↦ rw (e, e) (ap (with_user user) (rw e at h))
  | inr e ↦ rw (e, e) (find_room-update name user rooms r (rw e at h))
]

add_member-member : (user : ℕ) (r : Room) → member user (add_member r user).members ≡ true
unfolding add_member
add_member-member user r = elim (Bool-cases (member user r.members)) [
  | inl e ↦ rw (e, e) refl
  | inr e ↦ rw e (member-append user user r.members ∙ rw (e, (==_iff user user).1 refl) refl)
]

-- The rooms there were, and perhaps a new one; the user is in none of them.
unfoldable pub Restored : ℕ → List Room → List Room → Type 0
Restored user before after = (extra : List Room) × (after ≡ before ++ extra) × IsAbsent user after

AllEmpty-IsAbsent : (user : ℕ) (rooms : List Room) → AllEmpty rooms → IsAbsent user rooms
unfolding AllEmpty IsAbsent member
AllEmpty-IsAbsent user [] h = tt
AllEmpty-IsAbsent user (r ∷ rooms) (e, h) = (ap (member user) e, AllEmpty-IsAbsent user rooms h)

IsAbsent-append :
    (user : ℕ) (xs ys : List Room) → IsAbsent user xs → IsAbsent user ys → IsAbsent user (xs ++ ys)
unfolding IsAbsent
IsAbsent-append user [] ys h k = k
IsAbsent-append user (x ∷ xs) ys (e, h) k = (e, IsAbsent-append user xs ys h k)

pub Grows-Restored :
    (user : ℕ) (before after : List Room)
    → IsAbsent user before
    → Grows before after
    → Restored user before after
unfolding Grows Restored
Grows-Restored user before after ok (extra, e, empty) = (
  extra,
  e,
  subst (IsAbsent user) (sym e)
      (IsAbsent-append user before extra ok (AllEmpty-IsAbsent user extra empty)),
)

-- What the visit of a user says of the rooms, by whether it is over.
unfoldable pub Visits : ℕ → List Room → Visit → Type 0
Visits user before (over conn server) = Restored user before server.rooms
Visits user before (serving conn server) =
    (name : List ℕ) × (r : Room) × (find_room name server.rooms ≡ some r)
    × (member user r.members ≡ true)

leave-join :
    (server : Server) (name : List ℕ) (user : ℕ)
    → IsAbsent user server.rooms
    → Restored user server.rooms (leave_room (join_room server name user) name user).rooms
unfolding leave_room join_room Restored
leave-join server name user ok =
    let (extra, e, absent) =
      Grows-Restored user server.rooms _ ok (find_or_create_room-Grows server name) in
    let back = update_room-restores user name (find_or_create_room server name).0.rooms absent in
    (extra, back ∙ e, subst (IsAbsent user) (sym back) absent)

join-member :
    (server : Server) (name : List ℕ) (user : ℕ)
    → (r : Room) × (find_room name (join_room server name user).rooms ≡ some r)
      × (member user r.members ≡ true)
unfolding join_room
join-member server name user = (
  add_member (find_or_create_room server name).1 user,
  find_room-update name user (find_or_create_room server name).0.rooms
      (find_or_create_room server name).1 (find_or_create_room-found server name),
  add_member-member user (find_or_create_room server name).1,
)

end_visit-Visits :
    (served : Served) (server : Server) (name : List ℕ) (user : ℕ)
    → IsAbsent user server.rooms
    → Visits user server.rooms (end_visit served (join_room server name user) name user)
unfolding end_visit Visits
end_visit-Visits served server name user ok = elim (Bool-cases served.running) [
  | inl e ↦
      rw e (let (r, found, in_room) = join-member server name user in (name, r, found, in_room))
  | inr e ↦ rw e (unfold leave_room join_room in leave-join server name user ok)
]

visit_room-Visits :
    (conn : Connection) (server : Server) (user : ℕ) (polls : List (List Message)) (name : List ℕ)
    → IsAbsent user server.rooms
    → Visits user server.rooms (visit_room conn server user polls name)
unfolding visit_room Visits
visit_room-Visits conn server user polls name ok =
    elim (Bool-cases
      (is_closed (send conn (record { tag = codes "ok"; text = [] })).0.last_result)) [
        | inl e ↦ rw e (leave-join server name user ok)
        | inr e ↦ rw e (end_visit-Visits _ server name user ok)
      ]

turn_away-Visits :
    (conn : Connection) (server : Server) (user : ℕ) (text : List ℕ)
    → IsAbsent user server.rooms
    → Visits user server.rooms (turn_away conn server text)
unfolding turn_away Visits Restored
turn_away-Visits conn server user text ok = ([], sym (append-nil server.rooms), ok)

on_first-Visits :
    (result : Result) (conn : Connection) (server : Server) (user : ℕ) (polls : List (List Message))
    (msg : Message)
    → IsAbsent user server.rooms
    → Visits user server.rooms (on_first result conn server user polls msg)
unfolding on_first
on_first-Visits eof_or_error conn server user polls msg ok = turn_away-Visits conn server user _ ok
on_first-Visits invalid_msg conn server user polls msg ok = turn_away-Visits conn server user _ ok
on_first-Visits success conn server user polls msg ok =
    elim (Bool-cases (not (str_eq msg.tag (codes "join")) || not (has b'\n' msg.text))) [
      | inl e ↦ rw e (turn_away-Visits conn server user _ ok)
      | inr e ↦ rw e (visit_room-Visits conn server user polls _ ok)
    ]

-- For a user who is in no room: while `chat_with_receiver` serves the client, the user is a member
-- of a room; once it has returned or thrown, by whatever path, the user is in no room, and the
-- rooms are those there were before, with at most new ones after them.
pub chat_with_receiver-Visits :
    (conn : Connection) (server : Server) (user : ℕ) (polls : List (List Message))
    → IsAbsent user server.rooms
    → Visits user server.rooms (chat_with_receiver conn server user polls)
unfolding chat_with_receiver
chat_with_receiver-Visits conn server user polls ok = on_first-Visits _ _ server user polls _ ok
