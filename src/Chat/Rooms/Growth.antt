-- ===== src/Chat/Rooms/Growth.antt =====
-- Rooms are only ever added to the map of rooms (server.cpp), at first without members.
use assignments_for_csf.Base.{
  ℕ, some, arith, str_eq, Bool-cases, ◌≡◌, refl, ap, ◌∙◌, sym, inl, inr, List, [], ◌∷◌, ◌++◌,
  append_assoc, append-nil, Option-cases,
}
use assignments_for_csf.Chat.Rooms.{Room, Server, find_room, find_or_create_room}

unfoldable pub AllEmpty : List Room → Type 0
AllEmpty [] = Unit
AllEmpty (r ∷ rooms) = (r.members ≡ []) × AllEmpty rooms

-- The rooms there were, and new ones after them.
unfoldable pub Grows : List Room → List Room → Type 0
Grows before after = (extra : List Room) × (after ≡ before ++ extra) × AllEmpty extra

pub Grows-same : (rooms : List Room) → Grows rooms rooms
unfolding Grows AllEmpty
Grows-same rooms = ([], sym (append-nil rooms), tt)

AllEmpty-append : (xs ys : List Room) → AllEmpty xs → AllEmpty ys → AllEmpty (xs ++ ys)
unfolding AllEmpty
AllEmpty-append [] ys h k = k
AllEmpty-append (x ∷ xs) ys (e, h) k = (e, AllEmpty-append xs ys h k)

pub Grows-trans : (a b c : List Room) → Grows a b → Grows b c → Grows a c
unfolding Grows
Grows-trans a b c (xs, e, h) (ys, f, k) =
    (xs ++ ys, f ∙ ap (λ l. l ++ ys) e ∙ append_assoc a xs ys, AllEmpty-append xs ys h k)

pub find_or_create_room-Grows :
    (server : Server) (name : List ℕ) → Grows server.rooms (find_or_create_room server name).0.rooms
unfolding Grows AllEmpty find_or_create_room
find_or_create_room-Grows server name = elim (Option-cases (find_room name server.rooms)) [
  | inl n ↦ rw (find_or_create_room, n) (_, refl, (refl, tt))
  | inr (room, e) ↦ rw (find_or_create_room, e) ([], sym (append-nil server.rooms), tt)
]

pub find_or_create_room-users :
    (server : Server) (name : List ℕ) → (find_or_create_room server name).0.users ≡ server.users
unfolding find_or_create_room
find_or_create_room-users server name = elim (Option-cases (find_room name server.rooms)) [
  | inl n ↦ rw (find_or_create_room, n) refl
  | inr (room, e) ↦ rw (find_or_create_room, e) refl
]

-- A room that is there stays the one that is found.
pub find_room-Grows :
    (name : List ℕ) (before after : List Room) (r : Room)
    → Grows before after
    → find_room name before ≡ some r
    → find_room name after ≡ some r
unfolding Grows find_room
find_room-Grows name before after r (extra, e, empty) h = ap (find_room name) e ∙ in_front before h
  where
    in_front :
        (rooms : List Room)
        → find_room name rooms ≡ some r
        → find_room name (rooms ++ extra) ≡ some r
    in_front [] h = ground arith
    in_front (x ∷ rooms) h = elim (Bool-cases (str_eq x.room_name name)) [
      | inl e ↦ rw e (rw e at h)
      | inr e ↦ rw e (in_front rooms (rw e at h))
    ]
