-- ===== src/Chat/Rooms/Names.antt =====
-- The names of the rooms of a server (server.cpp).
use assignments_for_csf.Base.{
  ℕ, ◌≡◌, ◌≢◌, refl, ap, ◌∙◌, sym, inl, inr, arith, true, false, List, [], ◌∷◌, ◌++◌, Option, none,
  some, if◌then◌else◌, str_eq, str_eq_refl, str_eq→eq, Bool-cases, Option-cases,
}
use assignments_for_csf.Chat.Rooms.{Room, Server, find_room, find_or_create_room}

-- No two rooms have the same name.
unfoldable pub HasNames : List Room → Type 0
HasNames [] = Unit
HasNames (r ∷ rooms) = (find_room r.room_name rooms ≡ none) × HasNames rooms

find_room-append :
    (name : List ℕ) (rooms : List Room) (r : Room)
    → find_room name rooms ≡ none
    → find_room name (rooms ++ r ∷ []) ≡ (if str_eq r.room_name name then some r else none)
unfolding find_room
find_room-append name [] r h = refl
find_room-append name (x ∷ rooms) r h = ground (arith, find_room-append name rooms r)

find_room-other :
    (name : List ℕ) (rooms : List Room) (r : Room)
    → str_eq r.room_name name ≡ false
    → find_room name (rooms ++ r ∷ []) ≡ find_room name rooms
unfolding find_room
find_room-other name [] r h = rw h refl
find_room-other name (x ∷ rooms) r h = rw (find_room-other name rooms r h) refl

-- A name that is not found is no room's.
not_found :
    (name : List ℕ) (x : Room) (rooms : List Room)
    → find_room name (x ∷ rooms) ≡ none
    → (str_eq x.room_name name ≡ false) × (find_room name rooms ≡ none)
unfolding find_room
not_found name x rooms h = (ground arith, ground arith)

str_eq-sym : (a b : List ℕ) → str_eq a b ≡ false → str_eq b a ≡ false
str_eq-sym a b h = elim (Bool-cases (str_eq b a)) [
  | inl t ↦ absurd (true≢ (sym (str_eq_refl a) ∙ ap (str_eq a) (sym (str_eq→eq b a t)) ∙ h))
  | inr f ↦ f
]
  where
    true≢ : true ≢ false
    true≢ e = ground arith

append-HasNames :
    (rooms : List Room) (r : Room)
    → find_room r.room_name rooms ≡ none
    → HasNames rooms
    → HasNames (rooms ++ r ∷ [])
unfolding HasNames find_room
append-HasNames [] r h ok = (refl, tt)
append-HasNames (x ∷ rooms) r h (fresh, ok) =
    let (differ, rest) = not_found r.room_name x rooms h in
    (
      find_room-other x.room_name rooms r (str_eq-sym x.room_name r.room_name differ) ∙ fresh,
      append-HasNames rooms r rest ok,
    )

-- The room that is returned is the one of that name afterwards.
pub find_or_create_room-found :
    (server : Server) (name : List ℕ)
    → find_room name (find_or_create_room server name).0.rooms
      ≡ some (find_or_create_room server name).1
unfolding find_or_create_room
find_or_create_room-found server name = elim (Option-cases (find_room name server.rooms)) [
  | inl n ↦
      rw (find_or_create_room, n)
        (find_room-append name server.rooms (record { room_name = name; members = [] }) n
          ∙ rw (str_eq_refl name) refl)
  | inr (room, e) ↦ rw (find_or_create_room, e) e
]

abbrev name_or : List ℕ → Option Room → List ℕ
name_or name none = name
name_or name (some r) = r.room_name

-- A room that is found has the name.
pub find_room-name :
    (name : List ℕ) (rooms : List Room) (r : Room)
    → find_room name rooms ≡ some r
    → r.room_name ≡ name
unfolding find_room
find_room-name name [] r h = ground arith
find_room-name name (x ∷ rooms) r h = elim (Bool-cases (str_eq x.room_name name)) [
  | inl e ↦ ap (name_or name) (sym (rw e at h)) ∙ str_eq→eq x.room_name name e
  | inr e ↦ find_room-name name rooms r (rw e at h)
]

-- In a server whose rooms have distinct names, `find_or_create_room` leaves them distinct, and
-- the room it returns is the one of that name afterwards.
pub find_or_create_room-HasNames :
    (server : Server) (name : List ℕ)
    → HasNames server.rooms
    → HasNames (find_or_create_room server name).0.rooms
      × (find_room name (find_or_create_room server name).0.rooms
          ≡ some (find_or_create_room server name).1)
unfolding find_or_create_room
find_or_create_room-HasNames server name ok = (distinct, find_or_create_room-found server name)
  where
    distinct : HasNames (find_or_create_room server name).0.rooms
    distinct = elim (Option-cases (find_room name server.rooms)) [
      | inl n ↦
          rw (find_or_create_room, n)
            (append-HasNames server.rooms (record { room_name = name; members = [] }) n ok)
      | inr (room, e) ↦ rw (find_or_create_room, e) ok
    ]
