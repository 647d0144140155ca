-- ===== src/Chat/System/Distinct.antt =====
-- The members of all rooms as the rooms change (room.cpp and the map of rooms of server.cpp).
use assignments_for_csf.Base.{
  ℕ, ◌≤◌, ◌≡◌, sym, inl, inr, arith, List, [], ◌∷◌, ◌++◌, none, some, str_eq, subst, Bool-cases,
}
use assignments_for_csf.Chat.Rooms.{Room, find_room}
use assignments_for_csf.Chat.Rooms.Growth.{AllEmpty, Grows}
use assignments_for_csf.Chat.Rooms.Broadcast.{IsMembership}
use assignments_for_csf.Chat.Receiver.{update_room}

-- The members of every room are distinct users, of a number of them.
unfoldable pub AllDistinct : ℕ → List Room → Type 0
AllDistinct n [] = Unit
AllDistinct n (r ∷ rooms) = IsMembership n r.members × AllDistinct n rooms

pub IsMembership-le :
    (n k : ℕ) (members : List ℕ) → n ≤ k → IsMembership n members → IsMembership k members
unfolding IsMembership
IsMembership-le n k [] le ok = tt
IsMembership-le n k (m ∷ members) le (lt, once, ok) =
    (omega arith, once, IsMembership-le n k members le ok)

pub AllDistinct-le :
    (n k : ℕ) (rooms : List Room) → n ≤ k → AllDistinct n rooms → AllDistinct k rooms
unfolding AllDistinct
AllDistinct-le n k [] le ok = tt
AllDistinct-le n k (r ∷ rooms) le (first, ok) =
    (IsMembership-le n k r.members le first, AllDistinct-le n k rooms le ok)

AllDistinct-extra :
    (n : ℕ) (rooms extra : List Room)
    → AllEmpty extra
    → AllDistinct n rooms
    → AllDistinct n (rooms ++ extra)
unfolding AllDistinct AllEmpty IsMembership
AllDistinct-extra n [] [] empty ok = tt
AllDistinct-extra n [] (x ∷ extra) (e, empty) ok =
    (subst (IsMembership n) (sym e) tt, AllDistinct-extra n [] extra empty tt)
AllDistinct-extra n (x ∷ rooms) extra empty (first, ok) =
    (first, AllDistinct-extra n rooms extra empty ok)

pub AllDistinct-Grows :
    (n : ℕ) (before after : List Room)
    → Grows before after
    → AllDistinct n before
    → AllDistinct n after
unfolding Grows
AllDistinct-Grows n before after (extra, e, empty) ok =
    subst (AllDistinct n) (sym e) (AllDistinct-extra n before extra empty ok)

pub AllDistinct-update_room :
    (n : ℕ) (name : List ℕ) (f : Room → Room) (rooms : List Room)
    → ((r : Room) → IsMembership n r.members → IsMembership n (f r).members)
    → AllDistinct n rooms
    → AllDistinct n (update_room name f rooms)
unfolding AllDistinct update_room
AllDistinct-update_room n name f [] kept ok = tt
AllDistinct-update_room n name f (r ∷ rooms) kept (first, ok) =
    elim (Bool-cases (str_eq r.room_name name)) [
      | inl e ↦ rw e (kept r first, ok)
      | inr e ↦ rw e (first, AllDistinct-update_room n name f rooms kept ok)
    ]

pub find_room-IsMembership :
    (n : ℕ) (name : List ℕ) (rooms : List Room) (r : Room)
    → AllDistinct n rooms
    → find_room name rooms ≡ some r
    → IsMembership n r.members
unfolding AllDistinct find_room
find_room-IsMembership n name [] r ok h = ground arith
find_room-IsMembership n name (x ∷ rooms) r (first, ok) h =
    elim (Bool-cases (str_eq x.room_name name)) [
      | inl e ↦
          subst (λ o. elim o as (λ _. Type 0) [ none ↦ Unit | some y ↦ IsMembership n y.members ])
            (rw e at h) first
      | inr e ↦ find_room-IsMembership n name rooms r ok (rw e at h)
    ]
