-- ===== src/Chat/System/Kept.antt =====
-- The names of the rooms of csf_assign05/server.cpp as the rooms change.
use assignments_for_csf.Base.{
  ℕ, ◌≡◌, ap, ◌∙◌, inl, inr, List, [], ◌∷◌, Option, none, some, str_eq, refl, Bool-cases,
}
use assignments_for_csf.Chat.Rooms.{Room, find_room}
use assignments_for_csf.Chat.Rooms.Growth.{Grows, find_room-Grows}
use assignments_for_csf.Chat.Rooms.Names.{HasNames}
use assignments_for_csf.Chat.Receiver.{update_room}
use assignments_for_csf.Chat.Sender.Cases.{HasRoom}
use assignments_for_csf.Chat.System.Presence.{find_room-update_room}

pub HasRoom-Grows :
    (before after : List Room)
    → Grows before after
    → (room : Option (List ℕ)) → HasRoom room before
    → HasRoom room after
unfolding HasRoom
HasRoom-Grows before after grown none h = tt
HasRoom-Grows before after grown (some room) (r, found) =
    (r, find_room-Grows room before after r grown found)

pub update_room-HasNames :
    (n : List ℕ) (f : Room → Room) (rooms : List Room)
    → ((r : Room) → (f r).room_name ≡ r.room_name)
    → HasNames rooms
    → HasNames (update_room n f rooms)
unfolding HasNames update_room
update_room-HasNames n f [] keeps ok = tt
update_room-HasNames n f (r ∷ rooms) keeps (fresh, ok) = elim (Bool-cases (str_eq r.room_name n)) [
  | inl e ↦ rw e (ap (λ name. find_room name rooms) (keeps r) ∙ fresh, ok)
  | inr e ↦ rw e (
    find_room-update_room f keeps n r.room_name rooms ∙ elim (Bool-cases (str_eq n r.room_name)) [
      | inl b ↦ rw (b, fresh) refl
      | inr b ↦ rw (b, fresh) refl
    ],
    update_room-HasNames n f rooms keeps ok,
  )
]

pub HasRoom-update_room :
    (n : List ℕ) (f : Room → Room) (rooms : List Room)
    → ((r : Room) → (f r).room_name ≡ r.room_name)
    → (room : Option (List ℕ)) → HasRoom room rooms
    → HasRoom room (update_room n f rooms)
unfolding HasRoom
HasRoom-update_room n f rooms keeps none h = tt
HasRoom-update_room n f rooms keeps (some room) (r, found) = elim (Bool-cases (str_eq n room)) [
  | inl e ↦ (f r, find_room-update_room f keeps n room rooms ∙ rw (e, found) refl)
  | inr e ↦ (r, find_room-update_room f keeps n room rooms ∙ rw (e, found) refl)
]
