-- ===== src/Chat/System/Threads.antt =====
-- The threads of csf_assign05/server.cpp: whose user is whose, who is being served in which room,
-- and that the order of the threads does not matter.
use assignments_for_csf.Base.{
  ℕ, ◌≡◌, refl, arith, Bool, false, ◌||◌, List, [], ◌∷◌, Option, none, some,
}
use assignments_for_csf.Chat.Rooms.{Room, member}
use assignments_for_csf.Chat.Sender.Cases.{HasRoom}
use assignments_for_csf.Chat.System.{
  Client, accepted, talking, meeting, entering, visiting, leaving, gone,
}
use assignments_for_csf.Chat.System.Presence.{here}

-- The user that the thread has made.
unfoldable pub own_user : Client → Option ℕ
own_user (accepted conn) = none
own_user (talking username conn m room) = none
own_user (meeting conn user) = some user
own_user (entering conn user name) = some user
own_user (visiting conn user name) = some user
own_user (leaving conn user name) = some user
own_user (gone conn) = none

unfoldable pub with_own : Option ℕ → List ℕ → List ℕ
with_own none users = users
with_own (some user) users = user ∷ users

unfoldable pub users_of : List Client → List ℕ
users_of [] = []
users_of (c ∷ clients) = with_own (own_user c) (users_of clients)

-- The thread has the user in the room of the name.
unfoldable pub at_room : List ℕ → ℕ → Client → Bool
at_room name user (accepted conn) = false
at_room name user (talking username conn m room) = false
at_room name user (meeting conn own) = false
at_room name user (entering conn own room) = false
at_room name user (visiting conn own room) = here own room user name
at_room name user (leaving conn own room) = here own room user name
at_room name user (gone conn) = false

unfoldable pub visits : List ℕ → ℕ → List Client → Bool
visits name user [] = false
visits name user (c ∷ clients) = at_room name user c || visits name user clients

-- The room that the thread is about exists.
unfoldable pub IsPlaced : List Room → Client → Type 0
IsPlaced rooms (accepted conn) = Unit
IsPlaced rooms (talking username conn m room) = HasRoom room rooms
IsPlaced rooms (meeting conn user) = Unit
IsPlaced rooms (entering conn user name) = HasRoom (some name) rooms
IsPlaced rooms (visiting conn user name) = HasRoom (some name) rooms
IsPlaced rooms (leaving conn user name) = HasRoom (some name) rooms
IsPlaced rooms (gone conn) = Unit

unfoldable pub AllPlaced : List Room → List Client → Type 0
AllPlaced rooms [] = Unit
AllPlaced rooms (c ∷ clients) = IsPlaced rooms c × AllPlaced rooms clients

IsPlaced-map :
    (before after : List Room)
    → ((room : Option (List ℕ)) → HasRoom room before → HasRoom room after)
    → (c : Client) → IsPlaced before c
    → IsPlaced after c
unfolding IsPlaced
IsPlaced-map before after kept (accepted conn) h = tt
IsPlaced-map before after kept (talking username conn m room) h = kept room h
IsPlaced-map before after kept (meeting conn user) h = tt
IsPlaced-map before after kept (entering conn user name) h = kept (some name) h
IsPlaced-map before after kept (visiting conn user name) h = kept (some name) h
IsPlaced-map before after kept (leaving conn user name) h = kept (some name) h
IsPlaced-map before after kept (gone conn) h = tt

pub AllPlaced-map :
    (before after : List Room)
    → ((room : Option (List ℕ)) → HasRoom room before → HasRoom room after)
    → (clients : List Client) → AllPlaced before clients
    → AllPlaced after clients
unfolding AllPlaced
AllPlaced-map before after kept [] h = tt
AllPlaced-map before after kept (c ∷ clients) (p, h) =
    (IsPlaced-map before after kept c p, AllPlaced-map before after kept clients h)

visits_after :
    (name : List ℕ) (user : ℕ) (c : Client) (users : List ℕ) (later : Bool)
    → (member user users ≡ false → later ≡ false)
    → member user (with_own (own_user c) users) ≡ false
    → (at_room name user c || later) ≡ false
unfolding with_own own_user at_room member
visits_after name user (accepted conn) users later none_later h = none_later h
visits_after name user (talking username conn m room) users later none_later h = none_later h
visits_after name user (meeting conn own) users later none_later h = none_later (ground arith)
visits_after name user (entering conn own room) users later none_later h = none_later (ground arith)
visits_after name user (visiting conn own room) users later none_later h =
    ground (arith, none_later)
visits_after name user (leaving conn own room) users later none_later h = ground (arith, none_later)
visits_after name user (gone conn) users later none_later h = none_later h

-- A user that no thread has made is served by none.
pub visits-none :
    (name : List ℕ) (user : ℕ) (clients : List Client)
    → member user (users_of clients) ≡ false
    → visits name user clients ≡ false
unfolding visits users_of
visits-none name user [] h = refl
visits-none name user (c ∷ clients) h =
    visits_after name user c (users_of clients) (visits name user clients)
      (visits-none name user clients) h
