-- ===== src/Chat/Rooms/Broadcast.antt =====
-- The members of a room and its broadcasts (room.cpp).
use native.Mathlib.Decide.{ℕ_discrete}
use assignments_for_csf.Base.{
  ℕ, ◌+◌, ◌<◌, ◌≡◌, refl, subst, ◌∙◌, sym, inl, inr, arith, true, false, ◌||◌, List, [], ◌∷◌, ◌++◌,
  ◌==◌, ==_iff, ==_no, if◌then◌else◌, codes, length, get_or, set, length-set, get_or-set_self,
  get_or-set_ne, Bool-cases,
}
use assignments_for_csf.Chat.{Message}
use assignments_for_csf.Chat.Rooms.{
  empty_queue, enqueue, User, Room, member, add_member, erase_member, remove_member, deliver,
  broadcast_message,
}

-- The members are users, and no user is a member twice.
unfoldable pub IsMembership : ℕ → List ℕ → Type 0
IsMembership n [] = Unit
IsMembership n (m ∷ members) = (m < n) × (member m members ≡ false) × IsMembership n members

abbrev pub nobody : User
nobody = record { username = []; mqueue = empty_queue }

-- A user with one more message waiting, after those that waited, and counted once.
unfoldable pub told : Message → User → User
told msg u = record u {
  mqueue = record { avail = u.mqueue.avail + 1; messages = u.mqueue.messages ++ msg ∷ [] };
}

deliver-each :
    (msg : Message) (members : List ℕ) (users : List User)
    → IsMembership (length users) members
    → (j : ℕ)
    → get_or (deliver msg members users) j nobody
      ≡ (if member j members then told msg (get_or users j nobody) else get_or users j nobody)
unfolding IsMembership deliver member enqueue told
deliver-each msg [] users ok j = refl
deliver-each msg (m ∷ members) users (small, once, ok) j =
    let now = get_or users m nobody in
    let users' = set users m (told msg now) in
    let later =
      deliver-each msg members users'
        (subst (λ n. IsMembership n members) (sym (length-set users m (told msg now))) ok) j in
    elim (ℕ_discrete m j) [
      | yes here ↦
          later
          ∙ rw (subst (λ k. member k members ≡ false) here once, (==_iff m j).1 here)
              (subst (λ k. get_or users' k nobody ≡ told msg (get_or users k nobody)) here
                (get_or-set_self nobody users m (told msg now) small))
      | no there ↦
          later ∙ rw (==_no m j there, get_or-set_ne nobody users m j (told msg now) there) refl
    ]

-- If the members are distinct users, a broadcast adds one delivery, with the names of the room
-- and of the sender, to the queue of each member, and leaves every other user alone.
pub broadcast_message-each :
    (room : Room) (sender text : List ℕ) (users : List User)
    → IsMembership (length users) room.members
    → (j : ℕ)
    → get_or (broadcast_message room sender text users) j nobody ≡ (
        if member j room.members
        then told
            (record {
              tag = codes "delivery";
              text = room.room_name ++ b':' ∷ sender ++ b':' ∷ text;
            })
            (get_or users j nobody)
        else get_or users j nobody)
unfolding broadcast_message
broadcast_message-each room sender text users ok j = deliver-each _ room.members users ok j

length-deliver :
    (msg : Message) (members : List ℕ) (users : List User)
    → length (deliver msg members users) ≡ length users
unfolding deliver
length-deliver msg [] users = refl
length-deliver msg (m ∷ members) users = length-deliver msg members _ ∙ length-set users m _

-- A broadcast makes and removes no user.
pub length-broadcast_message :
    (room : Room) (sender text : List ℕ) (users : List User)
    → length (broadcast_message room sender text users) ≡ length users
unfolding broadcast_message
length-broadcast_message room sender text users = length-deliver _ room.members users

pub member-append :
    (user other : ℕ) (members : List ℕ)
    → member user (members ++ other ∷ []) ≡ (member user members || other == user)
unfolding member
member-append user other [] = ground arith
member-append user other (m ∷ members) = ground (arith, member-append user other members)

append-IsMembership :
    (n user : ℕ) (members : List ℕ)
    → user < n
    → member user members ≡ false
    → IsMembership n members
    → IsMembership n (members ++ user ∷ [])
unfolding IsMembership member
append-IsMembership n user [] small once ok = (small, refl, tt)
append-IsMembership n user (m ∷ members) small once (lt, fresh, ok) = (
  lt,
  member-append m user members ∙ ground arith,
  append-IsMembership n user members small (ground arith) ok,
)

-- Adding a user keeps the members distinct users, and makes the user a member.
pub add_member-IsMembership :
    (n user : ℕ) (room : Room)
    → user < n
    → IsMembership n room.members
    → IsMembership n (add_member room user).members
      × (member user (add_member room user).members ≡ true)
unfolding add_member
add_member-IsMembership n user room small ok = elim (Bool-cases (member user room.members)) [
  | inl e ↦ rw e (ok, e)
  | inr e ↦ rw e (
    append-IsMembership n user room.members small e ok,
    member-append user user room.members ∙ rw (e, (==_iff user user).1 refl) refl,
  )
]

erase_member-false :
    (user other : ℕ) (members : List ℕ)
    → member user members ≡ false
    → member user (erase_member other members) ≡ false
unfolding member erase_member
erase_member-false user other [] h = refl
erase_member-false user other (m ∷ members) h =
    ground (arith, erase_member-false user other members)

erase-IsMembership :
    (n user : ℕ) (members : List ℕ)
    → IsMembership n members
    → IsMembership n (erase_member user members) × (member user (erase_member user members) ≡ false)
unfolding IsMembership member erase_member
erase-IsMembership n user [] ok = (tt, refl)
erase-IsMembership n user (m ∷ members) (lt, fresh, ok) = elim (Bool-cases (m == user)) [
  | inl e ↦ rw e (ok, subst (λ k. member k members ≡ false) ((==_iff m user).0 e) fresh)
  | inr e ↦
      let (rest, gone) = erase-IsMembership n user members ok in
      rw (e, e) ((lt, erase_member-false m user members fresh, rest), gone)
]

-- Removing a user keeps the members distinct users, and the user is no member afterwards.
pub remove_member-IsMembership :
    (n user : ℕ) (room : Room)
    → IsMembership n room.members
    → IsMembership n (remove_member room user).members
      × (member user (remove_member room user).members ≡ false)
unfolding remove_member
remove_member-IsMembership n user room ok = erase-IsMembership n user room.members ok
