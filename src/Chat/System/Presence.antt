-- ===== src/Chat/System/Presence.antt =====
-- Who is in which room (room.cpp and the map of rooms of server.cpp), as the rooms change.
use assignments_for_csf.Base.{
  ℕ, ◌≡◌, refl, ap, ◌∙◌, sym, inl, inr, arith, Bool, true, false, not, ◌&&◌, ◌||◌, List, [], ◌∷◌,
  ◌++◌, Option, none, some, ◌==◌, ==_iff, if◌then◌else◌, str_eq, str_eq→eq, str_eq_refl, subst,
  Bool-cases,
}
use assignments_for_csf.Chat.Rooms.{
  Room, member, add_member, erase_member, remove_member, find_room,
}
use assignments_for_csf.Chat.Rooms.Growth.{AllEmpty, Grows}
use assignments_for_csf.Chat.Rooms.Broadcast.{IsMembership, member-append}
use assignments_for_csf.Chat.Receiver.{update_room}
use assignments_for_csf.Chat.Sender.Cases.{HasRoom}
use assignments_for_csf.Chat.System.Distinct.{AllDistinct, find_room-IsMembership}

abbrev pub is_in : ℕ → Option Room → Bool
is_in user none = false
is_in user (some r) = member user r.members

-- The user is a member of the room of the name.
unfoldable pub present : List ℕ → ℕ → List Room → Bool
present name user rooms = is_in user (find_room name rooms)

abbrev pub here : ℕ → List ℕ → ℕ → List ℕ → Bool
here user room user' name = user == user' && str_eq room name

find_room-extra :
    (name : List ℕ) (user : ℕ) (rooms extra : List Room)
    → AllEmpty extra
    → is_in user (find_room name (rooms ++ extra)) ≡ is_in user (find_room name rooms)
unfolding find_room AllEmpty member
find_room-extra name user [] [] ok = refl
find_room-extra name user [] (x ∷ extra) (e, ok) = elim (Bool-cases (str_eq x.room_name name)) [
  | inl b ↦ rw b (ap (member user) e)
  | inr b ↦ rw b (find_room-extra name user [] extra ok)
]
find_room-extra name user (x ∷ rooms) extra ok = elim (Bool-cases (str_eq x.room_name name)) [
  | inl b ↦ rw b refl
  | inr b ↦ rw b (find_room-extra name user rooms extra ok)
]

-- New rooms are empty.
pub present-Grows :
    (name : List ℕ) (user : ℕ) (before after : List Room)
    → Grows before after
    → present name user after ≡ present name user before
unfolding Grows present
present-Grows name user before after (extra, e, ok) =
    ap (λ rooms. is_in user (find_room name rooms)) e ∙ find_room-extra name user before extra ok

abbrev pub changed : (Room → Room) → Option Room → Option Room
changed f none = none
changed f (some r) = some (f r)

other_name : (a b c : List ℕ) → str_eq a b ≡ true → str_eq a c ≡ false → str_eq c b ≡ false
other_name a b c h k = elim (Bool-cases (str_eq c b)) [
  | inl t ↦
      let same : a ≡ c = str_eq→eq a b h ∙ sym (str_eq→eq c b t) in
      let no : str_eq a c ≡ true = subst (λ x. str_eq a x ≡ true) same (str_eq_refl a) in
      absurd (ground arith)
  | inr f ↦ f
]

-- A change to a room that keeps its name.
module _ (f : Room → Room) (keeps : (r : Room) → (f r).room_name ≡ r.room_name) where
  pub find_room-update_room :
      (n name : List ℕ) (rooms : List Room)
      → find_room name (update_room n f rooms)
        ≡ (if str_eq n name then changed f (find_room name rooms) else find_room name rooms)
  unfolding find_room update_room
  find_room-update_room n name [] = elim (Bool-cases (str_eq n name)) [
    | inl b ↦ rw b refl
    | inr b ↦ rw b refl
  ]
  find_room-update_room n name (r ∷ rooms) = elim (Bool-cases (str_eq r.room_name n)) [
    | inl a ↦
        let same : r.room_name ≡ n = str_eq→eq r.room_name n a in
        let test = ap (λ m. str_eq m name) (keeps r) in
        let test' = ap (λ m. str_eq m name) same in
        elim (Bool-cases (str_eq r.room_name name)) [
          | inl b ↦ rw (a, test ∙ b, b, sym test' ∙ b) refl
          | inr b ↦ rw (a, test ∙ b, b, sym test' ∙ b) refl
        ]
    | inr a ↦ elim (Bool-cases (str_eq r.room_name name)) [
      | inl b ↦ rw (a, b, other_name r.room_name name n b a) refl
      | inr b ↦ rw (a, b) (find_room-update_room n name rooms)
    ]
  ]

member-add_member :
    (user other : ℕ) (r : Room)
    → member user (add_member r other).members ≡ (member user r.members || other == user)
unfolding add_member
member-add_member user other r = elim (Bool-cases (member other r.members)) [
  | inl e ↦ rw e (elim (Bool-cases (other == user)) [
    | inl b ↦
        let same = (==_iff other user).0 b in
        rw b (subst (λ u. member u r.members ≡ (member u r.members || true)) same (rw e refl))
    | inr b ↦ rw b (ground arith)
  ])
  | inr e ↦ rw e (member-append user other r.members)
]

member-erase_member :
    (n user other : ℕ) (members : List ℕ)
    → IsMembership n members
    → member user (erase_member other members) ≡ (member user members && not (other == user))
unfolding IsMembership member erase_member
member-erase_member n user other [] ok = ground arith
member-erase_member n user other (m ∷ members) (lt, once, ok) = elim (Bool-cases (m == other)) [
  | inl e ↦
      let same : m ≡ other = (==_iff m other).0 e in
      let gone : member other members ≡ false = subst (λ k. member k members ≡ false) same once in
      rw e (
        subst
          (λ k. member user members ≡ ((k == user || member user members) && not (other == user)))
          (sym same)
          (elim (Bool-cases (other == user)) [
            | inl b ↦ rw b (subst (λ k. member k members ≡ false) ((==_iff other user).0 b) gone)
            | inr b ↦ rw b (ground arith)
          ]))
  | inr e ↦ rw e (ground (arith, member-erase_member n user other members ok))
]

-- A user enters a room that exists.
pub present_enter :
    (room name : List ℕ) (user user' : ℕ) (rooms : List Room)
    → HasRoom (some room) rooms
    → present name user' (update_room room (λ r. add_member r user) rooms)
      ≡ (present name user' rooms || here user room user' name)
unfolding present HasRoom add_member
present_enter room name user user' rooms (r, found) =
    ap (is_in user') (find_room-update_room (λ r. add_member r user) (λ r. refl) room name rooms)
    ∙ elim (Bool-cases (str_eq room name)) [
      | inl e ↦
          let found' : find_room name rooms ≡ some r =
            subst (λ n. find_room n rooms ≡ some r) (str_eq→eq room name e) found in
          rw (e, found') (member-add_member user' user r ∙ ground arith)
      | inr e ↦ rw e (ground arith)
    ]

after_leave :
    (n user user' : ℕ) (found : Option Room)
    → ((r : Room) → found ≡ some r → IsMembership n r.members)
    → is_in user' (changed (λ r. remove_member r user) found)
      ≡ (is_in user' found && not (user == user'))
unfolding remove_member
after_leave n user user' none ok = refl
after_leave n user user' (some r) ok = member-erase_member n user' user r.members (ok r refl)

pub present_leave :
    (n : ℕ) (room name : List ℕ) (user user' : ℕ) (rooms : List Room)
    → AllDistinct n rooms
    → present name user' (update_room room (λ r. remove_member r user) rooms)
      ≡ (present name user' rooms && not (here user room user' name))
unfolding present remove_member
present_leave n room name user user' rooms ok =
    ap (is_in user') (find_room-update_room (λ r. remove_member r user) (λ r. refl) room name rooms)
    ∙ elim (Bool-cases (str_eq room name)) [
      | inl e ↦ rw e (
          after_leave n user user' (find_room name rooms)
            (λ r found. find_room-IsMembership n name rooms r ok found)
          ∙ ground arith)
      | inr e ↦ rw e (ground arith)
    ]
