-- ===== src/Chat/System/Invariant.antt =====
-- What every turn of every thread of csf_assign05/server.cpp keeps.
use mathlib.Core.List.{Permᴰ}
use assignments_for_csf.Base.{
  ℕ, ◌+◌, ◌≤◌, ◌≡◌, refl, ap, ◌∙◌, sym, arith, Bool, false, not, ◌&&◌, ◌||◌, List, [], ◌∷◌, Option,
  none, some, ◌==◌, ==_iff, inl, inr, Bool-cases, length, length-append, subst, str_eq,
}
use assignments_for_csf.Chat.{Connection}
use assignments_for_csf.Chat.Rooms.{Room, Server, member, add_member, remove_member}
use assignments_for_csf.Chat.Rooms.Broadcast.{
  IsMembership, add_member-IsMembership, remove_member-IsMembership,
}
use assignments_for_csf.Chat.Rooms.Names.{HasNames}
use assignments_for_csf.Chat.Rooms.Queue.{Counts}
use assignments_for_csf.Chat.Rooms.Counted.{AllCount, append-AllCount}
use assignments_for_csf.Chat.Rooms.Growth.{Grows}
use assignments_for_csf.Chat.Receiver.{leave_room, add_user}
use assignments_for_csf.Chat.Sender.Cases.{HasRoom}
use assignments_for_csf.Chat.System.{Client, accepted, meeting, entering, leaving, gone, enter}
use assignments_for_csf.Chat.System.Kept.{HasRoom-Grows, update_room-HasNames, HasRoom-update_room}
use assignments_for_csf.Chat.System.Presence.{
  present, here, present-Grows, present_enter, present_leave,
}
use assignments_for_csf.Chat.System.Distinct.{
  AllDistinct, AllDistinct-le, AllDistinct-Grows, AllDistinct-update_room, IsMembership-le,
}
use assignments_for_csf.Chat.System.Threads.{
  own_user, with_own, users_of, at_room, visits, IsPlaced, AllPlaced, AllPlaced-map, visits-none,
}
use assignments_for_csf.Chat.System.Order.{
  users_of-Perm, IsMembership-Perm, visits-Perm, AllPlaced-Perm,
}

-- The rooms have distinct names; the semaphore of every queue counts its messages; the threads' users are distinct; the members of a room are the users of the threads that are
-- served in it, which are distinct users; the rooms that the threads are about exist.
pub record Inv (server : Server) (clients : List Client) : Type 0 where
  pub names : HasNames server.rooms
  pub counted : AllCount server.users
  pub owned : IsMembership (length server.users) (users_of clients)
  pub exact : (name : List ℕ) (user : ℕ) → present name user server.rooms ≡ visits name user clients
  pub distinct : AllDistinct (length server.users) server.rooms
  pub placed : AllPlaced server.rooms clients

pub Inv-Perm : (server : Server) {cs ds : List Client} → Permᴰ cs ds → Inv server cs → Inv server ds
Inv-Perm server p v = record {
  names = v.names;
  counted = v.counted;
  owned = IsMembership-Perm (length server.users) (users_of-Perm p) v.owned;
  exact = λ name user. v.exact name user ∙ visits-Perm name user p;
  distinct = v.distinct;
  placed = AllPlaced-Perm server.rooms p v.placed;
}

-- Rooms are added, and the thread keeps its user and the room it is served in.
pub Inv-Grows :
    (server server' : Server) (c c' : Client) (others : List Client)
    → Inv server (c ∷ others)
    → HasNames server'.rooms
    → AllCount server'.users
    → length server'.users ≡ length server.users
    → Grows server.rooms server'.rooms
    → own_user c' ≡ own_user c
    → ((name : List ℕ) (user : ℕ) → at_room name user c' ≡ at_room name user c)
    → IsPlaced server'.rooms c'
    → Inv server' (c' ∷ others)
unfolding users_of visits AllPlaced
Inv-Grows server server' c c' others v names counted same grown own at placed = record {
  names = names;
  counted = counted;
  owned = rw (same, own) v.owned;
  exact = λ name user.
      present-Grows name user server.rooms server'.rooms grown
      ∙ v.exact name user
      ∙ ap (λ b. b || visits name user others) (sym (at name user));
  distinct =
      rw same (AllDistinct-Grows (length server.users) server.rooms server'.rooms grown v.distinct);
  placed = (
    placed,
    AllPlaced-map server.rooms server'.rooms (HasRoom-Grows server.rooms server'.rooms grown) others
        v.placed.1,
  );
}

others-IsMembership :
    (n : ℕ) (own : Option ℕ) (users : List ℕ)
    → IsMembership n (with_own own users)
    → IsMembership n users
unfolding with_own IsMembership
others-IsMembership n none users ok = ok
others-IsMembership n (some user) users (lt, once, ok) = ok

-- A thread that is served in no room ends.
pub gone-Inv :
    (server : Server) (c : Client) (conn : Connection) (others : List Client)
    → Inv server (c ∷ others)
    → ((name : List ℕ) (user : ℕ) → at_room name user c ≡ false)
    → Inv server (gone conn ∷ others)
unfolding users_of visits AllPlaced own_user with_own at_room IsPlaced
gone-Inv server c conn others v at = record {
  names = v.names;
  counted = v.counted;
  owned = others-IsMembership (length server.users) (own_user c) (users_of others) v.owned;
  exact = λ name user. v.exact name user ∙ ap (λ b. b || visits name user others) (at name user);
  distinct = v.distinct;
  placed = (tt, v.placed.1);
}

fresh_user : (n : ℕ) (users : List ℕ) → IsMembership n users → member n users ≡ false
unfolding IsMembership member
fresh_user n [] ok = refl
fresh_user n (m ∷ users) (lt, once, ok) = ground (arith, fresh_user n users ok)

-- A receiving client is let in, under a user of its own.
pub add_user-Inv :
    (server : Server) (username : List ℕ) (first conn : Connection) (others : List Client)
    → Inv server (accepted first ∷ others)
    → Inv (add_user server username) (meeting conn (length server.users) ∷ others)
unfolding users_of visits AllPlaced own_user with_own at_room IsPlaced add_user IsMembership
add_user-Inv server username first conn others v =
    let n = length server.users in
    let more : length (add_user server username).users ≡ n + 1 = length-append server.users _ in
    let le : n ≤ n + 1 = omega arith in
    record {
      names = v.names;
      counted = append-AllCount server.users _ v.counted (unfold Counts in refl);
      owned =
          subst (λ k. IsMembership k (n ∷ users_of others)) (sym more)
            (
              omega arith,
              fresh_user n (users_of others) v.owned,
              IsMembership-le n (n + 1) (users_of others) le v.owned,
            );
      exact = v.exact;
      distinct =
          subst (λ k. AllDistinct k server.rooms) (sym more)
            (AllDistinct-le n (n + 1) server.rooms le v.distinct);
      placed = (tt, v.placed.1);
    }

-- A user enters the room that the thread has found, under the lock of the room.
pub enter-Inv :
    (server : Server) (first : Connection) (user : ℕ) (name : List ℕ) (c' : Client)
    (others : List Client)
    → Inv server (entering first user name ∷ others)
    → own_user c' ≡ some user
    → ((room : List ℕ) (other : ℕ) → at_room room other c' ≡ here user name other room)
    → ((rooms : List Room) → HasRoom (some name) rooms → IsPlaced rooms c')
    → Inv (enter server user name) (c' ∷ others)
unfolding users_of visits AllPlaced own_user with_own at_room IsPlaced enter IsMembership add_member
enter-Inv server first user name c' others v own at place =
    let n = length server.users in
    let kept = HasRoom-update_room name (λ r. add_member r user) server.rooms (λ r. refl) in
    record {
      names = update_room-HasNames name (λ r. add_member r user) server.rooms (λ r. refl) v.names;
      counted = v.counted;
      owned = rw own v.owned;
      exact = λ room other.
          present_enter name room user other server.rooms v.placed.0
          ∙ rw (v.exact room other, at room other) (ground arith);
      distinct =
          AllDistinct-update_room n name (λ r. add_member r user) server.rooms
            (λ r ok. (add_member-IsMembership n user r v.owned.0 ok).0) v.distinct;
      placed = (
        place _ (kept (some name) v.placed.0),
        AllPlaced-map server.rooms _ kept others v.placed.1,
      );
    }

left_out :
    (user other : ℕ) (same_room later : Bool)
    → (user ≡ other → later ≡ false)
    → (((user == other && same_room) || later) && not (user == other && same_room)) ≡ later
left_out user other same_room later h = elim (Bool-cases (user == other)) [
  | inl e ↦ rw (e, h ((==_iff user other).0 e)) (ground arith)
  | inr e ↦ rw e (ground arith)
]

-- A user leaves the room it is served in, and its thread ends.
pub leave-Inv :
    (server : Server) (first conn : Connection) (user : ℕ) (name : List ℕ) (others : List Client)
    → Inv server (leaving first user name ∷ others)
    → Inv (leave_room server name user) (gone conn ∷ others)
unfolding users_of visits AllPlaced own_user with_own at_room IsPlaced leave_room IsMembership
    remove_member
leave-Inv server first conn user name others v =
    let n = length server.users in
    let f : Room → Room = λ r. remove_member r user in
    record {
      names = update_room-HasNames name f server.rooms (λ r. refl) v.names;
      counted = v.counted;
      owned = v.owned.2;
      exact = λ room other.
          present_leave n name room user other server.rooms v.distinct
          ∙ ap (λ b. b && not (here user name other room)) (v.exact room other)
          ∙ left_out user other (str_eq name room) (visits room other others) (λ e.
            visits-none room other others
              (subst (λ u. member u (users_of others) ≡ false) e v.owned.1));
      distinct =
          AllDistinct-update_room n name f server.rooms
            (λ r ok. (remove_member-IsMembership n user r ok).0) v.distinct;
      placed = (
        tt,
        AllPlaced-map server.rooms _ (HasRoom-update_room name f server.rooms (λ r. refl)) others
            v.placed.1,
      );
    }
