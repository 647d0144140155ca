-- ===== src/Chat/System/Turns.antt =====
-- Every turn and every schedule of the threads of csf_assign05/server.cpp.
use mathlib.Core.List.Permᴰ
use assignments_for_csf.Base.{
  ℕ, ◌≡◌, refl, sym, ap, inl, inr, not, ◌||◌, List, [], ◌∷◌, ◌++◌, none, some, codes, str_eq,
  length, length-set, get_elem?, set, subst, Bool-cases, Option-cases, append-nil,
}
use assignments_for_csf.Chat.{
  Message, Result, success, eof_or_error, invalid_msg, Connection, has, right_trim,
}
use assignments_for_csf.Chat.Rooms.{Server, find_room, find_or_create_room}
use assignments_for_csf.Chat.Rooms.Growth.{
  Grows-same, find_or_create_room-Grows, find_or_create_room-users,
}
use assignments_for_csf.Chat.Rooms.Counted.{AllCount, get-Counts, set-AllCount, dequeue-Counts}
use assignments_for_csf.Chat.Rooms.Names.{
  HasNames, find_or_create_room-HasNames, find_or_create_room-found,
}
use assignments_for_csf.Chat.Rooms.Broadcast.{IsMembership}
use assignments_for_csf.Chat.System.Distinct.{AllDistinct}
use assignments_for_csf.Chat.Worker.{Login, refused, as_sender, as_receiver, login}
use assignments_for_csf.Chat.Receiver.{is_closed}
use assignments_for_csf.Chat.Sender.{Session, Flow, goes_on, thrown, after, sender_step}
use assignments_for_csf.Chat.Sender.Cases.{HasRoom, Moves}
use assignments_for_csf.Chat.Sender.Growth.{sender_step-Moves}
use assignments_for_csf.Chat.System.{
  Client, accepted, talking, meeting, entering, visiting, leaving, gone, logged_in, talked, met,
  on_or_out, enter, take_message, turn, System, Event, connects, runs, step, started, run,
}
use assignments_for_csf.Chat.System.Presence.{present}
use assignments_for_csf.Chat.System.Threads.{
  own_user, with_own, users_of, at_room, visits, IsPlaced, AllPlaced,
}
use assignments_for_csf.Chat.System.Order.{at_place}
use assignments_for_csf.Chat.System.Invariant.{
  Inv, Inv-Perm, Inv-Grows, gone-Inv, add_user-Inv, enter-Inv, leave-Inv,
}

-- What a turn ends with.
abbrev Kept : List Client → Server × Client → Type 0
Kept others (server, c) = Inv server (c ∷ others)

logged_in-Inv :
    (server : Server) (first : Connection) (others : List Client)
    → Inv server (accepted first ∷ others)
    → (l : Login) → Kept others (logged_in l server)
unfolding logged_in
logged_in-Inv server first others v (refused conn) =
    gone-Inv server (accepted first) conn others v (unfold at_room in λ name user. refl)
logged_in-Inv server first others v (as_sender conn username) =
    Inv-Grows server server (accepted first) (talking username conn _ none) others v v.names
      v.counted refl (Grows-same server.rooms) (unfold own_user in refl)
      (unfold at_room in λ name user. refl) (unfold IsPlaced HasRoom in tt)
logged_in-Inv server first others v (as_receiver conn username) =
    add_user-Inv server username first conn others v

talked-Inv :
    (username : List ℕ) (s : Session) (others : List Client)
    → Inv s.server (talking username s.conn s.curr_mes s.current_room ∷ others)
    → (flow : Flow) → Moves s (after flow)
    → Kept others (talked username flow)
unfolding talked own_user at_room IsPlaced AllPlaced
talked-Inv username s others v (goes_on t) m =
    Inv-Grows s.server t.server _ _ others v (m.names v.names) (m.counts v.counted) m.users m.rooms
      refl (λ name user. refl) (m.has_room v.placed.0)
talked-Inv username s others v (thrown t) m =
    Inv-Grows s.server t.server _ _ others v (m.names v.names) (m.counts v.counted) m.users m.rooms
      refl (λ name user. refl) tt

met-Inv :
    (server : Server) (first : Connection) (user : ℕ) (others : List Client)
    → Inv server (meeting first user ∷ others)
    → (result : Result) (conn : Connection) (join_meg : Message)
    → Kept others (met result conn join_meg server user)
unfolding met own_user at_room IsPlaced HasRoom
met-Inv server first user others v eof_or_error conn join_meg =
    gone-Inv server (meeting first user) _ others v (λ name other. refl)
met-Inv server first user others v invalid_msg conn join_meg =
    gone-Inv server (meeting first user) _ others v (λ name other. refl)
met-Inv server first user others v success conn join_meg =
    elim (Bool-cases (not (str_eq join_meg.tag (codes "join")) || not (has b'\n' join_meg.text))) [
      | inl e ↦ rw e (gone-Inv server (meeting first user) _ others v (λ name other. refl))
      | inr e ↦
          let name = right_trim join_meg.text in
          rw e (
            Inv-Grows server (find_or_create_room server name).0 (meeting first user)
              (entering conn user name) others v
              (find_or_create_room-HasNames server name v.names).0
              (subst AllCount (sym (find_or_create_room-users server name)) v.counted)
              (ap (λ users. length users) (find_or_create_room-users server name))
              (find_or_create_room-Grows server name) refl (λ room other. refl)
              (_, find_or_create_room-found server name))
    ]

-- Whether the loop goes on or not, the thread keeps its user and its room.
on_or_out-cases :
    (conn : Connection) (user : ℕ) (name : List ℕ) (P : Client → Type 0)
    → P (visiting conn user name)
    → P (leaving conn user name)
    → P (on_or_out conn user name)
unfolding on_or_out
on_or_out-cases conn user name P on out = elim (Bool-cases (is_closed conn.last_result)) [
  | inl e ↦ rw e out
  | inr e ↦ rw e on
]

taken :
    (server : Server) (user : ℕ)
    → AllCount server.users
    → AllCount (take_message server user).1.users
unfolding take_message
taken server user h =
    set-AllCount server.users user _ h (dequeue-Counts _ (get-Counts server.users user h))

turn-Inv :
    (server : Server) (others : List Client) (c : Client)
    → Inv server (c ∷ others)
    → Kept others (turn server c)
unfolding turn own_user at_room IsPlaced take_message AllPlaced
turn-Inv server others (accepted conn) v = logged_in-Inv server conn others v (login conn)
turn-Inv server others (talking username conn m room) v =
    let s : Session = record { conn = conn; server = server; curr_mes = m; current_room = room } in
    talked-Inv username s others v (sender_step username s) (sender_step-Moves username s)
turn-Inv server others (meeting conn user) v = met-Inv server conn user others v _ _ _
turn-Inv server others (entering conn user name) v =
    on_or_out-cases _ user name (λ c. Inv (enter server user name) (c ∷ others))
      (enter-Inv server conn user name _ others v refl (λ room other. refl) (λ rooms h. h))
      (enter-Inv server conn user name _ others v refl (λ room other. refl) (λ rooms h. h))
turn-Inv server others (visiting conn user name) v =
    on_or_out-cases _ user name (λ c. Inv (take_message server user).1 (c ∷ others))
      (Inv-Grows server _ _ _ others v v.names (taken server user v.counted)
        (length-set server.users user _) (Grows-same server.rooms) refl (λ room other. refl)
        v.placed.0)
      (Inv-Grows server _ _ _ others v v.names (taken server user v.counted)
        (length-set server.users user _) (Grows-same server.rooms) refl (λ room other. refl)
        v.placed.0)
turn-Inv server others (leaving conn user name) v = leave-Inv server conn conn user name others v
turn-Inv server others (gone conn) v = v

abbrev pub Holds : System → Type 0
Holds system = Inv system.server system.clients

pub started-Inv : Holds started
unfolding users_of visits present AllPlaced IsMembership AllCount HasNames find_room AllDistinct
started-Inv = record {
  names = tt;
  counted = tt;
  owned = tt;
  exact = λ name user. refl;
  distinct = tt;
  placed = tt;
}

-- The client that connects comes first in some order of the clients.
connect-Inv :
    (server : Server) (clients : List Client) (conn : Connection)
    → Inv server clients
    → Inv server (clients ++ accepted conn ∷ [])
unfolding users_of visits own_user with_own at_room AllPlaced IsPlaced
connect-Inv server clients conn v =
    let front : Inv server (accepted conn ∷ clients) = record {
      names = v.names;
      counted = v.counted;
      owned = v.owned;
      exact = v.exact;
      distinct = v.distinct;
      placed = (tt, v.placed);
    } in
    let back = Permᴰ.symm (Permᴰ.middle (accepted conn) clients []) in
    Inv-Perm server back
      (subst (λ l. Inv server (accepted conn ∷ l)) (sym (append-nil clients)) front)

run_turn-Inv :
    (system : System) (i : ℕ) (c : Client)
    → get_elem? system.clients i ≡ some c
    → Holds system
    → Inv (turn system.server c).0 (set system.clients i (turn system.server c).1)
run_turn-Inv system i c e v =
    let (others, there, back) = at_place system.clients i c e in
    Inv-Perm (turn system.server c).0 (back (turn system.server c).1)
      (turn-Inv system.server others c (Inv-Perm system.server there v))

step-Inv : (system : System) (event : Event) → Holds system → Holds (step system event)
unfolding step
step-Inv system (connects conn) v = connect-Inv system.server system.clients conn v
step-Inv system (runs i) v = elim (Option-cases (get_elem? system.clients i)) [
  | inl n ↦ rw (step, n) v
  | inr (c, e) ↦ rw (step, e) (run_turn-Inv system i c e v)
]

pub run-Inv : (system : System) (events : List Event) → Holds system → Holds (run system events)
unfolding run
run-Inv system [] v = v
run-Inv system (event ∷ events) v = run-Inv (step system event) events (step-Inv system event v)
