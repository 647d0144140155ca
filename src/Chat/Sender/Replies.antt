-- ===== src/Chat/Sender/Replies.antt =====
-- The replies to a sending client, and the end of its loop.
use assignments_for_csf.Base.{
  ℕ, zero, suc, ◌≤◌, ◌<◌, ◌≡◌, ◌≢◌, ◌-◌, leb, inl, inr, Bool-cases, length-drop, refl, ap, subst,
  ◌∙◌, sym, arith, Bool, true, false, List, [], ◌∷◌, ◌++◌, Option, some, if◌then◌else◌, length,
}
use assignments_for_csf.Chat.{
  Message, Result, success, eof_or_error, invalid_msg, Connection, send, receive, encode, known_tag,
  before_colon, c_string, max_len, next_piece,
}
use assignments_for_csf.Chat.Codec.{receive-line}
use assignments_for_csf.Chat.Rooms.{Server}
use assignments_for_csf.Chat.Sender.{
  Session, Flow, goes_on, thrown, after, reply, stop, on_result, sender_step, sender_loop, unread,
  chat_with_sender,
}
use assignments_for_csf.Chat.Sender.Cases.{on_result-all}

-- The flow has written one message more than the connection had.
Replies : Connection → Flow → Type 0
Replies conn flow = (msg : Message) × ((after flow).conn.sent ≡ conn.sent ++ encode msg ∷ [])

reply-incoming :
    (s : Session) (tag text : List ℕ) → (after (reply s tag text)).conn.incoming ≡ s.conn.incoming
unfolding reply send
reply-incoming s tag text = by_writes s.conn.writes refl
  where
    by_writes :
        (writes : List Bool)
        → s.conn.writes ≡ writes
        → (after (reply s tag text)).conn.incoming ≡ s.conn.incoming
    by_writes [] e = rw e refl
    by_writes (true ∷ writes) e = rw e refl
    by_writes (false ∷ writes) e = rw e refl

stop-incoming : (flow : Flow) → (after (stop flow)).conn.incoming ≡ (after flow).conn.incoming
stop-incoming (goes_on s) = refl
stop-incoming (thrown s) = refl

received : Bool → Result
received known = if known then success else invalid_msg

received-ne : (known : Bool) → received known ≢ eof_or_error
unfolding received
received-ne true e = absurd (ground arith)
received-ne false e = absurd (ground arith)

module _ (username : List ℕ) (s : Session) (line : List ℕ) (rest : List (List ℕ))
    (next : s.conn.incoming ≡ line ∷ rest) where
  abbrev conn : Connection
  conn = (receive s.conn s.curr_mes).0

  read-result : conn.last_result ≢ eof_or_error
  unfolding received
  read-result =
      subst (λ r. r ≢ eof_or_error)
        (sym (ap (λ p. p.0.last_result) (receive-line s.conn s.curr_mes line rest next)))
        (received-ne (known_tag (before_colon (c_string (next_piece line rest).0))))

  sender_step-incoming : (after (sender_step username s)).conn.incoming ≡ (next_piece line rest).1
  unfolding sender_step
  sender_step-incoming =
      on_result-all username (record s { conn = conn; curr_mes = (receive s.conn s.curr_mes).1 })
        (λ flow. (after flow).conn.incoming ≡ conn.incoming)
        (λ s' tag text same rooms. reply-incoming s' tag text ∙ ap (λ c. c.incoming) (sym same))
        (λ flow h. stop-incoming flow ∙ h) conn.last_result read-result
      ∙ ap (λ p. p.0.incoming) (receive-line s.conn s.curr_mes line rest next)

-- At the end of the file the round throws.
sender_step-end :
    (username : List ℕ) (s : Session)
    → s.conn.incoming ≡ []
    → (s' : Session) × (sender_step username s ≡ thrown s')
unfolding sender_step receive on_result
sender_step-end username s e = rw e (_, refl)

leb→lt : (a b : ℕ) → leb a b ≡ false → b < a
leb→lt a b h = ground arith

-- Every read leaves less.
next_piece-unread :
    (line : List ℕ) (rest : List (List ℕ)) → unread (next_piece line rest).1 < unread (line ∷ rest)
unfolding next_piece unread
next_piece-unread line rest = elim (Bool-cases (leb (length line) (max_len - 1))) [
  | inl e ↦ rw e (omega arith)
  | inr e ↦
      let long : max_len - 1 < length line = leb→lt (length line) (max_len - 1) e in
      rw e (omega (arith, length-drop (max_len - 1) line))
]

-- With the loop's end known for one unit of fuel less.
module _ (fuel : ℕ) (username : List ℕ)
    (later : (s : Session)
      → unread s.conn.incoming < fuel
      → (s' : Session) × (sender_loop fuel username s ≡ some s')) where
  by_flow :
      (flow : Flow)
      → unread (after flow).conn.incoming < fuel
      → (s' : Session) × ((elim flow as (λ x. Option Session) [
        | goes_on s' ↦ sender_loop fuel username s'
        | thrown s' ↦ some s'
      ])
          ≡ some s')
  by_flow (thrown s') h = (s', refl)
  by_flow (goes_on s') h = later s' h

  by_incoming :
      (s : Session) (incoming : List (List ℕ))
      → s.conn.incoming ≡ incoming
      → unread incoming ≤ fuel
      → (s' : Session) × (sender_loop (suc fuel) username s ≡ some s')
  unfolding sender_loop
  by_incoming s [] e h =
      let (s', f) = sender_step-end username s e in (s', rw (sender_loop, f) refl)
  by_incoming s (line ∷ rest) e h = by_flow (sender_step username s) (
      omega (
        arith,
        next_piece-unread line rest,
        ap unread (sender_step-incoming username s line rest e),
      ))

sender_loop-ends :
    (fuel : ℕ) (username : List ℕ) (s : Session)
    → unread s.conn.incoming < fuel
    → (s' : Session) × (sender_loop fuel username s ≡ some s')
sender_loop-ends zero username s h = absurd (omega arith)
sender_loop-ends (suc fuel) username s h =
    by_incoming fuel username (sender_loop-ends fuel username) s s.conn.incoming refl (omega arith)

-- The loop that serves a sender ends, whatever the client sends.
pub chat_with_sender-ends :
    (conn : Connection) (server : Server) (username : List ℕ)
    → (s : Session) × (chat_with_sender conn server username ≡ some s)
unfolding chat_with_sender
chat_with_sender-ends conn server username = sender_loop-ends _ username _ (omega arith)
