-- ===== src/Chat/Receiver/Delivery.antt =====
-- The messages that a receiving client is sent.
use assignments_for_csf.Base.{
  ℕ, ◌≡◌, refl, ap, subst, ◌∙◌, sym, inl, inr, arith, Bool, true, false, List, [], ◌∷◌, ◌++◌, map,
  if◌then◌else◌, length, append_assoc, append-nil, length-append, Bool-cases,
}
use assignments_for_csf.Chat.{Message, Connection, encode, send}
use assignments_for_csf.Chat.Rooms.{MessageQueue, enqueue, dequeue}
use assignments_for_csf.Chat.Receiver.{enqueue_all, Served, deliver_to, is_closed, serve}

-- A queue whose semaphore counts its messages.
abbrev pub queue_of : List Message → MessageQueue
queue_of messages = record { avail = length messages; messages = messages }

unfoldable pub all_of : List (List Message) → List Message
all_of [] = []
all_of (arrivals ∷ polls) = arrivals ++ all_of polls

enqueue_all-queue_of :
    (messages arrivals : List Message)
    → enqueue_all (queue_of messages) arrivals ≡ queue_of (messages ++ arrivals)
unfolding enqueue_all enqueue
enqueue_all-queue_of messages [] = ap queue_of (sym (append-nil messages))
enqueue_all-queue_of messages (msg ∷ arrivals) =
    ap (λ (n : ℕ). enqueue_all (record { avail = n; messages = messages ++ msg ∷ [] }) arrivals)
      (sym (length-append messages (msg ∷ [])))
    ∙ enqueue_all-queue_of (messages ++ msg ∷ []) arrivals
    ∙ ap queue_of (append_assoc messages (msg ∷ []) arrivals)

-- What a run of the loop has sent, and what it has left waiting.
pub record Delivers (conn : Connection) (messages : List Message) (served : Served) : Type 0 where
  pub delivered : List Message
  pub waiting : List Message
  pub sent_now : served.conn.sent ≡ conn.sent ++ map encode delivered
  pub left : served.mqueue ≡ queue_of waiting
  pub all : delivered ++ waiting ≡ messages

-- A round of the loop in which these messages wait.
unfoldable pub round : List Message → Connection → List (List Message) → Served
round [] conn polls = serve polls conn (queue_of [])
round (msg ∷ rest) conn polls =
    let conn' = (send conn msg).0 in
    if is_closed conn'.last_result
    then record { conn = conn'; mqueue = queue_of rest; running = false }
    else serve polls conn' (queue_of rest)

taken :
    (waiting : List Message) (conn : Connection) (polls : List (List Message))
    → is_closed conn.last_result ≡ false
    → serve ([] ∷ polls) conn (queue_of waiting) ≡ round waiting conn polls
unfolding serve round dequeue deliver_to enqueue_all
taken [] conn polls h = rw h refl
taken (msg ∷ rest) conn polls h = refl

pub serve-round :
    (arrivals messages : List Message) (conn : Connection) (polls : List (List Message))
    → is_closed conn.last_result ≡ false
    → serve (arrivals ∷ polls) conn (queue_of messages) ≡ round (messages ++ arrivals) conn polls
unfolding serve enqueue_all
serve-round arrivals messages conn polls h =
    rw (enqueue_all-queue_of messages arrivals) (taken (messages ++ arrivals) conn polls h)

nothing-Delivers :
    (conn : Connection) (messages : List Message)
    → Delivers conn
        (messages ++ [])
        (record { conn = conn; mqueue = queue_of messages; running = true })
nothing-Delivers conn messages = record {
  delivered = [];
  waiting = messages;
  sent_now = sym (append-nil conn.sent);
  left = refl;
  all = sym (append-nil messages);
}

-- A round that writes a message, with what the later rounds deliver.
more-Delivers :
    (conn conn' : Connection) (msg : Message) (messages : List Message) (served : Served)
    → conn'.sent ≡ conn.sent ++ encode msg ∷ []
    → Delivers conn' messages served
    → Delivers conn (msg ∷ messages) served
more-Delivers conn conn' msg messages served e d = record {
  delivered = msg ∷ d.delivered;
  waiting = d.waiting;
  sent_now =
      d.sent_now
      ∙ ap (λ sent. sent ++ map encode d.delivered) e
      ∙ append_assoc conn.sent (encode msg ∷ []) (map encode d.delivered);
  left = d.left;
  all = ap (◌∷◌ msg) d.all;
}

pub send-sent :
    (conn : Connection) (msg : Message)
    → is_closed (send conn msg).0.last_result ≡ false
    → (send conn msg).0.sent ≡ conn.sent ++ encode msg ∷ []
unfolding send
send-sent conn msg = by_writes conn.writes refl
  where
    by_writes :
        (writes : List Bool)
        → conn.writes ≡ writes
        → is_closed (send conn msg).0.last_result ≡ false
        → (send conn msg).0.sent ≡ conn.sent ++ encode msg ∷ []
    by_writes [] e h = ground arith
    by_writes (true ∷ writes) e h = rw e refl
    by_writes (false ∷ writes) e h = ground arith

round-Delivers :
    (waiting : List Message) (polls : List (List Message))
    → ((later : List Message) (conn : Connection)
        → is_closed conn.last_result ≡ false
        → (serve polls conn (queue_of later)).running ≡ true
        → Delivers conn (later ++ all_of polls) (serve polls conn (queue_of later)))
    → (conn : Connection) → is_closed conn.last_result ≡ false
    → (round waiting conn polls).running ≡ true
    → Delivers conn (waiting ++ all_of polls) (round waiting conn polls)
unfolding round
round-Delivers [] polls ih conn h runs = ih [] conn h runs
round-Delivers (msg ∷ rest) polls ih conn h runs =
    let conn' = (send conn msg).0 in
    elim (Bool-cases (is_closed conn'.last_result)) [
      | inl closed ↦ ground arith
      | inr open_ ↦ rw open_ (
          more-Delivers conn conn' msg (rest ++ all_of polls) (serve polls conn' (queue_of rest))
            (send-sent conn msg open_) (ih rest conn' open_ (rw open_ at runs)))
    ]

-- While the loop that serves a receiving client is running, what it has written to the client and
-- what is left in the queue are, in this order, the messages that waited at its start and those
-- that have arrived since. The connection is open at the start.
pub serve-Delivers :
    (polls : List (List Message)) (messages : List Message) (conn : Connection)
    → is_closed conn.last_result ≡ false
    → (serve polls conn (queue_of messages)).running ≡ true
    → Delivers conn (messages ++ all_of polls) (serve polls conn (queue_of messages))
unfolding all_of
serve-Delivers [] messages conn h runs = unfold serve in nothing-Delivers conn messages
serve-Delivers (arrivals ∷ polls) messages conn h runs =
    let e = serve-round arrivals messages conn polls h in
    subst (λ served. Delivers conn (messages ++ (arrivals ++ all_of polls)) served) (sym e)
      (subst (λ all. Delivers conn all (round (messages ++ arrivals) conn polls))
        (append_assoc messages arrivals (all_of polls))
        (round-Delivers (messages ++ arrivals) polls (serve-Delivers polls) conn h
          (ap (λ served. served.running) (sym e) ∙ runs)))
