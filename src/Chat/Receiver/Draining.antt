-- ===== src/Chat/Receiver/Draining.antt =====
-- The rounds of the loop for a receiving client once no more messages arrive.
use assignments_for_csf.Base.{
  ℕ, zero, suc, ◌≤◌, ◌≡◌, refl, ap, subst, ◌∙◌, sym, arith, true, false, List, [], ◌∷◌, ◌++◌, map,
  length, replicate, append_assoc, append-nil, length-append,
}
use assignments_for_csf.Chat.{Message, Connection, encode, send}
use assignments_for_csf.Chat.Receiver.{Served, is_closed, serve}
use assignments_for_csf.Chat.Receiver.Delivery.{queue_of, all_of, round, serve-round, send-sent}

writes-open :
    (k : ℕ) (conn : Connection) (msg : Message)
    → conn.writes ≡ replicate (suc k) true
    → (is_closed (send conn msg).0.last_result ≡ false)
      × ((send conn msg).0.writes ≡ replicate k true)
unfolding send
writes-open k conn msg e = rw e (refl, refl)

-- All the messages are written, and nothing is left.
unfoldable pub Empties : Connection → List Message → Served → Type 0
Empties conn messages served =
    (served.running ≡ true)
    × (served.mqueue ≡ queue_of [])
    × (served.conn.sent ≡ conn.sent ++ map encode messages)

more-Empties :
    (conn conn' : Connection) (msg : Message) (messages : List Message) (served : Served)
    → conn'.sent ≡ conn.sent ++ encode msg ∷ []
    → Empties conn' messages served
    → Empties conn (msg ∷ messages) served
unfolding Empties
more-Empties conn conn' msg messages served e (runs, left, sent_now) = (
  runs,
  left,
  sent_now
      ∙ ap (λ sent. sent ++ map encode messages) e
      ∙ append_assoc conn.sent (encode msg ∷ []) (map encode messages),
)

-- For rounds whose number the writes that succeed suffice for.
Drains : List (List Message) → List Message → ℕ → Type 0
Drains polls all n =
    (waiting : List Message) (k : ℕ) (conn : Connection)
    → is_closed conn.last_result ≡ false
    → conn.writes ≡ replicate k true
    → length polls ≤ k
    → length (waiting ++ all) ≤ n
    → Empties conn (waiting ++ all) (serve polls conn (queue_of waiting))

round-Drains :
    (waiting : List Message) (polls : List (List Message)) (all : List Message) (n k : ℕ)
    → Drains polls all n
    → length all ≤ n
    → (conn : Connection) → is_closed conn.last_result ≡ false
    → conn.writes ≡ replicate k true
    → suc (length polls) ≤ k
    → length (waiting ++ all) ≤ suc n
    → Empties conn (waiting ++ all) (round waiting conn polls)
unfolding round Drains
round-Drains [] polls all n k ih few conn h e enough small = ih [] k conn h e (omega arith) few
round-Drains (msg ∷ rest) polls all n (suc k) ih few conn h e enough small =
    let (open_, e') = writes-open k conn msg e in
    rw open_ (
      more-Empties conn (send conn msg).0 msg (rest ++ all)
        (serve polls (send conn msg).0 (queue_of rest)) (send-sent conn msg open_)
        (ih rest k (send conn msg).0 open_ e' (omega arith) (omega arith)))
round-Drains (msg ∷ rest) polls all n zero ih few conn h e enough small = absurd (omega arith)

-- One round more, with the messages that arrive before it.
serve-Drains :
    (arrivals : List Message) (polls : List (List Message)) (all : List Message) (n m : ℕ)
    → Drains polls all n
    → ((waiting : List Message)
        → length (waiting ++ (arrivals ++ all)) ≤ m
        → (length all ≤ n) × (m ≤ suc n))
    → Drains (arrivals ∷ polls) (arrivals ++ all) m
unfolding Drains
serve-Drains arrivals polls all n m ih bounds waiting k conn h e enough small =
    let (few, step) = bounds waiting small in
    let assoc = append_assoc waiting arrivals all in
    subst (λ served. Empties conn (waiting ++ (arrivals ++ all)) served)
      (sym (serve-round arrivals waiting conn polls h))
      (subst (λ l. Empties conn l (round (waiting ++ arrivals) conn polls)) assoc
        (round-Drains (waiting ++ arrivals) polls all n k ih few conn h e enough
          (omega (arith, ap length assoc))))

quiet-Drains : (n : ℕ) → Drains (replicate n []) [] n
unfolding Drains serve Empties
quiet-Drains zero = nothing_left
  where
    nothing_left : Drains [] [] 0
    nothing_left [] k conn h e enough small = (refl, refl, sym (append-nil conn.sent))
    nothing_left (msg ∷ rest) k conn h e enough small = absurd (omega arith)
quiet-Drains (suc n) =
    serve-Drains [] (replicate n []) [] n (suc n) (quiet-Drains n)
      (λ waiting small. (omega arith, omega arith))

polls-Drains :
    (polls : List (List Message)) (n : ℕ) → Drains (polls ++ replicate n []) (all_of polls) n
unfolding all_of
polls-Drains [] n = quiet-Drains n
polls-Drains (arrivals ∷ polls) n =
    serve-Drains arrivals (polls ++ replicate n []) (all_of polls) n n (polls-Drains polls n)
      (λ waiting small. (
        omega (
          arith,
          length-append waiting (arrivals ++ all_of polls),
          length-append arrivals (all_of polls),
        ),
        omega arith,
      ))

-- If the connection is open and no write fails, then once the messages have stopped arriving, as
-- many more rounds of the loop as there were messages write every one of them to the client, in
-- order: nothing is left in the queue, and the loop is still running.
pub serve-drains :
    (polls : List (List Message)) (messages : List Message) (n k : ℕ) (conn : Connection)
    → is_closed conn.last_result ≡ false
    → conn.writes ≡ replicate k true
    → length (polls ++ replicate n []) ≤ k
    → length (messages ++ all_of polls) ≤ n
    → Empties conn
        (messages ++ all_of polls)
        (serve (polls ++ replicate n []) conn (queue_of messages))
unfolding Drains
serve-drains polls messages n k conn = polls-Drains polls n messages k conn
