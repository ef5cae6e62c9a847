-- ===== src/Nodes/Heartbeat/Schedule.antt =====
-- The requests of src/nodes/mod.rs's heartbeat thread over its rounds.
use ferro_flow.Prelude.{
  ℕ, suc, ◌+◌, ◌%◌, ◌^◌, ◌≡◌, refl, ap, ◌∙◌, List, [], ◌∷◌, ◌++◌, none, some, length, map, keep,
  ◌==◌, nat_eq, arith, Bool-cases, inl, inr, if◌then◌else◌,
}
use ferro_flow.Platform.{Platform}
use ferro_flow.Messages.{CanMessage}
use ferro_flow.Events.{Event}
use ferro_flow.Nodes.CanNode.{CanNode}
use ferro_flow.Nodes.Manager.{NodeManager}
use ferro_flow.Nodes.Manager.Handlers.{
  next_heartbeat, heartbeat_requests, dispatch_heartbeat_requests,
}
use ferro_flow.Nodes.Heartbeat.{
  Received, timeout, heartbeat_loop, heartbeat_thread, next_heartbeat_at,
}

-- The entries of the map for a node.
abbrev pub entries : {A : Type 0} → ℕ → List (ℕ × A) → List (ℕ × A)
entries id nodes = keep (λ n. n.0 == id) nodes

-- `n` counters from `start` on.
abbrev pub counters : (start n : ℕ) → List ℕ
counters start ℕ.zero = []
counters start (suc n) = start % 2 ^ 32 ∷ counters (start + 1) n

module _ {w : Platform} where
  -- The counters of the heartbeat requests to a node, in their order.
  abbrev pub sent_to : ℕ → List (Event w) → List ℕ
  sent_to id [] = []
  sent_to id (Event.send_can_message j (CanMessage.heartbeat_req counter) ∷ es) =
      if j == id then counter ∷ sent_to id es else sent_to id es
  sent_to id (_ ∷ es) = sent_to id es

module _ (w : Platform) where
  abbrev sent_in : (ℕ → ℕ) → ℕ → List (ℕ × CanNode w.F32) → List ℕ
  sent_in now id nodes = sent_to id (heartbeat_requests {w = w} now nodes).1

  -- Of a round's requests, those to a node come from its entries.
  sent_to-round :
      (now : ℕ → ℕ) (id : ℕ) (nodes : List (ℕ × CanNode w.F32)) (es : List (Event w))
      → sent_to id ((heartbeat_requests {w = w} now nodes).1 ++ es)
        ≡ sent_in now id (entries id nodes) ++ sent_to id es
  unfolding heartbeat_requests
  sent_to-round now id [] es = refl
  sent_to-round now id ((j, node) ∷ rest) es = elim (Bool-cases (j == id)) [
    | inl e ↦
        rw (e, e)
          (ap (◌∷◌ (next_heartbeat node.latest_heartbeat_sent)) (sent_to-round now id rest es))
    | inr e ↦ rw e (sent_to-round now id rest es)
  ]

  entries-round :
      (now : ℕ → ℕ) (id : ℕ) (nodes : List (ℕ × CanNode w.F32))
      → entries id (heartbeat_requests {w = w} now nodes).0
        ≡ (heartbeat_requests {w = w} now (entries id nodes)).0
  unfolding heartbeat_requests
  entries-round now id [] = refl
  entries-round now id ((j, node) ∷ rest) = elim (Bool-cases (j == id)) [
    | inl e ↦ rw e (
        ap
          (◌∷◌ (
            j,
            record node {
              latest_heartbeat_sent = some (now j, next_heartbeat node.latest_heartbeat_sent);
            },
          ))
          (entries-round now id rest))
    | inr e ↦ rw e (entries-round now id rest)
  ]

  -- The counter of a node's next request.
  abbrev IsNext : ℕ → ℕ → NodeManager w → Type 0
  IsNext id c m =
      (node : CanNode w.F32) × (entries id m.can_nodes ≡ (id, node) ∷ [])
      × (next_heartbeat node.latest_heartbeat_sent ≡ c % 2 ^ 32)

  round-IsNext :
      (now : ℕ → ℕ) (id c : ℕ) (m : NodeManager w)
      → IsNext id c m
      → IsNext id (c + 1) (dispatch_heartbeat_requests m now).manager
  unfolding dispatch_heartbeat_requests heartbeat_requests next_heartbeat
  round-IsNext now id c m (node, e, n) = (
    record node {
      latest_heartbeat_sent = some (now id, next_heartbeat node.latest_heartbeat_sent);
    },
    entries-round now id m.can_nodes ∙ ap (λ l. (heartbeat_requests {w = w} now l).0) e,
    ap (λ k. (k + 1) % 2 ^ 32) n ∙ omega arith,
  )

  round-sent :
      (now : ℕ → ℕ) (id c : ℕ) (m : NodeManager w) (es : List (Event w))
      → IsNext id c m
      → sent_to id ((dispatch_heartbeat_requests m now).events ++ es) ≡ c % 2 ^ 32 ∷ sent_to id es
  unfolding dispatch_heartbeat_requests heartbeat_requests
  round-sent now id c m es (node, e, n) =
      sent_to-round now id m.can_nodes es ∙ ap (λ l. sent_in now id l ++ sent_to id es) e ∙ one
    where
      one : sent_in now id ((id, node) ∷ []) ++ sent_to id es ≡ c % 2 ^ 32 ∷ sent_to id es
      one = rw ((nat_eq.same_iff id id).1 refl, n) refl

-- The rounds in which the thread woke up because a heartbeat was due, at these readings of the
-- clock.
abbrev pub timeouts : List ℕ → List (Received × ℕ)
timeouts clock = map (λ now. (timeout, now)) clock

loop-counters :
    {w : Platform} (interval next id c : ℕ) (m : NodeManager w) (clock : List ℕ)
    → IsNext w id c m
    → sent_to id (heartbeat_loop interval next m (timeouts clock)).events
      ≡ counters c (length clock)
unfolding heartbeat_loop
loop-counters interval next id c m [] h = refl
loop-counters interval next id c m (now ∷ clock) h =
    round-sent _ (λ _. now) id c m _ h
    ∙ ap (◌∷◌ (c % 2 ^ 32)) (
        loop-counters interval (next_heartbeat_at interval next now) id (c + 1) _ clock
          (round-IsNext _ (λ _. now) id c m h))

-- Let the map have one entry for a node, to which nothing was sent yet. The thread dispatches one
-- heartbeat request to that node at its start and one in each further round, and their counters
-- are 0, 1, 2 and so on, modulo 2 ^ 32, whatever the clock reads and whichever other nodes there
-- are.
pub heartbeat_thread-counters :
    {w : Platform} (interval begin id : ℕ) (m : NodeManager w) (node : CanNode w.F32)
    (clock : List ℕ)
    → entries id m.can_nodes ≡ (id, node) ∷ []
    → node.latest_heartbeat_sent ≡ none
    → sent_to id (heartbeat_thread interval begin m (timeouts clock)).events
      ≡ counters 0 (suc (length clock))
unfolding heartbeat_thread next_heartbeat
heartbeat_thread-counters interval begin id m node clock e fresh =
    let first : IsNext _ id 0 m = (node, e, ap next_heartbeat fresh) in
    round-sent _ (λ _. begin) id 0 m _ first
    ∙ ap (◌∷◌ 0) (
        loop-counters interval (begin + interval) id 1 _ clock
          (round-IsNext _ (λ _. begin) id 0 m first))
