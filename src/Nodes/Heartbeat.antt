-- ===== src/Nodes/Heartbeat.antt =====
-- The two threads of src/nodes/mod.rs: the handler of CAN messages and the heartbeats. Times are
-- numbers; `now` of a round is what the clock reads in it.
pub mod Schedule
use ferro_flow.Prelude.{ℕ, ◌+◌, List, [], ◌∷◌, ◌++◌, ltb, if◌then◌else◌}
use ferro_flow.Platform.{Platform}
use ferro_flow.Events.{Event, EventKind, EventDispatcher, subscribe}
use ferro_flow.Nodes.Manager.{NodeManager, Handled}
use ferro_flow.Nodes.Manager.Handlers.{handle_can_message_from_node, dispatch_heartbeat_requests}

-- What `recv_timeout` returned to the heartbeat thread.
pub data Received : Type 0 where
  shutdown other timeout disconnected : Received

-- The state and what was dispatched.
pub record Ran (w : Platform) : Type 0 where
  pub manager : NodeManager w
  pub events : List (Event w)

module _ {w : Platform} where
  -- `spawn_can_msg_handler_thread`: an error of a handler is printed, and the loop goes on.
  unfoldable pub can_msg_handler_thread : NodeManager w → List (ℕ × Event w) → Ran w
  can_msg_handler_thread m [] = record { manager = m; events = [] }
  can_msg_handler_thread m ((now, Event.shutdown) ∷ rest) = record { manager = m; events = [] }
  can_msg_handler_thread m ((now, Event.can_message_received id message) ∷ rest) =
      let h = handle_can_message_from_node m now id message in
      let r = can_msg_handler_thread h.manager rest in record r { events = h.events ++ r.events }
  can_msg_handler_thread m (_ ∷ rest) = can_msg_handler_thread m rest

-- "edge case: if next_heartbeat_at is already in the past, skip to now."
unfoldable pub next_heartbeat_at : (interval next now : ℕ) → ℕ
next_heartbeat_at interval next now = if ltb (next + interval) now then now else next + interval

module _ {w : Platform} where
  -- The loop of the heartbeat thread; `next` is `next_heartbeat_at`.
  unfoldable pub heartbeat_loop : (interval next : ℕ) → NodeManager w → List (Received × ℕ) → Ran w
  unfolding next_heartbeat_at
  heartbeat_loop interval next m [] = record { manager = m; events = [] }
  heartbeat_loop interval next m ((shutdown, now) ∷ rest) = record { manager = m; events = [] }
  heartbeat_loop interval next m ((disconnected, now) ∷ rest) = record { manager = m; events = [] }
  heartbeat_loop interval next m ((other, now) ∷ rest) = heartbeat_loop interval next m rest
  heartbeat_loop interval next m ((timeout, now) ∷ rest) =
      let h = dispatch_heartbeat_requests m (λ _. now) in
      let r = heartbeat_loop interval (next_heartbeat_at interval next now) h.manager rest in
      record r { events = h.events ++ r.events }

  -- `spawn_heartbeat_thread`: one round of requests at once, then the loop.
  unfoldable pub heartbeat_thread :
      (interval start : ℕ) → NodeManager w → List (Received × ℕ) → Ran w
  unfolding heartbeat_loop
  heartbeat_thread interval start m rounds =
      let h = dispatch_heartbeat_requests m (λ _. start) in
      let r = heartbeat_loop interval (start + interval) h.manager rounds in
      record r { events = h.events ++ r.events }

-- The listeners of the two threads.
unfoldable pub spawn_can_msg_handler_thread : {w : Platform} → EventDispatcher w → EventDispatcher w
spawn_can_msg_handler_thread dispatcher =
    subscribe dispatcher (EventKind.shutdown ∷ EventKind.can_message_received ∷ [])
      "Can message handler thread"

unfoldable pub spawn_heartbeat_thread : {w : Platform} → EventDispatcher w → EventDispatcher w
spawn_heartbeat_thread dispatcher =
    subscribe dispatcher (EventKind.shutdown ∷ []) "Heartbeat thread"
