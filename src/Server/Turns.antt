-- ===== src/Server/Turns.antt =====
-- What a thread does with its next event, and what the calls of the main thread leave: the parts of
-- the threads' actions. A thread ends with the first shutdown that it meets, and drops its
-- receiver.
use ferro_flow.Prelude.{
  ℕ, String, not, ◌||◌, ◌∷◌, Bool, true, false, ◌&&◌, List, [], Option, none, some, Result, ok, err,
  is_empty, string_eq, if◌then◌else◌,
}
use ferro_flow.Platform.{Platform}
use ferro_flow.Events.{Event, EventDispatcher, EventListener}
use ferro_flow.Nodes.Values.{AccessError}
use ferro_flow.Nodes.Manager.{Handled}
use ferro_flow.Nodes.Heartbeat.{Ran}
use ferro_flow.Sequence.Runner.Control
use ferro_flow.Sequence.Runner.Control.{
  SequenceRunner, finish, subscribe_runner, handle_event, is_sequence_running,
}
use ferro_flow.Nodes.Manager.Handlers.{dispatch_heartbeat_requests}
use ferro_flow.Can.{CanError, CanCrate, ReadOutcome, empty, can_recv_thread}
use ferro_flow.Db
use ferro_flow.Db.{Worker, Received, DbError, spawn_logging_worker, round}
use ferro_flow.Server.Queues.{queue, take, close, left_by, listens}
use ferro_flow.Server.{
  Phase, RunnerThread, not_subscribed, running, stopped, Server, runner_name, logger_name,
  heartbeat_name, receiver_name,
}

-- The state after an action, before its events are dispatched.
pub record Moved (w : Platform) : Type 0 where
  pub server : Server w
  pub events : List (Event w)

module _ {F : Type 0} where
  -- The thread of a sequence ends, whether the runner's own has ended or not.
  abbrev pub sequence_end : RunnerThread F → RunnerThread F
  sequence_end not_subscribed = not_subscribed
  sequence_end (running r) =
      running (record { last_sequence_handle = finish r.last_sequence_handle })
  sequence_end (stopped r) =
      stopped (record { last_sequence_handle = finish r.last_sequence_handle })

  abbrev pub has_sequence : RunnerThread F → Bool
  has_sequence not_subscribed = false
  has_sequence (running r) = is_sequence_running r
  has_sequence (stopped r) = is_sequence_running r

module _ {w : Platform} where
  abbrev pub quiet : Server w → Moved w
  quiet s = record { server = s; events = [] }

  abbrev pub with_listeners : Server w → List (EventListener w) → Server w
  with_listeners s ls = record s { dispatcher = record { listeners = ls } }

  -- What a thread does with its next event, if there is one; a shutdown ends it.
  abbrev pub on_event :
      String
      → Option (Event w × List (EventListener w))
      → Server w
      → (Event w → Server w → Moved w)
      → Moved w
  on_event name none s f = quiet s
  on_event name (some (Event.shutdown, ls)) s f =
      quiet (with_listeners s (close name s.dispatcher.listeners))
  on_event name (some (e, ls)) s f = f e (with_listeners s ls)

  -- The same for a thread that does something with the shutdown, too.
  abbrev pub on_any_event :
      String
      → Option (Event w × List (EventListener w))
      → Server w
      → (Event w → Server w → Moved w)
      → Moved w
  on_any_event name none s f = quiet s
  on_any_event name (some (e, ls)) s f = f e (with_listeners s (left_by name e ls))

  abbrev pub after_can : Server w → EventDispatcher w → Result CanError (Unit {0}) → Server w
  after_can s d (ok u) = record s { dispatcher = d; phase = Phase.spawning_runner }
  after_can s d (err e) = record s { dispatcher = d; phase = Phase.can_failed }

  abbrev pub after_logger : Server w → Result DbError (EventDispatcher w) → Server w
  after_logger s (ok d) = record s {
    dispatcher = d;
    worker = some Db.new;
    phase = Phase.spawning_handler;
  }
  after_logger s (err e) = record s { phase = Phase.logger_failed }

  abbrev pub received_log : Event w → Received w
  received_log (Event.node_field_updated log) = Received.node_field_updated log
  received_log Event.shutdown = Received.shutdown
  received_log _ = Received.other

  abbrev pub after_command : SequenceRunner w.F64 → Event w → RunnerThread w.F64
  after_command r Event.shutdown = stopped (handle_event {w = w} r Event.shutdown)
  after_command r e = running (handle_event {w = w} r e)

  abbrev pub runner_turn : RunnerThread w.F64 → Server w → Moved w
  runner_turn not_subscribed s = quiet s
  runner_turn (stopped r) s = quiet s
  runner_turn (running r) s =
      on_any_event runner_name (take runner_name s.dispatcher.listeners) s
        λ e s'. quiet (record s' { runner = after_command r e })

  abbrev pub runner_start : RunnerThread w.F64 → Server w → Moved w
  runner_start not_subscribed s =
      quiet (record s { dispatcher = subscribe_runner s.dispatcher; runner = running Control.new })
  runner_start (running r) s = quiet s
  runner_start (stopped r) s = quiet s

  abbrev pub requests_of : Result AccessError (List (Event w)) → List (Event w)
  requests_of (ok es) = es
  requests_of (err e) = []

  -- The worker when its thread has ended is without the batch: what is in it is lost.
  abbrev pub ended : Worker w → Worker w
  ended k = record k { batch = if k.is_running then k.batch else [] }

  abbrev pub logged : Server w → Worker w → Received w → Bool → Moved w
  logged s k r succeeds = quiet (record s { worker = some (ended (round k r succeeds)) })

  abbrev pub logger_turn : Option (Worker w) → Bool → Server w → Moved w
  logger_turn none succeeds s = quiet s
  logger_turn (some k) succeeds s =
      if k.is_running
      then on_any_event logger_name (take logger_name s.dispatcher.listeners) s
          (λ e s'. logged s' k (received_log e) succeeds)
      else quiet s

  abbrev pub logger_timeout : Option (Worker w) → Bool → Server w → Moved w
  logger_timeout none succeeds s = quiet s
  logger_timeout (some k) succeeds s =
      if k.is_running && is_empty (queue logger_name s.dispatcher.listeners)
      then logged s k Received.timeout succeeds
      else quiet s

  abbrev pub ran : Server w → Ran w → Moved w
  ran s r = record { server = record s { manager = r.manager }; events = r.events }

  abbrev pub handled : Server w → Handled w → Moved w
  handled s h = record {
    server = record s { manager = h.manager; has_beaten = true };
    events = h.events;
  }

  -- One round of the heartbeat thread: the first comes before it looks for a shutdown.
  abbrev pub heartbeat_turn : ℕ → Server w → Moved w
  heartbeat_turn now s =
      if not s.has_beaten
        || (listens heartbeat_name s.dispatcher.listeners
            && is_empty (queue heartbeat_name s.dispatcher.listeners))
      then handled s (dispatch_heartbeat_requests s.manager (λ _. now))
      else quiet (with_listeners s (close heartbeat_name s.dispatcher.listeners))

  -- One round of the thread of an interface: it looks for a shutdown, then reads.
  abbrev pub receiver_turn : CanCrate w → String → ReadOutcome w → Server w → Moved w
  receiver_turn c i outcome s =
      let name = receiver_name i in
      if listens name s.dispatcher.listeners && is_empty (queue name s.dispatcher.listeners)
      then record { server = s; events = can_recv_thread c i ((empty, outcome) ∷ []) }
      else quiet (with_listeners s (close name s.dispatcher.listeners))
