-- ===== src/Server/Steps.antt =====
-- The threads of the program at work. A step is one action of one thread, with what it dispatches;
-- a run is any list of actions. An action of a thread that is not there, or that has nothing to do,
-- does nothing.
use ferro_flow.Prelude.{ℕ, String, Bool, not, List, [], ◌∷◌, ◌++◌, ◌==◌, string_eq, if◌then◌else◌}
use ferro_flow.Platform.{Platform, Json}
use ferro_flow.Events.{Event, dispatch_all}
use ferro_flow.Nodes.Command.{set_value}
use ferro_flow.Nodes.Manager.{start_node_registration}
use ferro_flow.Nodes.Heartbeat.{
  can_msg_handler_thread, spawn_can_msg_handler_thread, spawn_heartbeat_thread,
}
use ferro_flow.Can.{CanCrate, Sockets, ReadOutcome, spawn_can_threads, can_send_thread}
use ferro_flow.Db.{spawn_logging_worker}
use ferro_flow.Server.Queues.{take}
use ferro_flow.Server.{
  Config, Phase, Server, has_sender, has_runner, has_handler, has_heartbeat, sender_name,
  handler_name,
}
use ferro_flow.Server.Turns.{
  sequence_end, has_sequence, quiet, on_event, after_can, after_logger, runner_turn, runner_start,
  requests_of, logger_turn, logger_timeout, ran, Moved, heartbeat_turn, receiver_turn,
}

-- A thread's action: `main_thread` is its next call, a `_receives` is a `recv` with what is done
-- with the event. A running sequence may set any name to any value, and the outside, which holds
-- the dispatcher, may dispatch anything: what a schedule sets is a special case.
pub data Action (w : Platform) : Type 0 where
  main_thread runner_subscribes runner_receives sequence_ends sender_receives : Action w
  sequence_sets : String → Json w.Number w.JsonRest → Action w
  handler_receives heartbeat_due : (now : ℕ) → Action w
  logger_receives logger_times_out : (succeeds : Bool) → Action w
  interface_receives : String → ReadOutcome w → Action w
  outside : Event w → Action w

module _ {w : Platform} (c : CanCrate w) (sockets : Sockets) (connects : Bool)
    (config : Config) where
  -- The next call of the closure in `run_with_dependencies`.
  unfoldable pub advance : Phase → Server w → Moved w
  advance Phase.spawning_can s =
      let spawned = spawn_can_threads sockets s.dispatcher config.can_bus_interfaces in
      quiet (after_can s spawned.dispatcher spawned.result)
  advance Phase.spawning_runner s = quiet (record s { phase = Phase.spawning_logger })
  advance Phase.spawning_logger s = quiet (
      if not (config.database_url == "")
      then after_logger s (spawn_logging_worker connects s.dispatcher)
      else record s { phase = Phase.spawning_handler })
  advance Phase.spawning_handler s = quiet (record s {
    dispatcher = spawn_can_msg_handler_thread s.dispatcher;
    phase = Phase.spawning_heartbeat;
  })
  advance Phase.spawning_heartbeat s =
      quiet
        (record s { dispatcher = spawn_heartbeat_thread s.dispatcher; phase = Phase.registering })
  advance Phase.registering s = record {
    server = record s { phase = Phase.started };
    events = start_node_registration c.ids;
  }
  advance Phase.started s = quiet s
  advance Phase.can_failed s = quiet s
  advance Phase.logger_failed s = quiet s

  unfoldable pub act : Action w → Server w → Moved w
  unfolding advance
  act main_thread s = advance s.phase s
  act runner_subscribes s = if has_runner s.phase then runner_start s.runner s else quiet s
  act runner_receives s = runner_turn s.runner s
  act sequence_ends s = quiet (record s { runner = sequence_end s.runner })
  act (sequence_sets name value) s = record {
    server = s;
    events = if has_sequence s.runner then requests_of (set_value w s.manager name value) else [];
  }
  act (handler_receives now) s =
      if has_handler s.phase
      then on_event handler_name (take handler_name s.dispatcher.listeners) s
          (λ e s'. ran s' (can_msg_handler_thread s'.manager ((now, e) ∷ [])))
      else quiet s
  act (heartbeat_due now) s = if has_heartbeat s.phase then heartbeat_turn now s else quiet s
  act sender_receives s =
      if has_sender s.phase
      then on_event sender_name (take sender_name s.dispatcher.listeners) s (λ e s'.
        quiet (record s' {
          frames = s'.frames ++ can_send_thread c config.can_bus_interfaces (e ∷ []);
        }))
      else quiet s
  act (logger_receives succeeds) s = logger_turn s.worker succeeds s
  act (logger_times_out succeeds) s = logger_timeout s.worker succeeds s
  act (interface_receives i outcome) s = receiver_turn c i outcome s
  act (outside e) s = record { server = s; events = e ∷ [] }

  abbrev pub deliver : Moved w → Server w
  deliver m = record m.server { dispatcher = dispatch_all m.server.dispatcher m.events }

  unfoldable pub step : Action w → Server w → Server w
  unfolding act
  step a s = deliver (act a s)

  unfoldable pub run : List (Action w) → Server w → Server w
  unfolding step
  run [] s = s
  run (a ∷ actions) s = run actions (step a s)

  -- All that the threads dispatch in a run, in its order.
  unfoldable pub dispatched : List (Action w) → Server w → List (Event w)
  unfolding step
  dispatched [] s = []
  dispatched (a ∷ actions) s = (act a s).events ++ dispatched actions (step a s)
