-- ===== src/Examples/Servers.antt =====
-- The whole program: its start, and its threads at work.
use ferro_flow.Prelude.{
  ◌≡◌, refl, true, false, List, [], ◌∷◌, ◌++◌, some, none, String, arith, string_eq,
}
use ferro_flow.Platform.Sample.{sample}
use ferro_flow.Events.{Event, EventKind, EventListener}
use ferro_flow.Nodes.Manager
use ferro_flow.Can.{Sockets}
use ferro_flow.Server.{
  Config, Phase, Server, new, logger_name, sender_name, handler_name, heartbeat_name,
}
use ferro_flow.Server.Queues.{Listening, here, there, queue}
use ferro_flow.Db.{round, flush_batch}
use ferro_flow.Events.{subscribe, dispatch_all, dispatch, notify, contains_kind, kind_of, kind_beq}
use ferro_flow.Sequence.Runner.Control.{subscribe_runner}
use ferro_flow.Can.{can_send_thread}
use ferro_flow.Nodes.Heartbeat.{can_msg_handler_thread}
use ferro_flow.Nodes.Manager.Handlers.{dispatch_heartbeat_requests, heartbeat_requests}
use ferro_flow.Server.Queues.{take}
use ferro_flow.Server.Steps.{
  advance, act, step, Action, main_thread, runner_subscribes, sender_receives, handler_receives,
  logger_receives, outside, heartbeat_due, run, dispatched,
}
use ferro_flow.Server.Logs.{held_by, logs_of, logger_kinds, is_logging, run-logs}
use ferro_flow.Server.Frames.{written_for, sender_kinds, run-frames}
use ferro_flow.Server.Startup.{run-idle}
use ferro_flow.Server.Posts.{IsPosted}
use ferro_flow.Server.Listeners.{handler_kinds, heartbeat_kinds}
use ferro_flow.Server.Registering.{IsRequested}
use ferro_flow.Server.Launch.{run-started}
use ferro_flow.Examples.Mappings.{stand}
use ferro_flow.Examples.Nodes.{from_ecu, announcement, registration}
use ferro_flow.Examples.Channels.{log, crate, crossing, idle}

abbrev config : Config
config = record {
  can_bus_interfaces = "can0" ∷ "can1" ∷ [];
  heartbeat_period = 1;
  database_url = "postgres://localhost";
  mapping_path = "";
}

abbrev sockets : Sockets
sockets = record { opens = λ i. true; takes_timeout = λ i. true; takes_own_messages = λ i. true }

-- The same interfaces, and no database.
abbrev plain : Config
plain = record config { database_url = "" }

abbrev listener : String → List EventKind → EventListener sample
listener name kinds = record {
  debug_name = name;
  channel = [];
  is_connected = true;
  subscribed_events = kinds;
}

-- A server at work, with the database; the sequence runner has not subscribed yet.
abbrev at_work : Server sample
at_work = record (new stand) {
  phase = Phase.started;
  dispatcher = record {
    listeners =
        listener sender_name sender_kinds
        ∷ listener logger_name logger_kinds
        ∷ listener handler_name (EventKind.shutdown ∷ EventKind.can_message_received ∷ [])
        ∷ [];
  };
  worker = some idle;
}

abbrev sends : Listening sender_name sender_kinds at_work.dispatcher.listeners
sends = here (listener sender_name sender_kinds) refl refl refl

abbrev logs : Listening logger_name logger_kinds at_work.dispatcher.listeners
logs =
    there (listener sender_name sender_kinds) refl
      (here (listener logger_name logger_kinds) refl refl refl)

-- A report and a frame to relay come in while the runner subscribes; then the threads act.
abbrev busy : List (Action sample)
busy =
    outside (Event.node_field_updated log)
    ∷ outside (Event.relay_can_message "can0" crossing)
    ∷ runner_subscribes
    ∷ sender_receives
    ∷ heartbeat_due 7
    ∷ logger_receives true
    ∷ outside (Event.node_field_updated log)
    ∷ []

-- The logger and the send thread end with a shutdown, and what comes later is lost.
abbrev ending : List (Action sample)
ending =
    busy
    ++ (outside Event.shutdown
        ∷ logger_receives true
        ∷ logger_receives false
        ∷ sender_receives
        ∷ outside (Event.node_field_updated log)
        ∷ outside (Event.relay_can_message "can0" crossing)
        ∷ [])

busy-runs : is_logging (run crate sockets true config busy at_work).worker ≡ true
unfolding run step act advance take subscribe_runner dispatch_all dispatch notify contains_kind
    kind_of kind_beq dispatch_heartbeat_requests heartbeat_requests can_send_thread
    can_msg_handler_thread round flush_batch new Manager.new subscribe
busy-runs = refl

run-logs_example :
    (let s' = run crate sockets true config busy at_work in
      held_by s'.worker ++ logs_of (queue logger_name s'.dispatcher.listeners)
      ≡ (held_by at_work.worker ++ logs_of (queue logger_name at_work.dispatcher.listeners))
        ++ logs_of (dispatched crate sockets true config busy at_work))
run-logs_example = run-logs crate sockets true config busy at_work refl logs busy-runs

run-frames_example :
    (let s' = run crate sockets true config ending at_work in
      s'.frames ++ written_for crate config (queue sender_name s'.dispatcher.listeners)
      ≡ at_work.frames
        ++ written_for crate config (
            queue sender_name at_work.dispatcher.listeners
            ++ dispatched crate sockets true config ending at_work))
run-frames_example = run-frames crate sockets true config ending at_work refl sends

-- The threads start, and node 5 registers.
abbrev six_turns : List (Action sample)
six_turns = main_thread ∷ main_thread ∷ main_thread ∷ main_thread ∷ main_thread ∷ main_thread ∷ []

abbrev registers : List (Action sample)
registers =
    six_turns
    ++ (outside (Event.can_message_received from_ecu announcement)
        ∷ outside (Event.can_message_received from_ecu registration)
        ∷ handler_receives 1
        ∷ handler_receives 2
        ∷ heartbeat_due 3
        ∷ [])

run-started_example :
    let s = run crate sockets true plain registers (new stand) in
    (s.phase ≡ Phase.started)
    × IsPosted sender_name sender_kinds s.dispatcher.listeners
    × IsPosted handler_name handler_kinds s.dispatcher.listeners
    × IsPosted heartbeat_name heartbeat_kinds s.dispatcher.listeners
    × IsRequested crate.ids (dispatched crate sockets true plain registers (new stand))
run-started_example =
    run-started crate sockets true plain stand registers refl refl refl (omega arith)

run-idle_example :
    (let s = run crate sockets false config registers (new stand) in
      (s.manager ≡ Manager.new stand) × (s.worker ≡ none))
run-idle_example = run-idle crate sockets config stand registers refl
