-- ===== src/Examples/Channels.antt =====
-- Events, frames and logs on their way.
use ferro_flow.Prelude.{
  ℕ, ◌+◌, ◌*◌, ◌/◌, ◌%◌, ◌≡◌, String, Bool, true, false, List, [], ◌∷◌, ◌++◌, map, some, ok, err,
  is_empty, pos, ◌==◌, string_eq, nat_eq,
}
use ferro_flow.Platform.{Json}
use ferro_flow.Platform.Sample.{sample}
use ferro_flow.Messages.{CanMessage}
use ferro_flow.Events.{Event, EventKind, EventListener, EventDispatcher, FieldLog, dispatch_all}
use ferro_flow.Events.Delivery.{receives, dispatch_all-receives}
use ferro_flow.Can.{CanCrate, CanError, Sockets, open_sockets, spawn_can_threads}
use ferro_flow.Can.Spawning.{recv_listener, send_listener, spawn_can_threads-listeners}
use ferro_flow.Db.{Received, Worker, node_field_updated, timeout, shutdown, run, new}
use ferro_flow.Db.Batches.{held, taken, run-held}

abbrev logger : EventListener sample
logger = record {
  debug_name = "logger";
  channel = [];
  is_connected = true;
  subscribed_events = EventKind.node_field_updated ∷ EventKind.shutdown ∷ [];
}

abbrev pub dispatcher : EventDispatcher sample
dispatcher = record { listeners = logger ∷ [] }

abbrev pub log : FieldLog sample
log = record {
  timestamp = 1;
  node_id = 5;
  field_id = 3;
  field_name = "v1";
  field_value = Json.number (pos 45);
}

abbrev happened : List (Event sample)
happened = Event.pause_sequence ∷ Event.node_field_updated log ∷ Event.shutdown ∷ []

dispatch_all-receives_example :
    (dispatch_all dispatcher happened).listeners ≡ map (receives happened) dispatcher.listeners
dispatch_all-receives_example = dispatch_all-receives dispatcher happened

-- A message id is receiver * 100 + sender; the server is 1, and 0 and 63 are the broadcast and no
-- node.
abbrev pub crate : CanCrate sample
crate = record {
  ids = record { invalid = 63; broadcast = 0; server = 1 };
  encode = λ m. (0, true);
  set_id = λ id f. (id, f.1);
  set_brs = λ f. f;
  is_fd = λ f. f.1;
  raw_id = λ f. f.0;
  message_id = λ n. record { sender_id = n % 100; receiver_id = n / 100 };
  raw_message_id = λ id. id.receiver_id * 100 + id.sender_id;
  standard_id = λ n. some n;
  decode = λ f. some CanMessage.node_info_req;
}

-- From node 5 to node 6.
abbrev pub crossing : ℕ × Bool
crossing = (605, true)

abbrev rounds : List (Received sample × Bool)
rounds = (node_field_updated log, true) ∷ (timeout, false) ∷ (timeout, true) ∷ (shutdown, true) ∷ []

run-held_example :
    held (run {w = sample} new rounds) ≡ held {w = sample} new ++ taken {w = sample} new rounds
run-held_example = run-held new rounds

abbrev good_rounds : List (Received sample × Bool)
good_rounds = (node_field_updated log, true) ∷ (timeout, true) ∷ []

abbrev pub idle : Worker sample
idle = record { batch = []; written = log ∷ []; is_running = true }

-- Only "can0" can be set up.
abbrev sockets : Sockets
sockets = record {
  opens = λ i. true;
  takes_timeout = λ i. true;
  takes_own_messages = λ i. i == "can0";
}

spawn_can_threads-listeners_example :
    ((spawn_can_threads sockets dispatcher ("can0" ∷ [])).result ≡ ok tt
      → (is_empty {A = String} ("can0" ∷ []) ≡ false)
        × ((spawn_can_threads sockets dispatcher ("can0" ∷ [])).dispatcher.listeners
            ≡ dispatcher.listeners ++ (map recv_listener ("can0" ∷ []) ++ (send_listener ∷ []))))
    × ((e : CanError)
        → open_sockets sockets ("can0" ∷ []) ≡ err e
        → (spawn_can_threads sockets dispatcher ("can0" ∷ [])).dispatcher ≡ dispatcher)
spawn_can_threads-listeners_example = spawn_can_threads-listeners sockets dispatcher ("can0" ∷ [])
