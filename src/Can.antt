-- ===== src/Can.antt =====
-- src/can/mod.rs: the threads that send and receive CAN frames. The crates behind it are the record
-- `CanCrate`; a socket is its interface's name, a write is recorded, and its error is only printed.
pub mod Spawning
use ferro_flow.Prelude.{
  ℕ, String, Bool, true, false, not, ◌&&◌, ◌||◌, List, [], ◌∷◌, ◌++◌, map, Option, none, some,
  Result, ok, err, ◌>>=◌, ◌>>◌, ensure, or_fail, is_empty, keep, all, ◌==◌, nat_eq, string_eq,
  if◌then◌else◌,
}
use ferro_flow.Prelude.Text.{append}
use ferro_flow.Platform.{Platform}
use ferro_flow.Messages.{CanMessage, CanMessageId, NodeIds}
use ferro_flow.Events.{Event, EventKind, EventDispatcher, subscribe}

pub record CanCrate (w : Platform) : Type 0 where
  pub ids : NodeIds
  pub encode : CanMessage w → w.Frame  -- `CanFdFrame::from(&message)`
  pub set_id : ℕ → w.Frame → w.Frame
  pub set_brs : w.Frame → w.Frame
  pub is_fd : w.Frame → Bool
  pub raw_id : w.Frame → ℕ  -- the standard id, or that of an extended id
  pub message_id : ℕ → CanMessageId  -- `u16` to `CanMessageId`
  pub raw_message_id : CanMessageId → ℕ
  pub standard_id : ℕ → Option ℕ  -- `StandardId::new`
  pub decode : w.Frame → Option (CanMessage w)  -- `CanMessage::try_from`

pub data CanError : Type 0 where
  no_interface : CanError
  open_failed setup_failed read_failed non_fd_frame : String → CanError
  invalid_receiver parse_failed : ℕ → CanError

-- What `socket.read_frame()` returned.
pub data ReadOutcome (w : Platform) : Type 0 where
  frame : w.Frame → ReadOutcome w
  timed_out read_error : ReadOutcome w

-- What `shutdown_rx.try_recv()` returned.
pub data Poll : Type 0 where
  shutdown other_event empty disconnected : Poll

module _ {w : Platform} (c : CanCrate w) where
  -- A message from the server to a node, on every interface; none is sent where the id does not
  -- fit.
  abbrev pub send_message : Option ℕ → CanMessage w → List String → List (String × w.Frame)
  send_message none message interfaces = []
  send_message (some can_id) message interfaces =
      map (λ (i : String). (i, c.set_brs (c.set_id can_id (c.encode message)))) interfaces

  unfoldable pub message_frame_id : ℕ → Option ℕ
  message_frame_id receiver =
      c.standard_id (c.raw_message_id (record { sender_id = c.ids.server; receiver_id = receiver }))

  -- "Don't send back to the sender"
  abbrev pub relay_frame : String → w.Frame → List String → List (String × w.Frame)
  relay_frame from f interfaces =
      map (λ (i : String). (i, f)) (keep (λ i. not (i == from)) interfaces)

  -- `can_send_thread`: the frames that it writes for the events that it receives.
  unfoldable pub can_send_thread : List String → List (Event w) → List (String × w.Frame)
  unfolding message_frame_id
  can_send_thread interfaces [] = []
  can_send_thread interfaces (Event.shutdown ∷ events) = []
  can_send_thread interfaces (Event.send_can_message receiver message ∷ events) =
      send_message (message_frame_id receiver) message interfaces
      ++ can_send_thread interfaces events
  can_send_thread interfaces (Event.relay_can_message from f ∷ events) =
      relay_frame from f interfaces ++ can_send_thread interfaces events
  can_send_thread interfaces (_ ∷ events) = can_send_thread interfaces events

  -- A frame for the server, or for all: it is parsed and dispatched as a message.
  abbrev received : CanMessageId → Option (CanMessage w) → Result CanError (List (Event w))
  received id none = err (parse_failed id.sender_id)
  received id (some message) = ok (Event.can_message_received id message ∷ [])

  -- The rest of `receive_frame`, once a frame is read.
  unfoldable pub route_frame : String → w.Frame → Result CanError (List (Event w))
  route_frame interface f = do
    ensure (c.is_fd f) (non_fd_frame interface)
    let id = c.message_id (c.raw_id f)
    ensure (not (id.receiver_id == c.ids.invalid)) (invalid_receiver (c.raw_id f))
    let for_us = id.receiver_id == c.ids.broadcast || id.receiver_id == c.ids.server
    if for_us then received id (c.decode f) else ok (Event.relay_can_message interface f ∷ [])

  unfoldable pub receive_frame : String → ReadOutcome w → Result CanError (List (Event w))
  unfolding route_frame
  receive_frame interface (frame f) = route_frame interface f
  receive_frame interface timed_out = ok []
  receive_frame interface read_error = err (read_failed interface)

  abbrev events_of : Result CanError (List (Event w)) → List (Event w)
  events_of (ok es) = es
  events_of (err e) = []

  -- `can_recv_thread`, over the outcomes of its rounds: an error is printed and the loop goes on.
  unfoldable pub can_recv_thread : String → List (Poll × ReadOutcome w) → List (Event w)
  unfolding receive_frame
  can_recv_thread interface [] = []
  can_recv_thread interface ((shutdown, r) ∷ rounds) = []
  can_recv_thread interface ((disconnected, r) ∷ rounds) = []
  can_recv_thread interface ((empty, r) ∷ rounds) =
      events_of (receive_frame interface r) ++ can_recv_thread interface rounds
  can_recv_thread interface ((other_event, r) ∷ rounds) =
      events_of (receive_frame interface r) ++ can_recv_thread interface rounds

-- Which interfaces' sockets open, take the read timeout, and take `set_recv_own_msgs`.
pub record Sockets : Type 0 where
  pub opens : String → Bool
  pub takes_timeout : String → Bool
  pub takes_own_messages : String → Bool

unfoldable pub open_sockets : Sockets → List String → Result CanError (Unit {0})
open_sockets sockets [] = ok tt
open_sockets sockets (i ∷ is) = do
  ensure (sockets.opens i) (open_failed i)
  ensure (sockets.takes_timeout i) (setup_failed i)
  open_sockets sockets is

-- The dispatcher after the call, and the call's result.
pub record Spawned (w : Platform) : Type 0 where
  pub dispatcher : EventDispatcher w
  pub result : Result CanError (Unit {0})

module _ {w : Platform} where
  abbrev pub subscribe_recv : EventDispatcher w → String → EventDispatcher w
  subscribe_recv dispatcher i =
      subscribe dispatcher (EventKind.shutdown ∷ []) (append "CAN recv thread (" (append i ")"))

  abbrev pub subscribe_send : EventDispatcher w → EventDispatcher w
  subscribe_send dispatcher =
      subscribe dispatcher
        (EventKind.send_can_message ∷ EventKind.relay_can_message ∷ EventKind.shutdown ∷ [])
        "CAN send thread"

  -- The loop over the open sockets, and what comes behind it. A subscription made before an error
  -- stays.
  unfoldable pub subscribe_threads : Sockets → EventDispatcher w → List String → Spawned w
  subscribe_threads sockets dispatcher [] = record {
    dispatcher = subscribe_send dispatcher;
    result = ok tt;
  }
  subscribe_threads sockets dispatcher (i ∷ is) =
      let rest = subscribe_threads sockets (subscribe_recv dispatcher i) is in
      if sockets.takes_own_messages i
      then rest
      else record { dispatcher = dispatcher; result = err (setup_failed i) }

  abbrev pub when_open : Result CanError (Unit {0}) → EventDispatcher w → Spawned w → Spawned w
  when_open (ok u) dispatcher spawned = spawned
  when_open (err e) dispatcher spawned = record { dispatcher = dispatcher; result = err e }

  -- `spawn_can_threads`, as far as the dispatcher goes.
  unfoldable pub spawn_can_threads : Sockets → EventDispatcher w → List String → Spawned w
  unfolding subscribe_threads open_sockets
  spawn_can_threads sockets dispatcher interfaces =
      when_open (ensure (not (is_empty interfaces)) no_interface >> open_sockets sockets interfaces)
        dispatcher (subscribe_threads sockets dispatcher interfaces)
