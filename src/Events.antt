-- ===== src/Events.antt =====
-- src/events/mod.rs: the events, and the dispatcher that hands them to the threads. A listener's
-- channel is the list of what was sent into it; a send fails if the receiver is gone.
mod Kinds
pub mod Delivery
pub use Kinds.{EventKind, kind_beq_iff}
unfoldable pub use Kinds.{kind_beq}
use Kinds
use ferro_flow.Prelude.{
  ℕ, String, Bool, true, false, ◌&&◌, List, [], ◌∷◌, ◌++◌, map, ◌||◌, if◌then◌else◌,
}
use ferro_flow.Platform.{Platform, Json}
use ferro_flow.Messages.{CanMessage, CanMessageId}
use ferro_flow.Sequence.{Sequence}

-- `FieldLog` of src/db/models.rs.
pub record FieldLog (w : Platform) : Type 0 where
  pub timestamp : ℕ
  pub node_id : ℕ
  pub field_id : ℕ
  pub field_name : String
  pub field_value : Json w.Number w.JsonRest

pub data Event (w : Platform) : Type 0 where
  can_message_received : CanMessageId → CanMessage w → Event w
  node_field_updated : FieldLog w → Event w
  shutdown : Event w
  send_can_message : ℕ → CanMessage w → Event w
  relay_can_message : String → w.Frame → Event w
  start_sequence : Sequence w.F64 → Sequence w.F64 → Event w
  pause_sequence resume_sequence abort_sequence : Event w

module _ {w : Platform} where
  -- `EventKind::from`
  unfoldable pub kind_of : Event w → EventKind
  kind_of (can_message_received id m) = EventKind.can_message_received
  kind_of (node_field_updated log) = EventKind.node_field_updated
  kind_of shutdown = EventKind.shutdown
  kind_of (send_can_message id m) = EventKind.send_can_message
  kind_of (relay_can_message from f) = EventKind.relay_can_message
  kind_of (start_sequence s a) = EventKind.sequence
  kind_of pause_sequence = EventKind.sequence
  kind_of resume_sequence = EventKind.sequence
  kind_of abort_sequence = EventKind.sequence

pub record EventListener (w : Platform) : Type 0 where
  pub debug_name : String
  pub channel : List (Event w)
  pub is_connected : Bool
  pub subscribed_events : List EventKind

pub record EventDispatcher (w : Platform) : Type 0 where
  pub listeners : List (EventListener w)

unfoldable pub contains_kind : List EventKind → EventKind → Bool
contains_kind [] k = false
contains_kind (j ∷ ks) k = kind_beq j k || contains_kind ks k

module _ {w : Platform} where
  unfoldable pub new : EventDispatcher w
  new = record { listeners = [] }

  unfoldable pub subscribe : EventDispatcher w → List EventKind → String → EventDispatcher w
  subscribe dispatcher events name = record {
    listeners =
        dispatcher.listeners
        ++ (record {
          debug_name = name;
          channel = [];
          is_connected = true;
          subscribed_events = events;
        }
            ∷ []);
  }

  -- The body of the loop of `dispatch`; what could not be sent is only printed.
  unfoldable pub notify : Event w → EventListener w → EventListener w
  unfolding contains_kind kind_of
  notify event listener =
      if contains_kind listener.subscribed_events (kind_of event) && listener.is_connected
      then record listener { channel = listener.channel ++ (event ∷ []) }
      else listener

  unfoldable pub dispatch : EventDispatcher w → Event w → EventDispatcher w
  unfolding notify
  dispatch dispatcher event = record { listeners = map (notify event) dispatcher.listeners }

  -- Events dispatched one after the other.
  unfoldable pub dispatch_all : EventDispatcher w → List (Event w) → EventDispatcher w
  unfolding dispatch
  dispatch_all dispatcher [] = dispatcher
  dispatch_all dispatcher (e ∷ es) = dispatch_all (dispatch dispatcher e) es
