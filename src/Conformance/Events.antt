-- ===== src/Conformance/Events.antt =====
-- The unit tests of src/events/mod.rs and of the insert in src/db/mod.rs. A listener receives what
-- is in its channel; the database of the second test takes the batch.
use ferro_flow.Prelude.{◌≡◌, refl, true, List, [], ◌∷◌, map, length, pos}
use ferro_flow.Platform.{Json}
use ferro_flow.Conformance.Decimal.{decimal, integer}
use ferro_flow.Events.{
  Event, EventKind, EventDispatcher, EventListener, FieldLog, subscribe, dispatch, kind_beq,
}
use ferro_flow.Events
use ferro_flow.Db.{Worker, flush_batch}

abbrev dispatcher : EventDispatcher decimal
dispatcher = Events.new

-- What each listener received.
abbrev received : EventDispatcher decimal → List (List (Event decimal))
received d = map (λ (l : EventListener decimal). l.channel) d.listeners

abbrev DispatchOnlyNotifiesSubscribedListeners : Type 0
DispatchOnlyNotifiesSubscribedListeners =
    received (
      dispatch
        (subscribe (subscribe dispatcher (EventKind.shutdown ∷ []) "shutdown-listener")
          (EventKind.can_message_received ∷ []) "can-listener")
        Event.shutdown)
    ≡ (Event.shutdown ∷ []) ∷ [] ∷ []

abbrev DispatchNotifiesAllMatchingListeners : Type 0
DispatchNotifiesAllMatchingListeners =
    received (
      dispatch
        (subscribe (subscribe dispatcher (EventKind.shutdown ∷ []) "shutdown-listener-one")
          (EventKind.shutdown ∷ []) "shutdown-listener-two")
        Event.shutdown)
    ≡ (Event.shutdown ∷ []) ∷ (Event.shutdown ∷ []) ∷ []

abbrev temperature_log : FieldLog decimal
temperature_log = record {
  timestamp = 0;
  node_id = 7;
  field_id = 11;
  field_name = "temperature";
  field_value = Json.number (integer (pos 42));
}

abbrev flushed : Worker decimal
flushed =
    let worker : Worker decimal = record {
      batch = temperature_log ∷ [];
      written = [];
      is_running = true;
    } in
    flush_batch worker true

abbrev FlushBatchInsertsLogsIntoTimescaledb : Type 0
FlushBatchInsertsLogsIntoTimescaledb = (flushed.batch ≡ []) × (length flushed.written ≡ 1)

-- The tests of the dispatcher pass.
dispatch_tests_pass : DispatchOnlyNotifiesSubscribedListeners × DispatchNotifiesAllMatchingListeners
unfolding dispatch subscribe Events.new kind_beq
dispatch_tests_pass = (refl, refl)

-- So does the one of the insert.
flush_test_passes : FlushBatchInsertsLogsIntoTimescaledb
unfolding flush_batch
flush_test_passes = (refl, refl)
