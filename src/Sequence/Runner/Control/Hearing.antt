-- ===== src/Sequence/Runner/Control/Hearing.antt =====
-- From the dispatcher (src/events/mod.rs) to the thread of a sequence: the runner's listener and
-- its loop (src/sequence/mod.rs).
use ferro_flow.Prelude.{◌≡◌, refl, ap, ◌∙◌, true, List, [], ◌∷◌, ◌++◌, map, map-append, keep}
use ferro_flow.Platform.{Platform}
use ferro_flow.Events.{
  Event, EventKind, EventListener, EventDispatcher, kind_of, kind_beq, contains_kind, subscribe,
  dispatch_all,
}
use ferro_flow.Events.Delivery.{wants, receives, dispatch_all-receives}
use ferro_flow.Sequence.{Sequence}
use ferro_flow.Sequence.Runner.{SequenceCmd, pause, resume, abort}
use ferro_flow.Sequence.Runner.Control.{Input, subscribe_runner, sequence_runner_thread}
use ferro_flow.Sequence.Runner.Control.Exclusion.{
  commands_of, running, sequence_runner_thread-commands,
}

module _ {w : Platform} where
  abbrev pub runner_listener : EventListener w
  runner_listener = record {
    debug_name = "Sequence Runner thread";
    channel = [];
    is_connected = true;
    subscribed_events = EventKind.sequence ∷ EventKind.shutdown ∷ [];
  }

  -- The events that the runner does not subscribe to stand for no command.
  pub commands_of-keep :
      (events : List (Event w))
      → commands_of (keep (wants runner_listener) events) ≡ commands_of events
  unfolding contains_kind kind_of kind_beq
  commands_of-keep [] = refl
  commands_of-keep (Event.shutdown ∷ rest) = refl
  commands_of-keep (Event.pause_sequence ∷ rest) = ap (◌∷◌ pause) (commands_of-keep rest)
  commands_of-keep (Event.resume_sequence ∷ rest) = ap (◌∷◌ resume) (commands_of-keep rest)
  commands_of-keep (Event.abort_sequence ∷ rest) = ap (◌∷◌ abort) (commands_of-keep rest)
  commands_of-keep (Event.start_sequence s a ∷ rest) = commands_of-keep rest
  commands_of-keep (Event.can_message_received i m ∷ rest) = commands_of-keep rest
  commands_of-keep (Event.node_field_updated l ∷ rest) = commands_of-keep rest
  commands_of-keep (Event.send_can_message i m ∷ rest) = commands_of-keep rest
  commands_of-keep (Event.relay_can_message f x ∷ rest) = commands_of-keep rest

  -- What the listeners have received, that of the runner being the last one.
  pub dispatch_all-runner :
      (dispatcher : EventDispatcher w) (events : List (Event w))
      → (dispatch_all (subscribe_runner dispatcher) events).listeners
        ≡ map (receives events) dispatcher.listeners ++ (receives events runner_listener ∷ [])
  unfolding subscribe_runner subscribe
  dispatch_all-runner dispatcher events =
      dispatch_all-receives (subscribe_runner dispatcher) events
      ∙ map-append (receives events) dispatcher.listeners (runner_listener ∷ [])

  -- Whatever events are dispatched after the runner has subscribed, behind the other listeners: if
  -- a sequence's thread runs and does not finish, the runner's loop over what its listener received
  -- keeps the thread, and sends it exactly the commands that the dispatched events stand for, in
  -- their order and up to the first shutdown, while every other listener receives what it would
  -- without the runner.
  pub dispatch_all-commands :
      (dispatcher : EventDispatcher w) (events : List (Event w)) (seq abort_seq : Sequence w.F64)
      (sent : List SequenceCmd)
      → (l : EventListener w) × ((dispatch_all (subscribe_runner dispatcher) events).listeners
          ≡ map (receives events) dispatcher.listeners ++ (l ∷ []))
        × (sequence_runner_thread {w = w} (running seq abort_seq sent) (map Input.event l.channel)
            ≡ running seq abort_seq (sent ++ commands_of events))
  dispatch_all-commands dispatcher events seq abort_seq sent = (
    receives events runner_listener,
    dispatch_all-runner dispatcher events,
    sequence_runner_thread-commands w seq abort_seq sent (keep (wants runner_listener) events)
        ∙ ap (λ cs. running seq abort_seq (sent ++ cs)) (commands_of-keep events),
  )
