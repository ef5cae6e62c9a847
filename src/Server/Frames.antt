-- ===== src/Server/Frames.antt =====
-- From the events to the interfaces: the CAN send thread among the other threads.
use ferro_flow.Prelude.{
  ◌≡◌, refl, ap, sym, ◌∙◌, String, Bool, true, false, List, [], ◌∷◌, ◌++◌, append_assoc, append-nil,
  some, beq_false, string_eq, arith, Bool-cases, inl, inr, ◌==◌,
}
use ferro_flow.Platform.{Platform}
use ferro_flow.Events.{Event, EventKind, EventListener, kind_of, contains_kind, kind_beq}
use ferro_flow.Nodes.Heartbeat.{spawn_heartbeat_thread, spawn_can_msg_handler_thread}
use ferro_flow.Sequence.Runner.Control.{subscribe_runner}
use ferro_flow.Can.{CanCrate, Sockets, can_send_thread}
use ferro_flow.Db.{spawn_logging_worker}
use ferro_flow.Server.{
  Config, Phase, Server, has_sender, sender_name, runner_name, logger_name, handler_name,
}
use ferro_flow.Server.Queues.{queue, take, heard, Listening, queue-take, Subscribed-take}
use ferro_flow.Server.Turns.{after_logger}
use ferro_flow.Server.Steps.{Action, advance, run, dispatched}
use ferro_flow.Server.Rules.{Kept}
use ferro_flow.Server.Conservation.{
  Holds, Inv, take_other-Holds, close-Holds, close_other-Holds, left_by-Holds, subscribe-Holds,
  run-conserves, wanted,
}

abbrev pub sender_kinds : List EventKind
sender_kinds = EventKind.send_can_message ∷ EventKind.relay_can_message ∷ EventKind.shutdown ∷ []

module _ {w : Platform} (c : CanCrate w) (config : Config) where
  abbrev pub written_for : List (Event w) → List (String × w.Frame)
  written_for es = can_send_thread c config.can_bus_interfaces es

  send_one :
      (e : Event w) (es : List (Event w))
      → (e ≡ Event.shutdown → ⊥)
      → written_for (e ∷ []) ++ written_for es ≡ written_for (e ∷ es)
  unfolding can_send_thread
  send_one Event.shutdown es n = absurd (n refl)
  send_one (Event.send_can_message id m) es n =
      ap (λ (l : List (String × w.Frame)). l ++ written_for es) (append-nil _)
  send_one (Event.relay_can_message i f) es n =
      ap (λ (l : List (String × w.Frame)). l ++ written_for es) (append-nil _)
  send_one (Event.can_message_received id m) es n = refl
  send_one (Event.node_field_updated log) es n = refl
  send_one (Event.start_sequence a b) es n = refl
  send_one Event.pause_sequence es n = refl
  send_one Event.resume_sequence es n = refl
  send_one Event.abort_sequence es n = refl

  abbrev HoldsFrames :
      List (String × w.Frame)
      → List (EventListener w)
      → (List (Event w) → List (String × w.Frame))
      → Type 0
  HoldsFrames finished ls all = Holds sender_name sender_kinds written_for finished ls all

  abbrev IsKept : (List (Event w) → List (String × w.Frame)) → Server w → Type 0
  IsKept all s =
      Inv sender_name sender_kinds written_for (λ s. s.frames) has_sender (λ s. true) all s

  send-Holds :
      (e : Event w) {frames : List (String × w.Frame)} {ls ls' : List (EventListener w)}
      {all : List (Event w) → List (String × w.Frame)}
      → (e ≡ Event.shutdown → ⊥)
      → take sender_name ls ≡ some (e, ls')
      → HoldsFrames frames ls all
      → HoldsFrames (frames ++ written_for (e ∷ [])) ls' all
  send-Holds e {frames} {ls} {ls'} n t h = record {
    connected = h.connected;
    subscribed = Subscribed-take sender_name sender_name ls t h.subscribed;
    total = λ later.
        append_assoc frames (written_for (e ∷ []))
          (written_for (queue sender_name ls' ++ heard h.connected later))
        ∙ ap (◌++◌ frames) (send_one e (queue sender_name ls' ++ heard h.connected later) n)
        ∙ (rw (queue-take sender_name ls t) at h.total later);
  }

  after_shutdown : (es : List (Event w)) → written_for (Event.shutdown ∷ es) ≡ written_for []
  unfolding can_send_thread
  after_shutdown es = refl

  unwanted :
      (e : Event w) (es : List (Event w))
      → contains_kind sender_kinds (kind_of e) ≡ false
      → written_for (e ∷ es) ≡ written_for es
  unfolding contains_kind kind_of kind_beq can_send_thread
  unwanted (Event.node_field_updated log) es h = refl
  unwanted (Event.can_message_received id m) es h = refl
  unwanted Event.shutdown es h = absurd (ground arith)
  unwanted (Event.send_can_message id m) es h = absurd (ground arith)
  unwanted (Event.relay_can_message i f) es h = absurd (ground arith)
  unwanted (Event.start_sequence a b) es h = refl
  unwanted Event.pause_sequence es h = refl
  unwanted Event.resume_sequence es h = refl
  unwanted Event.abort_sequence es h = refl

  cons_agree :
      (e : Event w) (es fs : List (Event w))
      → written_for es ≡ written_for fs
      → written_for (e ∷ es) ≡ written_for (e ∷ fs)
  unfolding can_send_thread
  cons_agree Event.shutdown es fs h = refl
  cons_agree (Event.send_can_message id m) es fs h = ap (◌++◌ _) h
  cons_agree (Event.relay_can_message i f) es fs h = ap (◌++◌ _) h
  cons_agree (Event.can_message_received id m) es fs h = h
  cons_agree (Event.node_field_updated log) es fs h = h
  cons_agree (Event.start_sequence a b) es fs h = h
  cons_agree Event.pause_sequence es fs h = h
  cons_agree Event.resume_sequence es fs h = h
  cons_agree Event.abort_sequence es fs h = h

  written_for-wanted :
      (q es : List (Event w))
      → written_for (q ++ wanted sender_name sender_kinds written_for es) ≡ written_for (q ++ es)
  written_for-wanted [] [] = refl
  written_for-wanted [] (e ∷ es) = elim (Bool-cases (contains_kind sender_kinds (kind_of e))) [
    | inl h ↦ rw h (cons_agree e _ es (written_for-wanted [] es))
    | inr h ↦ rw h (written_for-wanted [] es ∙ sym (unwanted e es h))
  ]
  written_for-wanted (x ∷ q) es = cons_agree x _ (q ++ es) (written_for-wanted q es)

  module _ (sockets : Sockets) (connects : Bool) where
    after_logger-Kept :
        {all : List (Event w) → List (String × w.Frame)} (s : Server w)
        → IsKept all s
        → IsKept all (after_logger s (spawn_logging_worker connects s.dispatcher))
    unfolding spawn_logging_worker
    after_logger-Kept s h = elim (Bool-cases connects) [
      | inl e ↦ rw e (record {
        guarded = refl;
        holds =
            λ l. subscribe-Holds sender_name sender_kinds written_for s.dispatcher _ _ (h.holds l);
      })
      | inr e ↦ rw e (record { guarded = refl; holds = h.holds })
    ]

    advance-Kept :
        {all : List (Event w) → List (String × w.Frame)} (phase : Phase) (s : Server w)
        → has_sender phase ≡ true
        → IsKept all s
        → IsKept all (advance c sockets connects config phase s).server
    unfolding advance spawn_heartbeat_thread spawn_can_msg_handler_thread
    advance-Kept Phase.spawning_can s g h = absurd (ground arith)
    advance-Kept Phase.spawning_runner s g h = record { guarded = refl; holds = h.holds }
    advance-Kept Phase.spawning_logger s g h = elim (Bool-cases (config.database_url == "")) [
      | inl e ↦ rw e (record { guarded = refl; holds = h.holds })
      | inr e ↦ rw e (after_logger-Kept s h)
    ]
    advance-Kept Phase.spawning_handler s g h = record {
      guarded = refl;
      holds =
          λ l. subscribe-Holds sender_name sender_kinds written_for s.dispatcher _ _ (h.holds l);
    }
    advance-Kept Phase.spawning_heartbeat s g h = record {
      guarded = refl;
      holds =
          λ l. subscribe-Holds sender_name sender_kinds written_for s.dispatcher _ _ (h.holds l);
    }
    advance-Kept Phase.registering s g h = record { guarded = refl; holds = h.holds }
    advance-Kept Phase.started s g h = h
    advance-Kept Phase.can_failed s g h = absurd (ground arith)
    advance-Kept Phase.logger_failed s g h = h

    kept :
        (all : List (Event w) → List (String × w.Frame))
        → Kept c sockets connects config (IsKept all)
    unfolding subscribe_runner
    kept all = record {
      on_main = λ s h. advance-Kept s.phase s h.guarded h;
      threads = record {
        on_subscribe = λ s h. record {
          guarded = h.guarded;
          holds = λ l.
              subscribe-Holds sender_name sender_kinds written_for s.dispatcher _ _ (h.holds l);
        };
        on_runner = λ s r h. record { guarded = h.guarded; holds = h.holds };
        on_command = λ s e ls t h. record {
          guarded = h.guarded;
          holds = λ l.
              left_by-Holds sender_name sender_kinds written_for runner_name e
                (beq_false sender_name runner_name refl)
                (take_other-Holds sender_name sender_kinds written_for runner_name
                  (beq_false sender_name runner_name refl) t (h.holds l));
        };
        on_leave = λ s name n d h. record {
          guarded = h.guarded;
          holds = λ l. close_other-Holds sender_name sender_kinds written_for name n (h.holds l);
        };
        on_message = λ s now e ls g t h. record {
          guarded = h.guarded;
          holds = λ l.
              take_other-Holds sender_name sender_kinds written_for handler_name
                (beq_false sender_name handler_name refl) t (h.holds l);
        };
        on_heartbeat = λ s now g h. record { guarded = h.guarded; holds = h.holds };
        on_send = λ s e ls n t h. record {
          guarded = h.guarded;
          holds = λ l. send-Holds e n t (h.holds l);
        };
        on_send_end = λ s ls t h. record {
          guarded = h.guarded;
          holds =
              λ l. close-Holds sender_name sender_kinds written_for after_shutdown t (h.holds l);
        };
        on_log = λ s k b e ls q u t h. record {
          guarded = h.guarded;
          holds = λ l.
              left_by-Holds sender_name sender_kinds written_for logger_name e
                (beq_false sender_name logger_name refl)
                (take_other-Holds sender_name sender_kinds written_for logger_name
                  (beq_false sender_name logger_name refl) t (h.holds l));
        };
        on_timeout = λ s k b q u h. record { guarded = h.guarded; holds = h.holds };
      };
    }

-- Once the CAN threads are spawned and the send thread listens: in whichever order the threads act,
-- what was written to the interfaces, with what the send thread would write for the events that
-- wait for it, is what it would write for all events in their order: those that waited before, and
-- behind them all that any thread dispatched.
pub run-frames :
    {w : Platform} (c : CanCrate w) (sockets : Sockets) (connects : Bool) (config : Config)
    (actions : List (Action w)) (s : Server w)
    → has_sender s.phase ≡ true
    → Listening sender_name sender_kinds s.dispatcher.listeners
    → (let s' = run c sockets connects config actions s in
        s'.frames ++ written_for c config (queue sender_name s'.dispatcher.listeners)
        ≡ s.frames
          ++ written_for c config (
              queue sender_name s.dispatcher.listeners
              ++ dispatched c sockets connects config actions s))
run-frames c sockets connects config actions s g n =
    run-conserves sender_name sender_kinds (written_for c config) (λ s. s.frames) has_sender
      (λ s. true) c sockets connects config (kept c config sockets connects) (λ s d. refl)
      (λ s d. refl) actions s g n refl
    ∙ ap (◌++◌ s.frames) (
        written_for-wanted c config (queue sender_name s.dispatcher.listeners)
          (dispatched c sockets connects config actions s))
