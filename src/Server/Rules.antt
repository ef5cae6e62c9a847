-- ===== src/Server/Rules.antt =====
-- A predicate that every change of the state by a thread keeps is kept by every action: the guards
-- of the actions are taken apart here once.
use ferro_flow.Prelude.{
  ◌≢◌, ap, String, nat_beq, beq_false, string_eq, ◌≡◌, refl, ℕ, Bool, true, false, not, ◌&&◌, ◌||◌,
  List, [], ◌∷◌, ◌++◌, Option, none, some, and_split, arith, is_empty, if◌then◌else◌,
}
use Prim.Native.Char.{code}
use text.Mathlib.TextLemmas.{cons-append}
use ferro_flow.Prelude.Text.{append}
use ferro_flow.Platform.{Platform}
use ferro_flow.Events.{Event, EventListener, EventDispatcher}
use ferro_flow.Nodes.Manager.Handlers.{dispatch_heartbeat_requests}
use ferro_flow.Nodes.Heartbeat.{can_msg_handler_thread}
use ferro_flow.Sequence.Runner.Control
use ferro_flow.Sequence.Runner.Control.{SequenceRunner, subscribe_runner}
use ferro_flow.Can.{CanCrate, Sockets, can_send_thread}
use ferro_flow.Db.{Worker, Received, round}
use ferro_flow.Server.{
  Config, RunnerThread, not_subscribed, running, stopped, Server, has_sender, has_runner,
  has_handler, has_heartbeat, sender_name, runner_name, logger_name, handler_name, heartbeat_name,
  receiver_name,
}
use ferro_flow.Server.Queues.{queue, take, close, left_by, listens}
use ferro_flow.Server.Turns.{
  Moved, with_listeners, on_event, on_any_event, received_log, sequence_end, runner_turn,
  runner_start, logger_turn, logger_timeout, ended,
}
use ferro_flow.Server.Steps.{
  Action, main_thread, runner_subscribes, runner_receives, sequence_ends, sender_receives,
  sequence_sets, handler_receives, heartbeat_due, logger_receives, logger_times_out,
  interface_receives, outside, advance, act, step, run,
}

-- The names of the threads of the interfaces have this fifth letter, and no other name has.
abbrev is_receiver : String → Bool
is_receiver (String.◌∷◌ a (String.◌∷◌ b (String.◌∷◌ c (String.◌∷◌ d (String.◌∷◌ e s))))) =
    nat_beq (code e) b'r'
is_receiver _ = false

is_receiver-name : (i : String) → is_receiver (receiver_name i) ≡ true
is_receiver-name i =
    let rest = append i ")" in
    rw
      (
        cons-append "C" "AN recv thread (" rest,
        cons-append "A" "N recv thread (" rest,
        cons-append "N" " recv thread (" rest,
        cons-append " " "recv thread (" rest,
        cons-append "r" "ecv thread (" rest,
      )
      refl

no_receiver : (name i : String) → is_receiver name ≡ false → name ≢ receiver_name i
no_receiver name i h e = absurd (ground (arith, h, is_receiver-name i, ap is_receiver e))

module _ {w : Platform} (c : CanCrate w) (sockets : Sockets) (connects : Bool)
    (config : Config) where
  pub record KeptByThreads {ℓ} (P : Server w → Type ℓ) : Type ℓ where
    pub on_subscribe :
        (s : Server w)
        → P s
        → P (record s { dispatcher = subscribe_runner s.dispatcher; runner = running Control.new })
    pub on_runner : (s : Server w) (r : RunnerThread w.F64) → P s → P (record s { runner = r })
    pub on_command :
        (s : Server w) (e : Event w) (ls : List (EventListener w))
        → take runner_name s.dispatcher.listeners ≡ some (e, ls)
        → P s
        → P (with_listeners s (left_by runner_name e ls))
    -- the handler, the heartbeats or the thread of an interface ends
    pub on_leave :
        (s : Server w) (name : String)
        → sender_name ≢ name
        → logger_name ≢ name
        → P s
        → P (with_listeners s (close name s.dispatcher.listeners))
    pub on_message :
        (s : Server w) (now : ℕ) (e : Event w) (ls : List (EventListener w))
        → has_handler s.phase ≡ true
        → take handler_name s.dispatcher.listeners ≡ some (e, ls)
        → P s
        → P (record (with_listeners s ls) {
          manager = (can_msg_handler_thread s.manager ((now, e) ∷ [])).manager;
        })
    pub on_heartbeat :
        (s : Server w) (now : ℕ)
        → has_heartbeat s.phase ≡ true
        → P s
        → P (record s {
          manager = (dispatch_heartbeat_requests s.manager (λ _. now)).manager;
          has_beaten = true;
        })
    pub on_send :
        (s : Server w) (e : Event w) (ls : List (EventListener w))
        → (e ≡ Event.shutdown → ⊥)
        → take sender_name s.dispatcher.listeners ≡ some (e, ls)
        → P s
        → P (record (with_listeners s ls) {
          frames = s.frames ++ can_send_thread c config.can_bus_interfaces (e ∷ []);
        })
    pub on_send_end :
        (s : Server w) (ls : List (EventListener w))
        → take sender_name s.dispatcher.listeners ≡ some (Event.shutdown, ls)
        → P s
        → P (with_listeners s (close sender_name s.dispatcher.listeners))
    pub on_log :
        (s : Server w) (k : Worker w) (succeeds : Bool) (e : Event w) (ls : List (EventListener w))
        → s.worker ≡ some k
        → k.is_running ≡ true
        → take logger_name s.dispatcher.listeners ≡ some (e, ls)
        → P s
        → P (record (with_listeners s (left_by logger_name e ls)) {
          worker = some (ended (round k (received_log e) succeeds));
        })
    pub on_timeout :
        (s : Server w) (k : Worker w) (succeeds : Bool)
        → s.worker ≡ some k
        → k.is_running ≡ true
        → P s
        → P (record s { worker = some (ended (round k Received.timeout succeeds)) })

  pub record Kept {ℓ} (P : Server w → Type ℓ) : Type ℓ where
    pub on_main : (s : Server w) → P s → P (advance c sockets connects config s.phase s).server
    pub threads : KeptByThreads P

  module _ {ℓ} {P : Server w → Type ℓ} (kept : KeptByThreads P) where
    if-Kept :
        (b : Bool) (x y : Moved w)
        → (b ≡ true → P x.server)
        → (b ≡ false → P y.server)
        → P (if b then x else y).server
    if-Kept true x y f g = f refl
    if-Kept false x y f g = g refl

    on_event-Kept :
        (name : String) (s : Server w) (o : Option (Event w × List (EventListener w)))
        (f : Event w → Server w → Moved w)
        → P s
        → ((ls : List (EventListener w))
            → o ≡ some (Event.shutdown, ls)
            → P (with_listeners s (close name s.dispatcher.listeners)))
        → ((e : Event w) (ls : List (EventListener w))
            → (e ≡ Event.shutdown → ⊥)
            → o ≡ some (e, ls)
            → P (f e (with_listeners s ls)).server)
        → P (on_event name o s f).server
    on_event-Kept name s none f p q h = p
    on_event-Kept name s (some (Event.shutdown, ls)) f p q h = q ls refl
    on_event-Kept name s (some (Event.can_message_received i m, ls)) f p q h =
        h _ ls (λ x. ground arith) refl
    on_event-Kept name s (some (Event.node_field_updated l, ls)) f p q h =
        h _ ls (λ x. ground arith) refl
    on_event-Kept name s (some (Event.send_can_message n m, ls)) f p q h =
        h _ ls (λ x. ground arith) refl
    on_event-Kept name s (some (Event.relay_can_message i m, ls)) f p q h =
        h _ ls (λ x. ground arith) refl
    on_event-Kept name s (some (Event.start_sequence a b, ls)) f p q h =
        h _ ls (λ x. ground arith) refl
    on_event-Kept name s (some (Event.pause_sequence, ls)) f p q h = h _ ls (λ x. ground arith) refl
    on_event-Kept name s (some (Event.resume_sequence, ls)) f p q h =
        h _ ls (λ x. ground arith) refl
    on_event-Kept name s (some (Event.abort_sequence, ls)) f p q h = h _ ls (λ x. ground arith) refl

    on_any_event-Kept :
        (name : String) (s : Server w) (o : Option (Event w × List (EventListener w)))
        (f : Event w → Server w → Moved w)
        → P s
        → ((e : Event w) (ls : List (EventListener w))
            → o ≡ some (e, ls)
            → P (f e (with_listeners s (left_by name e ls))).server)
        → P (on_any_event name o s f).server
    on_any_event-Kept name s none f p h = p
    on_any_event-Kept name s (some (e, ls)) f p h = h e ls refl

    runner_turn-Kept : (s : Server w) (r : RunnerThread w.F64) → P s → P (runner_turn r s).server
    runner_turn-Kept s not_subscribed p = p
    runner_turn-Kept s (stopped r) p = p
    runner_turn-Kept s (running r) p =
        on_any_event-Kept runner_name s (take runner_name s.dispatcher.listeners) _ p λ e ls t.
          kept.on_runner (with_listeners s (left_by runner_name e ls)) _
            (kept.on_command s e ls t p)

    runner_start-Kept : (s : Server w) (r : RunnerThread w.F64) → P s → P (runner_start r s).server
    runner_start-Kept s not_subscribed p = kept.on_subscribe s p
    runner_start-Kept s (running r) p = p
    runner_start-Kept s (stopped r) p = p

    logger_turn-Kept :
        (s : Server w) (o : Option (Worker w)) (succeeds : Bool)
        → s.worker ≡ o
        → P s
        → P (logger_turn o succeeds s).server
    logger_turn-Kept s none succeeds q p = p
    logger_turn-Kept s (some k) succeeds q p =
        if-Kept k.is_running _ _
          (λ h.
            on_any_event-Kept logger_name s (take logger_name s.dispatcher.listeners) _ p
              λ e ls t. kept.on_log s k succeeds e ls q h t p)
          λ h. p

    logger_timeout-Kept :
        (s : Server w) (o : Option (Worker w)) (succeeds : Bool)
        → s.worker ≡ o
        → P s
        → P (logger_timeout o succeeds s).server
    logger_timeout-Kept s none succeeds q p = p
    logger_timeout-Kept s (some k) succeeds q p =
        if-Kept (k.is_running && is_empty (queue logger_name s.dispatcher.listeners)) _ _
          (λ h. kept.on_timeout s k succeeds q (and_split _ _ h).0 p) λ h. p

    pub thread-Kept :
        (a : Action w) (s : Server w)
        → a ≢ main_thread
        → P s
        → P (act c sockets connects config a s).server
    unfolding act
    thread-Kept main_thread s other p = absurd (other refl)
    thread-Kept runner_subscribes s other p =
        if-Kept (has_runner s.phase) _ _ (λ h. runner_start-Kept s s.runner p) λ h. p
    thread-Kept runner_receives s other p = runner_turn-Kept s s.runner p
    thread-Kept sequence_ends s other p = kept.on_runner s (sequence_end s.runner) p
    thread-Kept (sequence_sets name value) s other p = p
    thread-Kept (handler_receives now) s other p =
        if-Kept (has_handler s.phase) _ _
          (λ h.
            on_event-Kept handler_name s (take handler_name s.dispatcher.listeners) _ p
              (λ ls t.
                kept.on_leave s handler_name (beq_false sender_name handler_name refl)
                  (beq_false logger_name handler_name refl) p)
              λ e ls x t. kept.on_message s now e ls h t p)
          λ h. p
    thread-Kept (heartbeat_due now) s other p =
        if-Kept (has_heartbeat s.phase) _ _
          (λ h.
            if-Kept
              (not s.has_beaten
                || (listens heartbeat_name s.dispatcher.listeners
                    && is_empty (queue heartbeat_name s.dispatcher.listeners)))
              _ _ (λ b. kept.on_heartbeat s now h p)
              λ b.
                kept.on_leave s heartbeat_name (beq_false sender_name heartbeat_name refl)
                  (beq_false logger_name heartbeat_name refl) p)
          λ h. p
    thread-Kept sender_receives s other p =
        if-Kept (has_sender s.phase) _ _
          (λ h.
            on_event-Kept sender_name s (take sender_name s.dispatcher.listeners) _ p
              (λ ls t. kept.on_send_end s ls t p) λ e ls n t. kept.on_send s e ls n t p)
          λ h. p
    thread-Kept (logger_receives succeeds) s other p = logger_turn-Kept s s.worker succeeds refl p
    thread-Kept (logger_times_out succeeds) s other p =
        logger_timeout-Kept s s.worker succeeds refl p
    thread-Kept (interface_receives i outcome) s other p =
        if-Kept
          (listens (receiver_name i) s.dispatcher.listeners
            && is_empty (queue (receiver_name i) s.dispatcher.listeners))
          _ _ (λ h. p)
          λ h.
            kept.on_leave s (receiver_name i) (no_receiver sender_name i refl)
              (no_receiver logger_name i refl) p
    thread-Kept (outside e) s other p = p

  module _ {ℓ} {P : Server w → Type ℓ} (kept : Kept P) where
    pub act-Kept :
        (a : Action w) (s : Server w) → P s → P (act c sockets connects config a s).server
    unfolding act
    act-Kept main_thread s p = kept.on_main s p
    act-Kept runner_subscribes s p =
        thread-Kept kept.threads runner_subscribes s (λ q. ground arith) p
    act-Kept runner_receives s p = thread-Kept kept.threads runner_receives s (λ q. ground arith) p
    act-Kept sequence_ends s p = thread-Kept kept.threads sequence_ends s (λ q. ground arith) p
    act-Kept (sequence_sets name value) s p =
        thread-Kept kept.threads (sequence_sets name value) s (λ q. ground arith) p
    act-Kept (handler_receives now) s p =
        thread-Kept kept.threads (handler_receives now) s (λ q. ground arith) p
    act-Kept (heartbeat_due now) s p =
        thread-Kept kept.threads (heartbeat_due now) s (λ q. ground arith) p
    act-Kept sender_receives s p = thread-Kept kept.threads sender_receives s (λ q. ground arith) p
    act-Kept (logger_receives succeeds) s p =
        thread-Kept kept.threads (logger_receives succeeds) s (λ q. ground arith) p
    act-Kept (logger_times_out succeeds) s p =
        thread-Kept kept.threads (logger_times_out succeeds) s (λ q. ground arith) p
    act-Kept (interface_receives i outcome) s p =
        thread-Kept kept.threads (interface_receives i outcome) s (λ q. ground arith) p
    act-Kept (outside e) s p = thread-Kept kept.threads (outside e) s (λ q. ground arith) p

    -- For a predicate that does not look at the channels.
    pub run-Kept :
        ((s : Server w) (d : EventDispatcher w) → P s → P (record s { dispatcher = d }))
        → (actions : List (Action w)) (s : Server w) → P s
        → P (run c sockets connects config actions s)
    unfolding run step
    run-Kept h [] s p = p
    run-Kept h (a ∷ actions) s p =
        run-Kept h actions (step c sockets connects config a s) (h _ _ (act-Kept a s p))
