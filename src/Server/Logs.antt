-- ===== src/Server/Logs.antt =====
-- From the report of a value to the table: the logging worker among the other threads.
use ferro_flow.Prelude.{
  ◌≡◌, subst, if◌then◌else◌, refl, ap, sym, ◌∙◌, Bool, true, false, List, [], ◌∷◌, ◌++◌,
  append_assoc, append-nil, Option, none, some, beq_false, string_eq, arith, Bool-cases, inl, inr,
}
use ferro_flow.Platform.{Platform}
use ferro_flow.Events.{Event, EventKind, EventListener, FieldLog, kind_of, contains_kind, kind_beq}
use ferro_flow.Nodes.Heartbeat.{spawn_heartbeat_thread}
use ferro_flow.Sequence.Runner.Control.{subscribe_runner}
use ferro_flow.Can.{CanCrate, Sockets}
use ferro_flow.Db.{Worker, Received, round}
use ferro_flow.Db.Batches.{held, logs_in, round-held}
use ferro_flow.Server.{
  Config, Phase, Server, has_handler, sender_name, runner_name, logger_name, handler_name,
}
use ferro_flow.Server.Queues.{queue, take, heard, left_by, Listening, queue-take, Subscribed-take}
use ferro_flow.Server.Turns.{received_log, ended}
use ferro_flow.Server.Steps.{Action, advance, run, dispatched}
use ferro_flow.Server.Rules.{Kept}
use ferro_flow.Server.Conservation.{
  Holds, Inv, take_other-Holds, close_other-Holds, left_by-Holds, subscribe-Holds, run-conserves,
  wanted,
}

abbrev pub logger_kinds : List EventKind
logger_kinds = EventKind.shutdown ∷ EventKind.node_field_updated ∷ []

module _ {w : Platform} where
  -- The table's rows and the batch.
  abbrev pub held_by : Option (Worker w) → List (FieldLog w)
  held_by none = []
  held_by (some k) = held k

  -- The reports among events.
  abbrev pub logs_of : List (Event w) → List (FieldLog w)
  logs_of [] = []
  logs_of (e ∷ es) = logs_in (received_log e) ++ logs_of es

  abbrev made : Server w → List (FieldLog w)
  made s = held_by s.worker

  abbrev pub is_logging : Option (Worker w) → Bool
  is_logging none = false
  is_logging (some k) = k.is_running

  abbrev live : Server w → Bool
  live s = is_logging s.worker

  abbrev HoldsLogs :
      List (FieldLog w) → List (EventListener w) → (List (Event w) → List (FieldLog w)) → Type 0
  HoldsLogs finished ls all = Holds logger_name logger_kinds logs_of finished ls all

  abbrev IsKept : (List (Event w) → List (FieldLog w)) → Server w → Type 0
  IsKept all s = Inv logger_name logger_kinds logs_of made has_handler live all s

  round-total :
      (k : Worker w) (succeeds : Bool) (e : Event w) (waiting : List (Event w))
      → held (round k (received_log e) succeeds) ++ logs_of waiting
        ≡ held k ++ logs_of (e ∷ waiting)
  round-total k succeeds e waiting =
      ap (λ (l : List (FieldLog w)). l ++ logs_of waiting) (round-held k (received_log e) succeeds)
      ∙ append_assoc (held k) (logs_in (received_log e)) (logs_of waiting)

  round-Holds :
      (k : Worker w) (succeeds : Bool) (e : Event w) {o : Option (Worker w)}
      {ls ls' : List (EventListener w)} {all : List (Event w) → List (FieldLog w)}
      → o ≡ some k
      → take logger_name ls ≡ some (e, ls')
      → HoldsLogs (held_by o) ls all
      → HoldsLogs (held (round k (received_log e) succeeds)) ls' all
  round-Holds k succeeds e {o} {ls} {ls'} q t h = record {
    connected = h.connected;
    subscribed = Subscribed-take logger_name logger_name ls t h.subscribed;
    total = λ later.
        round-total k succeeds e (queue logger_name ls' ++ heard h.connected later)
        ∙ (rw (q, queue-take logger_name ls t) at h.total later);
  }

  timeout-Holds :
      (k : Worker w) (succeeds : Bool) {o : Option (Worker w)} {ls : List (EventListener w)}
      {all : List (Event w) → List (FieldLog w)}
      → o ≡ some k
      → HoldsLogs (held_by o) ls all
      → HoldsLogs (held (round k Received.timeout succeeds)) ls all
  timeout-Holds k succeeds q h = record {
    connected = h.connected;
    subscribed = h.subscribed;
    total = λ later.
        rw (round-held k Received.timeout succeeds, append-nil (held k)) (rw q at h.total later);
  }

  ended-running : (k : Worker w) → k.is_running ≡ true → ended k ≡ k
  ended-running k l = ap (λ b. record k { batch = if b then k.batch else [] }) l

  -- A worker that still runs has not met a shutdown.
  still_there :
      (k : Worker w) (succeeds : Bool) (e : Event w) (ls : List (EventListener w))
      → (round k (received_log e) succeeds).is_running ≡ true
      → left_by logger_name e ls ≡ ls
  unfolding round
  still_there k succeeds Event.shutdown ls l = absurd (ground arith)
  still_there k succeeds (Event.can_message_received i m) ls l = refl
  still_there k succeeds (Event.node_field_updated log) ls l = refl
  still_there k succeeds (Event.send_can_message n m) ls l = refl
  still_there k succeeds (Event.relay_can_message i m) ls l = refl
  still_there k succeeds (Event.start_sequence a b) ls l = refl
  still_there k succeeds Event.pause_sequence ls l = refl
  still_there k succeeds Event.resume_sequence ls l = refl
  still_there k succeeds Event.abort_sequence ls l = refl

  logged-Holds :
      (k : Worker w) (succeeds : Bool) (e : Event w) {ls : List (EventListener w)}
      {all : List (Event w) → List (FieldLog w)}
      → (round k (received_log e) succeeds).is_running ≡ true
      → HoldsLogs (held (round k (received_log e) succeeds)) ls all
      → HoldsLogs (held (ended (round k (received_log e) succeeds))) (left_by logger_name e ls) all
  logged-Holds k succeeds e {ls} {all} l h =
      subst (λ ls'. HoldsLogs (held (ended (round k (received_log e) succeeds))) ls' all)
        (sym (still_there k succeeds e ls l))
        (subst (λ k'. HoldsLogs (held k') ls all) (sym (ended-running _ l)) h)

  timed_out-Holds :
      (k : Worker w) (succeeds : Bool) {ls : List (EventListener w)}
      {all : List (Event w) → List (FieldLog w)}
      → (round k Received.timeout succeeds).is_running ≡ true
      → HoldsLogs (held (round k Received.timeout succeeds)) ls all
      → HoldsLogs (held (ended (round k Received.timeout succeeds))) ls all
  timed_out-Holds k succeeds {ls} {all} l h =
      subst (λ k'. HoldsLogs (held k') ls all) (sym (ended-running _ l)) h

  module _ (c : CanCrate w) (sockets : Sockets) (connects : Bool) (config : Config) where
    -- Of the calls of the main thread, those from the handler's listener on are left.
    advance-Kept :
        {all : List (Event w) → List (FieldLog w)} (phase : Phase) (s : Server w)
        → has_handler phase ≡ true
        → IsKept all s
        → IsKept all (advance c sockets connects config phase s).server
    unfolding advance spawn_heartbeat_thread
    advance-Kept Phase.spawning_heartbeat s g h = record {
      guarded = refl;
      holds = λ l. subscribe-Holds logger_name logger_kinds logs_of s.dispatcher _ _ (h.holds l);
    }
    advance-Kept Phase.registering s g h = record { guarded = refl; holds = h.holds }
    advance-Kept Phase.started s g h = h
    advance-Kept Phase.spawning_can s g h = absurd (ground arith)
    advance-Kept Phase.spawning_runner s g h = absurd (ground arith)
    advance-Kept Phase.spawning_logger s g h = absurd (ground arith)
    advance-Kept Phase.spawning_handler s g h = absurd (ground arith)
    advance-Kept Phase.can_failed s g h = absurd (ground arith)
    advance-Kept Phase.logger_failed s g h = absurd (ground arith)

    kept : (all : List (Event w) → List (FieldLog w)) → Kept c sockets connects config (IsKept all)
    unfolding subscribe_runner
    kept all = record {
      on_main = λ s h. advance-Kept s.phase s h.guarded h;
      threads = record {
        on_subscribe = λ s h. record {
          guarded = h.guarded;
          holds =
              λ l. subscribe-Holds logger_name logger_kinds logs_of s.dispatcher _ _ (h.holds l);
        };
        on_runner = λ s r h. record { guarded = h.guarded; holds = h.holds };
        on_command = λ s e ls t h. record {
          guarded = h.guarded;
          holds = λ l.
              left_by-Holds logger_name logger_kinds logs_of runner_name e
                (beq_false logger_name runner_name refl)
                (take_other-Holds logger_name logger_kinds logs_of runner_name
                  (beq_false logger_name runner_name refl) t (h.holds l));
        };
        on_leave = λ s name n d h. record {
          guarded = h.guarded;
          holds = λ l. close_other-Holds logger_name logger_kinds logs_of name d (h.holds l);
        };
        on_message = λ s now e ls g t h. record {
          guarded = h.guarded;
          holds = λ l.
              take_other-Holds logger_name logger_kinds logs_of handler_name
                (beq_false logger_name handler_name refl) t (h.holds l);
        };
        on_heartbeat = λ s now g h. record { guarded = h.guarded; holds = h.holds };
        on_send = λ s e ls n t h. record {
          guarded = h.guarded;
          holds = λ l.
              take_other-Holds logger_name logger_kinds logs_of sender_name
                (beq_false logger_name sender_name refl) t (h.holds l);
        };
        on_send_end = λ s ls t h. record {
          guarded = h.guarded;
          holds = λ l.
              close_other-Holds logger_name logger_kinds logs_of sender_name
                (beq_false logger_name sender_name refl) (h.holds l);
        };
        on_log = λ s k b e ls q u t h. record {
          guarded = h.guarded;
          holds = λ l. logged-Holds k b e l (round-Holds k b e q t (h.holds (rw q u)));
        };
        on_timeout = λ s k b q u h. record {
          guarded = h.guarded;
          holds = λ l. timed_out-Holds k b l (timeout-Holds k b q (h.holds (rw q u)));
        };
      };
    }

  -- The worker subscribed to all reports.
  unwanted :
      (e : Event w) → contains_kind logger_kinds (kind_of e) ≡ false → logs_in (received_log e) ≡ []
  unfolding contains_kind kind_of kind_beq
  unwanted (Event.node_field_updated log) h = absurd (ground arith)
  unwanted (Event.can_message_received id m) h = refl
  unwanted Event.shutdown h = refl
  unwanted (Event.send_can_message id m) h = refl
  unwanted (Event.relay_can_message i f) h = refl
  unwanted (Event.start_sequence a b) h = refl
  unwanted Event.pause_sequence h = refl
  unwanted Event.resume_sequence h = refl
  unwanted Event.abort_sequence h = refl

  logs_of-wanted :
      (q es : List (Event w))
      → logs_of (q ++ wanted logger_name logger_kinds logs_of es) ≡ logs_of q ++ logs_of es
  logs_of-wanted [] [] = refl
  logs_of-wanted [] (e ∷ es) = elim (Bool-cases (contains_kind logger_kinds (kind_of e))) [
    | inl h ↦ rw h (ap (◌++◌ (logs_in (received_log e))) (logs_of-wanted [] es))
    | inr h ↦ rw (h, unwanted e h) (logs_of-wanted [] es)
  ]
  logs_of-wanted (x ∷ q) es =
      ap (◌++◌ (logs_in (received_log x))) (logs_of-wanted q es)
      ∙ sym (append_assoc (logs_in (received_log x)) (logs_of q) (logs_of es))

-- Once the handler is spawned and the logging worker listens, in a run at whose end the worker still
-- runs: in whichever order the threads act, whatever they receive and whichever inserts fail, the
-- table's rows, the batch and the reports
-- that wait for the worker are those before, followed by every report that any thread dispatched,
-- each once and in order.
pub run-logs :
    {w : Platform} (c : CanCrate w) (sockets : Sockets) (connects : Bool) (config : Config)
    (actions : List (Action w)) (s : Server w)
    → has_handler s.phase ≡ true
    → Listening logger_name logger_kinds s.dispatcher.listeners
    → is_logging (run c sockets connects config actions s).worker ≡ true
    → (let s' = run c sockets connects config actions s in
        held_by s'.worker ++ logs_of (queue logger_name s'.dispatcher.listeners)
        ≡ (held_by s.worker ++ logs_of (queue logger_name s.dispatcher.listeners))
          ++ logs_of (dispatched c sockets connects config actions s))
run-logs c sockets connects config actions s g n l =
    run-conserves logger_name logger_kinds logs_of (λ s. held_by s.worker) has_handler
      (λ s. is_logging s.worker) c sockets connects config (kept c sockets connects config)
      (λ s d. refl) (λ s d. refl) actions s g n l
    ∙ ap (◌++◌ (held_by s.worker)) (
        logs_of-wanted (queue logger_name s.dispatcher.listeners)
          (dispatched c sockets connects config actions s))
    ∙ sym (
        append_assoc (held_by s.worker) (logs_of (queue logger_name s.dispatcher.listeners))
          (logs_of (dispatched c sockets connects config actions s)))
