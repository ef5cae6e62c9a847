-- ===== src/Sequence/Runner/Requests/Aborts.antt =====
-- From the events of an operator, over the dispatcher, to the requests of the abort sequence: the
-- runner's loop of src/sequence/mod.rs, the thread that it spawns, and the writes to the node
-- manager.
use ferro_flow.Prelude.{
  ℕ, suc, ◌+◌, ◌≤◌, ◌≡◌, ◌⊎◌, refl, sym, ap, ◌∙◌, String, List, [], ◌∷◌, ◌++◌, map, Option, length,
  All, inl, inr, arith, append_assoc, keep,
}
use ferro_flow.Platform.{Platform}
use ferro_flow.Events.{
  Event, EventListener, EventDispatcher, kind_of, kind_beq, contains_kind, dispatch_all,
}
use ferro_flow.Events.Delivery.{wants, receives}
use ferro_flow.Sequence.{Sequence, TimedAction, ParamState}
use ferro_flow.Sequence.Builder.{flatten_and_interpolate}
use ferro_flow.Sequence.Runner.{
  SequenceCmd, pause, resume, abort, Message, command, timeout, finished, Run, run_thread,
}
use ferro_flow.Sequence.Runner.Execution.{params}
use ferro_flow.Sequence.Runner.Completion.{timeouts, IsPlain}
use ferro_flow.Sequence.Runner.Abortion.{IsCalm, Fits, IsAborted, run_thread-abort}
use ferro_flow.Sequence.Runner.Requests.{dispatched, requests}
use ferro_flow.Sequence.Runner.Control
use ferro_flow.Sequence.Runner.Control.{
  Input, is_sequence_running, run_sequence, handle_event, sequence_runner_thread, subscribe_runner,
}
use ferro_flow.Sequence.Runner.Control.Exclusion.{
  commands_of, running, sequence_runner_thread-commands,
}
use ferro_flow.Sequence.Runner.Control.Hearing.{
  runner_listener, commands_of-keep, dispatch_all-runner,
}
use ferro_flow.Nodes.Manager.{NodeManager}
use ferro_flow.Nodes.Command.{set_value}

-- What the thread receives: the commands in their order, with time-outs anywhere between them.
pub data Merges : List SequenceCmd → List Message → Type 0 where
  nothing : Merges [] []
  times_out :
      {cs : List SequenceCmd} {inbox : List Message} → Merges cs inbox → Merges cs (timeout ∷ inbox)
  gets :
      {cs : List SequenceCmd} {inbox : List Message} (c : SequenceCmd)
      → Merges cs inbox
      → Merges (c ∷ cs) (command c ∷ inbox)

-- Neither an abort nor a shutdown.
abbrev pub IsHarmless : {w : Platform} → Event w → Type 0
IsHarmless Event.shutdown = ⊥
IsHarmless Event.abort_sequence = ⊥
IsHarmless _ = Unit

abbrev IsCalmCmd : SequenceCmd → Type 0
IsCalmCmd c = IsCalm (command c)

module _ {w : Platform} where
  commands_of-harmless :
      (earlier later : List (Event w))
      → All IsHarmless earlier
      → (commands_of (earlier ++ later) ≡ commands_of earlier ++ commands_of later)
        × All IsCalmCmd (commands_of earlier)
  commands_of-harmless [] later h = (refl, tt)
  commands_of-harmless (Event.shutdown ∷ rest) later (h, hs) = absurd h
  commands_of-harmless (Event.abort_sequence ∷ rest) later (h, hs) = absurd h
  commands_of-harmless (Event.pause_sequence ∷ rest) later (h, hs) =
      let (e, c) = commands_of-harmless rest later hs in (ap (◌∷◌ pause) e, (tt, c))
  commands_of-harmless (Event.resume_sequence ∷ rest) later (h, hs) =
      let (e, c) = commands_of-harmless rest later hs in (ap (◌∷◌ resume) e, (tt, c))
  commands_of-harmless (Event.start_sequence s a ∷ rest) later (h, hs) =
      commands_of-harmless rest later hs
  commands_of-harmless (Event.can_message_received i m ∷ rest) later (h, hs) =
      commands_of-harmless rest later hs
  commands_of-harmless (Event.node_field_updated l ∷ rest) later (h, hs) =
      commands_of-harmless rest later hs
  commands_of-harmless (Event.send_can_message i m ∷ rest) later (h, hs) =
      commands_of-harmless rest later hs
  commands_of-harmless (Event.relay_can_message f x ∷ rest) later (h, hs) =
      commands_of-harmless rest later hs

Merges-IsCalm :
    {cs : List SequenceCmd} {inbox : List Message}
    → Merges cs inbox
    → All IsCalmCmd cs
    → All IsCalm inbox
Merges-IsCalm nothing h = tt
Merges-IsCalm (times_out m) h = (tt, Merges-IsCalm m h)
Merges-IsCalm (gets c m) (h, hs) = (h, Merges-IsCalm m hs)

module _ {w : Platform} (managers : ℕ → NodeManager w) where
  requests-append :
      (k : ℕ) (ps qs : List (ParamState w.F64))
      → requests managers k (ps ++ qs)
        ≡ requests managers k ps ++ requests managers (k + length ps) qs
  unfolding requests
  requests-append k [] qs =
      let same : k ≡ k + 0 = omega arith in ap (λ j. requests managers j qs) same
  requests-append k (p ∷ ps) qs =
      let first = dispatched (set_value w (managers k) p.param (w.json_of_f64 p.value)) in
      let shift : k + 1 + length ps ≡ k + suc (length ps) = omega arith in
      ap (◌++◌ first) (
        requests-append (k + 1) ps qs
        ∙ ap (λ j. requests managers (k + 1) ps ++ requests managers j qs) shift)
      ∙ sym (append_assoc first (requests managers (k + 1) ps) _)

-- The thread ends, and it requested all that the sequence sets, or all that the abort sequence sets
-- behind a part of the sequence.
pub record IsAbortedBy {w : Platform} (managers : ℕ → NodeManager w)
    (schedule abort_schedule : List (TimedAction w.F64)) (r : Run w.F64) : Type 0 where
  pub sent_before : List (ParamState w.F64)
  pub unsent : List (ParamState w.F64)
  pub prefix : params schedule ≡ sent_before ++ unsent
  pub requested :
      (requests managers 0 r.sent ≡ requests managers 0 (params schedule))
      ⊎ (requests managers 0 r.sent
          ≡ requests managers 0 sent_before
            ++ requests managers (length sent_before) (params abort_schedule))
  pub ended : r.status ≡ finished

IsAborted-requested :
    {w : Platform} (managers : ℕ → NodeManager w)
    (schedule abort_schedule : List (TimedAction w.F64)) (r : Run w.F64)
    → IsAborted schedule abort_schedule r
    → IsAbortedBy managers schedule abort_schedule r
IsAborted-requested managers schedule abort_schedule r a = record {
  sent_before = a.sent_before;
  unsent = a.unsent;
  prefix = a.prefix;
  requested = elim a.sent [
    | inl e ↦ inl (ap (requests managers 0) e)
    | inr e ↦ inr (
        ap (requests managers 0) e
        ∙ requests-append managers 0 a.sent_before (params abort_schedule)
        ∙ ap (λ k. requests managers 0 a.sent_before ++ requests managers k (params abort_schedule))
            (omega arith))
  ];
  ended = a.ended;
}

-- Let a start be dispatched to a runner that has subscribed and runs nothing, and let an abort
-- event follow, with no other abort and no shutdown before it and no command behind it. Let the
-- times of the sequence fit a `Duration`, and the abort sequence only set parameters, at such
-- times. Then the runner, by what its listener received, has started the thread and sent it exactly
-- the commands of the events. And for every clock, all field values and all states of the node
-- manager: if the thread receives these commands in order, with time-outs anywhere between them and
-- enough behind them, it ends with `finished`, and the requests that it dispatched are those of the
-- whole sequence, if the abort came too late, or those of a part of it followed by those of the
-- whole abort sequence.
pub abort_event-IsAbortedBy :
    {w : Platform} (clock : ℕ → ℕ) (get_value : ℕ → String → Option w.F64)
    (managers : ℕ → NodeManager w) (dispatcher : EventDispatcher w) (seq abort_seq : Sequence w.F64)
    (earlier later : List (Event w)) (before : List Message) (n : ℕ)
    → All IsHarmless earlier
    → commands_of later ≡ []
    → Merges (commands_of earlier) before
    → All (Fits ⦃d = w.double⦄) (flatten_and_interpolate ⦃d = w.double⦄ seq)
    → All
        (IsPlain ⦃d = w.double⦄ clock get_value)
        (flatten_and_interpolate ⦃d = w.double⦄ abort_seq)
    → length (flatten_and_interpolate ⦃d = w.double⦄ abort_seq) ≤ n
    → let events = Event.start_sequence seq abort_seq ∷ earlier ++ (Event.abort_sequence ∷ later) in
      (l : EventListener w) × ((dispatch_all (subscribe_runner dispatcher) events).listeners
        ≡ map (receives events) dispatcher.listeners ++ (l ∷ []))
      × (sequence_runner_thread {w = w} Control.new (map Input.event l.channel)
          ≡ running seq abort_seq (commands_of earlier ++ (abort ∷ [])))
      × IsAbortedBy managers
          (flatten_and_interpolate ⦃d = w.double⦄ seq)
          (flatten_and_interpolate ⦃d = w.double⦄ abort_seq)
          (run_thread ⦃d = w.double⦄ clock get_value seq abort_seq
            (before ++ (command abort ∷ timeouts n)))
unfolding sequence_runner_thread handle_event run_sequence is_sequence_running Control.new
    contains_kind kind_of kind_beq
abort_event-IsAbortedBy {w} clock get_value managers dispatcher seq abort_seq earlier later before n
      h none m f p l =
    let rest = earlier ++ (Event.abort_sequence ∷ later) in
    let (commands, calm) = commands_of-harmless earlier (Event.abort_sequence ∷ later) h in
    (
      receives (Event.start_sequence seq abort_seq ∷ rest) runner_listener,
      dispatch_all-runner dispatcher (Event.start_sequence seq abort_seq ∷ rest),
      sequence_runner_thread-commands w seq abort_seq [] (keep (wants runner_listener) rest)
          ∙ ap (running seq abort_seq) (
              commands_of-keep rest
              ∙ commands
              ∙ ap (λ cs. commands_of earlier ++ (abort ∷ cs)) none),
      IsAborted-requested managers _ _ _ (
          run_thread-abort ⦃d = w.double⦄ clock get_value seq abort_seq before n
            (Merges-IsCalm m calm) f p l),
    )
