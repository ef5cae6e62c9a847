-- ===== src/Sequence/Runner/Control/Exclusion.antt =====
-- One sequence at a time: what a running sequence's thread receives, and that nothing replaces it.
use ferro_flow.Prelude.{
  ◌≡◌, refl, sym, ap, ◌∙◌, false, List, [], ◌∷◌, ◌++◌, map, some, append_assoc, append-nil,
}
use ferro_flow.Platform.{Platform}
use ferro_flow.Events.{Event}
use ferro_flow.Sequence.{Sequence}
use ferro_flow.Sequence.Runner.{SequenceCmd, pause, resume, abort, shutdown}
use ferro_flow.Sequence.Runner.Control.{
  SequenceRunner, Input, is_sequence_running, run_sequence, control_sequence, handle_event,
  sequence_runner_thread,
}

-- The commands that the events stand for, up to the first shutdown.
abbrev pub commands_of : {w : Platform} → List (Event w) → List SequenceCmd
commands_of [] = []
commands_of (Event.shutdown ∷ rest) = shutdown ∷ []
commands_of (Event.pause_sequence ∷ rest) = pause ∷ commands_of rest
commands_of (Event.resume_sequence ∷ rest) = resume ∷ commands_of rest
commands_of (Event.abort_sequence ∷ rest) = abort ∷ commands_of rest
commands_of (_ ∷ rest) = commands_of rest

abbrev pub running : {F : Type 0} → Sequence F → Sequence F → List SequenceCmd → SequenceRunner F
running seq abort_seq sent = record {
  last_sequence_handle =
      some (record { seq = seq; abort_seq = abort_seq; controller = sent; is_finished = false });
}

-- While a sequence's thread has not finished, the runner keeps it whatever events arrive, a further
-- start included, and sends it exactly the pause, resume and abort commands and the shutdown, in
-- the order of the events.
pub sequence_runner_thread-commands :
    (w : Platform) (seq abort_seq : Sequence w.F64) (sent : List SequenceCmd)
    (events : List (Event w))
    → sequence_runner_thread {w = w} (running seq abort_seq sent) (map Input.event events)
      ≡ running seq abort_seq (sent ++ commands_of events)
unfolding sequence_runner_thread handle_event run_sequence control_sequence is_sequence_running
sequence_runner_thread-commands w seq abort_seq sent [] =
    ap (running seq abort_seq) (sym (append-nil sent))
sequence_runner_thread-commands w seq abort_seq sent (Event.shutdown ∷ rest) = refl
sequence_runner_thread-commands w seq abort_seq sent (Event.pause_sequence ∷ rest) =
    sequence_runner_thread-commands w seq abort_seq (sent ++ (pause ∷ [])) rest
    ∙ ap (running seq abort_seq) (append_assoc sent (pause ∷ []) (commands_of rest))
sequence_runner_thread-commands w seq abort_seq sent (Event.resume_sequence ∷ rest) =
    sequence_runner_thread-commands w seq abort_seq (sent ++ (resume ∷ [])) rest
    ∙ ap (running seq abort_seq) (append_assoc sent (resume ∷ []) (commands_of rest))
sequence_runner_thread-commands w seq abort_seq sent (Event.abort_sequence ∷ rest) =
    sequence_runner_thread-commands w seq abort_seq (sent ++ (abort ∷ [])) rest
    ∙ ap (running seq abort_seq) (append_assoc sent (abort ∷ []) (commands_of rest))
sequence_runner_thread-commands w seq abort_seq sent (Event.start_sequence s a ∷ rest) =
    sequence_runner_thread-commands w seq abort_seq sent rest
sequence_runner_thread-commands w seq abort_seq sent (Event.can_message_received i m ∷ rest) =
    sequence_runner_thread-commands w seq abort_seq sent rest
sequence_runner_thread-commands w seq abort_seq sent (Event.node_field_updated l ∷ rest) =
    sequence_runner_thread-commands w seq abort_seq sent rest
sequence_runner_thread-commands w seq abort_seq sent (Event.send_can_message i m ∷ rest) =
    sequence_runner_thread-commands w seq abort_seq sent rest
sequence_runner_thread-commands w seq abort_seq sent (Event.relay_can_message f x ∷ rest) =
    sequence_runner_thread-commands w seq abort_seq sent rest
