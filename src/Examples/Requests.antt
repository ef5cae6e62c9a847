-- ===== src/Examples/Requests.antt =====
-- The example sequence is started, paused, resumed and aborted by events, and its writes.
use ferro_flow.Prelude.{◌≡◌, refl, List, [], ◌∷◌, ◌++◌, map, All, ℕ}
use ferro_flow.Numbers.Sample.{sample_double}
use ferro_flow.Platform.Sample.{sample}
use ferro_flow.Events.{Event, EventListener, dispatch_all}
use ferro_flow.Events.Delivery.{receives}
use ferro_flow.Sequence.Builder.{flatten_and_interpolate}
use ferro_flow.Sequence.Runner.{command, pause, resume, abort, run_thread}
use ferro_flow.Sequence.Runner.Completion.{timeouts}
use ferro_flow.Sequence.Runner.Execution.{params}
use ferro_flow.Sequence.Runner.Control
use ferro_flow.Sequence.Runner.Control.{Input, sequence_runner_thread, subscribe_runner}
use ferro_flow.Sequence.Runner.Control.Hearing.{dispatch_all-commands}
use ferro_flow.Sequence.Runner.Control.Exclusion.{commands_of, running}
use ferro_flow.Sequence.Runner.Requests.{requests}
use ferro_flow.Sequence.Runner.Requests.Aborts.{
  nothing, times_out, gets, IsAbortedBy, abort_event-IsAbortedBy,
}
use ferro_flow.Sequence.Runner.Requests.Writes.{Writes, run_thread-Writes}
use ferro_flow.Nodes.Manager.{NodeManager}
use ferro_flow.Examples.Sequences.{hotfire}
use ferro_flow.Examples.Threads.{clock, no_value}
use ferro_flow.Examples.Channels.{dispatcher}
use ferro_flow.Examples.Aborts.{close, before, close-IsPlain, close-length, hotfire-Fits}
use ferro_flow.Examples.Nodes.{registered}

-- A further start is refused.
abbrev earlier : List (Event sample)
earlier = Event.pause_sequence ∷ Event.start_sequence close close ∷ Event.resume_sequence ∷ []

abbrev later : List (Event sample)
later = Event.start_sequence close close ∷ []

abbrev managers : ℕ → NodeManager sample
managers k = registered

abbrev events : List (Event sample)
events = Event.start_sequence hotfire close ∷ earlier ++ (Event.abort_sequence ∷ later)

dispatch_all-commands_example :
    (l : EventListener sample) × ((dispatch_all (subscribe_runner dispatcher) events).listeners
      ≡ map (receives events) dispatcher.listeners ++ (l ∷ []))
    × (sequence_runner_thread {w = sample} (running hotfire close []) (map Input.event l.channel)
        ≡ running hotfire close ([] ++ commands_of events))
dispatch_all-commands_example = dispatch_all-commands dispatcher events hotfire close []

abort_event-IsAbortedBy_example :
    (l : EventListener sample) × ((dispatch_all (subscribe_runner dispatcher) events).listeners
      ≡ map (receives events) dispatcher.listeners ++ (l ∷ []))
    × (sequence_runner_thread {w = sample} Control.new (map Input.event l.channel)
        ≡ running hotfire close (commands_of earlier ++ (abort ∷ [])))
    × IsAbortedBy managers
        (flatten_and_interpolate hotfire)
        (flatten_and_interpolate close)
        (run_thread clock no_value hotfire close (before ++ (command abort ∷ timeouts 1)))
abort_event-IsAbortedBy_example =
    abort_event-IsAbortedBy clock no_value managers dispatcher hotfire close earlier later before 1
      (tt, (tt, (tt, tt))) refl (times_out (gets pause (gets resume (times_out nothing))))
      hotfire-Fits close-IsPlain close-length

run_thread-Writes_example :
    All
      (Writes managers
        (params (flatten_and_interpolate hotfire) ++ params (flatten_and_interpolate close)))
      (requests managers 0 (run_thread clock no_value hotfire close (before ++ timeouts 9)).sent)
run_thread-Writes_example =
    run_thread-Writes clock no_value managers hotfire close (before ++ timeouts 9)
