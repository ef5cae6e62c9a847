-- ===== src/Sequence/Runner/Control.antt =====
-- `SequenceRunner` and its event loop (src/sequence/mod.rs). Of a spawned thread the runner knows
-- the channel into it and whether it has finished; the finish comes from outside, between two
-- events.
pub mod Exclusion
pub mod Hearing
use ferro_flow.Prelude.{
  ℕ, ◌+◌, Bool, true, false, not, List, [], ◌∷◌, ◌++◌, Option, none, some, Result, ok, err,
  if◌then◌else◌,
}
use ferro_flow.Platform.{Platform}
use ferro_flow.Events.{Event, EventKind, EventDispatcher, subscribe}
use ferro_flow.Sequence.{Sequence}
use ferro_flow.Sequence.Runner.{SequenceCmd, pause, resume, abort, shutdown}

pub record SequenceHandle (F : Type 0) : Type 0 where
  pub seq : Sequence F
  pub abort_seq : Sequence F
  pub controller : List SequenceCmd
  pub is_finished : Bool

pub data RunnerError : Type 0 where
  still_running : RunnerError

pub record SequenceRunner (F : Type 0) : Type 0 where
  pub last_sequence_handle : Option (SequenceHandle F)

module _ {F : Type 0} where
  unfoldable pub new : SequenceRunner F
  new = record { last_sequence_handle = none }

  abbrev is_running_handle : Option (SequenceHandle F) → Bool
  is_running_handle none = false
  is_running_handle (some handle) = not handle.is_finished

  unfoldable pub is_sequence_running : SequenceRunner F → Bool
  is_sequence_running r = is_running_handle r.last_sequence_handle

  unfoldable pub run_sequence :
      SequenceRunner F → Sequence F → Sequence F → Result RunnerError (SequenceRunner F)
  unfolding is_sequence_running
  run_sequence r seq abort_seq =
      if is_sequence_running r
      then err still_running
      else ok (record {
        last_sequence_handle =
            some
              (record { seq = seq; abort_seq = abort_seq; controller = []; is_finished = false });
      })

  abbrev send : SequenceCmd → Option (SequenceHandle F) → Option (SequenceHandle F)
  send cmd none = none
  send cmd (some handle) = some (record handle { controller = handle.controller ++ (cmd ∷ []) })

  -- "If no sequence is running, nothing happens."
  unfoldable pub control_sequence : SequenceRunner F → SequenceCmd → SequenceRunner F
  unfolding is_sequence_running
  control_sequence r cmd =
      if not (is_sequence_running r)
      then r
      else record { last_sequence_handle = send cmd r.last_sequence_handle }

  -- The thread ends.
  abbrev pub finish : Option (SequenceHandle F) → Option (SequenceHandle F)
  finish none = none
  finish (some handle) = some (record handle { is_finished = true })

-- The first thing that the spawned thread does.
unfoldable pub subscribe_runner : {w : Platform} → EventDispatcher w → EventDispatcher w
subscribe_runner dispatcher =
    subscribe dispatcher (EventKind.sequence ∷ EventKind.shutdown ∷ []) "Sequence Runner thread"

-- What the loop meets: an event, or the end of the spawned thread.
pub data Input (w : Platform) : Type 0 where
  event : Event w → Input w
  thread_finishes : Input w

abbrev keep_running :
    {F : Type 0} → SequenceRunner F → Result RunnerError (SequenceRunner F) → SequenceRunner F
keep_running r (ok r') = r'
keep_running r (err e) = r

module _ {w : Platform} where
  -- One round of the loop; an error of `run_sequence` is printed.
  unfoldable pub handle_event : SequenceRunner w.F64 → Event w → SequenceRunner w.F64
  unfolding run_sequence control_sequence
  handle_event r Event.shutdown = control_sequence r shutdown
  handle_event r (Event.start_sequence seq abort_seq) =
      keep_running r (run_sequence r seq abort_seq)
  handle_event r Event.pause_sequence = control_sequence r pause
  handle_event r Event.resume_sequence = control_sequence r resume
  handle_event r Event.abort_sequence = control_sequence r abort
  handle_event r _ = r

  -- The loop of `spawn_sequence_runner_thread`, which a shutdown ends.
  unfoldable pub sequence_runner_thread :
      SequenceRunner w.F64 → List (Input w) → SequenceRunner w.F64
  unfolding handle_event
  sequence_runner_thread r [] = r
  sequence_runner_thread r (thread_finishes ∷ rest) =
      sequence_runner_thread (record { last_sequence_handle = finish r.last_sequence_handle }) rest
  sequence_runner_thread r (event Event.shutdown ∷ rest) = handle_event r Event.shutdown
  sequence_runner_thread r (event e ∷ rest) = sequence_runner_thread (handle_event r e) rest
