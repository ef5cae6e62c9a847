-- ===== src/Examples/Threads.antt =====
-- The execution of the example sequence, and the runner.
use ferro_flow.Prelude.{
  ℕ, ◌*◌, ◌≡◌, ◌≢◌, refl, String, List, [], ◌∷◌, ◌++◌, Option, none, arith, All, pos,
}
use ferro_flow.Numbers.Sample.{Sample, fin, sample_double}
use ferro_flow.Sequence.{Sequence, TimedAction, set_param}
use ferro_flow.Sequence.Builder.{flatten_and_interpolate}
use ferro_flow.Sequence.Runner.{
  Message, Position, command, timeout, pause, resume, abort, aborted, finished, execute_actions,
  run_thread,
}
use ferro_flow.Sequence.Runner.Execution.{params, Sends, run_thread-Sends}
use ferro_flow.Sequence.Runner.Completion.{timeouts, IsPlain, execute_actions-finished}
use ferro_flow.Sequence.Runner.Due.Moments.{IsSetInTime, execute_actions-IsSetInTime}
use ferro_flow.Examples.Sequences.{hotfire}

-- Three nanoseconds between two readings.
abbrev pub clock : ℕ → ℕ
clock k = k * 3

abbrev pub no_value : ℕ → String → Option Sample
no_value at field = none

abbrev safe : Sequence Sample
safe = record hotfire { name = "safe" }

abbrev inbox : List Message
inbox = timeout ∷ command pause ∷ command resume ∷ timeout ∷ command abort ∷ timeout ∷ []

run_thread-Sends_example :
    let begin : Position = record { at = 0; inbox = inbox } in
    let main = execute_actions clock no_value (flatten_and_interpolate hotfire) begin in
    let tail = execute_actions clock no_value (flatten_and_interpolate safe) main.position in
    let r = run_thread clock no_value hotfire safe inbox in
    Sends (params (flatten_and_interpolate hotfire)) main
    × Sends (params (flatten_and_interpolate safe)) tail
    × (main.status ≡ aborted → (r.sent ≡ main.sent ++ tail.sent) × (r.status ≡ tail.status))
    × (main.status ≢ aborted → r ≡ main)
run_thread-Sends_example = run_thread-Sends clock no_value hotfire safe inbox

abbrev plain : List (TimedAction Sample)
plain =
    record {
      timestamp = fin (pos 0);
      action = set_param (record { param = "valve"; value = fin (pos 1) });
    }
    ∷ record {
      timestamp = fin (pos 3);
      action = set_param (record { param = "valve"; value = fin (pos 5) });
    }
    ∷ []

plain-IsPlain : All (IsPlain clock no_value) plain
plain-IsPlain = (((_, refl), (0, refl)), (((_, refl), (30, refl)), tt))

execute_actions-finished_example :
    let r = execute_actions clock no_value plain (record { at = 0; inbox = timeouts 2 }) in
    (r.status ≡ finished) × (r.sent ≡ params plain)
execute_actions-finished_example =
    execute_actions-finished clock no_value plain 0 2 plain-IsPlain (omega arith)

-- A pause in the wait for the second parameter, after which the wait times out.
abbrev paused_inbox : List Message
paused_inbox = timeout ∷ command pause ∷ command resume ∷ timeout ∷ []

execute_actions-IsSetInTime_example :
    All
      (IsSetInTime clock no_value (clock 0) plain 0 (record { at = 1; inbox = paused_inbox }))
      (execute_actions clock no_value plain (record { at = 0; inbox = paused_inbox })).sent
execute_actions-IsSetInTime_example =
    execute_actions-IsSetInTime clock no_value plain (record { at = 0; inbox = paused_inbox })
