-- ===== src/Examples/Aborts.antt =====
-- The example sequence is paused, resumed and then aborted.
use ferro_flow.Prelude.{◌≤◌, refl, List, [], ◌∷◌, ◌++◌, none, All, arith, pos, length}
use ferro_flow.Prelude.Assoc.{lookup, insert, remove}
use ferro_flow.Numbers.Sample.{Sample, fin, sample_double}
use ferro_flow.Sequence.{Sequence, set_param}
use ferro_flow.Sequence.Builder.{flatten_and_interpolate, points_before, interpolate_linear}
use ferro_flow.Sequence.Runner.{Message, command, timeout, pause, resume, abort, run_thread}
use ferro_flow.Sequence.Runner.Completion.{timeouts, IsPlain}
use ferro_flow.Sequence.Runner.Abortion.{Fits, IsAborted, run_thread-abort}
use ferro_flow.Examples.Sequences.{hotfire}
use ferro_flow.Examples.Threads.{clock, no_value}

-- The valve is closed at once.
abbrev pub close : Sequence Sample
close = record {
  name = "close";
  globals = record {
    start_time = fin (pos 0);
    end_time = fin (pos 1);
    interpolation_interval = 20;
    interpolations = [];
  };
  steps =
      record {
        name = "close";
        description = none;
        timestamp = fin (pos 0);
        actions =
            record {
              timestamp = fin (pos 0);
              action = set_param (record { param = "valve"; value = fin (pos 0) });
            }
            ∷ [];
      }
      ∷ [];
}

pub close-IsPlain : All (IsPlain clock no_value) (flatten_and_interpolate close)
unfolding flatten_and_interpolate lookup
close-IsPlain = (((_, refl), (0, refl)), tt)

pub close-length : length (flatten_and_interpolate close) ≤ 1
unfolding flatten_and_interpolate lookup
close-length = omega arith

pub hotfire-Fits : All Fits (flatten_and_interpolate hotfire)
unfolding flatten_and_interpolate points_before interpolate_linear lookup insert remove
hotfire-Fits = (
  (0, refl),
  (
    (70, refl),
    ((20, refl), ((40, refl), ((60, refl), ((80, refl), ((100, refl), ((110, refl), tt)))))),
  ),
)

-- Paused, resumed, and aborted in the wait that follows.
abbrev pub before : List Message
before = timeout ∷ command pause ∷ command resume ∷ timeout ∷ []

run_thread-abort_example :
    IsAborted
      (flatten_and_interpolate hotfire)
      (flatten_and_interpolate close)
      (run_thread clock no_value hotfire close (before ++ (command abort ∷ timeouts 1)))
run_thread-abort_example =
    run_thread-abort clock no_value hotfire close before 1 (tt, (tt, (tt, (tt, tt)))) hotfire-Fits
      close-IsPlain close-length
