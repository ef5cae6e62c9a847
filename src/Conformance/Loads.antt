-- ===== src/Conformance/Loads.antt =====
-- The unit tests of src/sequence/sequence_definition.rs, which load the files of Plans, and of
-- src/sequence/sequence_builder.rs.
use ferro_flow.Prelude.{◌≡◌, refl, ℕ, ◌*◌, String, [], ◌∷◌, Option, none, some, Result, ok, err}
use ferro_flow.Numbers.Sample.{Sample}
use ferro_flow.Conformance.Decimal.{decimal_double, whole}
use ferro_flow.Conformance.Plans.{
  SequenceFile, read, valid, invalid_global_times, invalid_interpolation_interval,
  invalid_step_times, invalid_action_times,
}
use ferro_flow.Sequence.{Sequence}
use ferro_flow.Sequence.Builder.{TimedValue, interpolate_linear, ticks, tick_value, tick_count}
use ferro_flow.Sequence.Loading.{
  LoadError, load_from_path, duration_from_f64, deserialize_step, negative_duration,
  not_deserialized,
}
use ferro_flow.Sequence.Validation.{
  validate, start_after_zero, step_before_start, action_after_next,
}

abbrev load : SequenceFile → Result LoadError (Sequence Sample)
load file = load_from_path (read file)

abbrev name_of : Result LoadError (Sequence Sample) → Option String
name_of (ok seq) = some seq.name
name_of (err e) = none

abbrev TestLoadSuccess : Type 0
TestLoadSuccess = name_of (load valid) ≡ some "Test Sequence Valid"

abbrev TestLoadInvalidGlobalTimes : Type 0
TestLoadInvalidGlobalTimes = load invalid_global_times ≡ err (LoadError.invalid start_after_zero)

-- The error of the interval is in the message of the file that is not deserialized.
abbrev TestLoadInvalidInterpolationInterval : Type 0
TestLoadInvalidInterpolationInterval =
    (load invalid_interpolation_interval ≡ err not_deserialized)
    × (duration_from_f64 invalid_interpolation_interval.interpolation_interval
        ≡ err negative_duration)

abbrev TestLoadInvalidStepTimes : Type 0
TestLoadInvalidStepTimes =
    load invalid_step_times ≡ err (LoadError.invalid (step_before_start "Step1"))

abbrev TestLoadInvalidActionTimes : Type 0
TestLoadInvalidActionTimes =
    load invalid_action_times ≡ err (LoadError.invalid (action_after_next "Step1"))

abbrev timed : ℕ → ℕ → TimedValue Sample
timed timestamp value = record { timestamp = whole timestamp; value = whole value }

abbrev seconds : ℕ → ℕ
seconds n = n * 1_000_000_000

abbrev TestInterpolateLinear : Type 0
TestInterpolateLinear =
    interpolate_linear (timed 0 0) (timed 10 100) (seconds 2)
    ≡ some (timed 0 0 ∷ timed 2 20 ∷ timed 4 40 ∷ timed 6 60 ∷ timed 8 80 ∷ timed 10 100 ∷ [])

abbrev TestInterpolateLinearSameValue : Type 0
TestInterpolateLinearSameValue = interpolate_linear (timed 0 100) (timed 10 100) (seconds 2) ≡ none

abbrev TestInterpolateIntervalTooLarge : Type 0
TestInterpolateIntervalTooLarge = interpolate_linear (timed 0 0) (timed 10 100) (seconds 7) ≡ none

-- The tests of the loader pass.
load_tests_pass :
    TestLoadSuccess × TestLoadInvalidGlobalTimes × TestLoadInvalidInterpolationInterval
    × TestLoadInvalidStepTimes × TestLoadInvalidActionTimes
unfolding load_from_path duration_from_f64 deserialize_step validate
load_tests_pass = (refl, refl, (refl, refl), refl, refl)

-- So do those of the interpolation.
interpolation_tests_pass :
    TestInterpolateLinear × TestInterpolateLinearSameValue × TestInterpolateIntervalTooLarge
unfolding interpolate_linear ticks tick_value tick_count
interpolation_tests_pass = (refl, refl, refl)
