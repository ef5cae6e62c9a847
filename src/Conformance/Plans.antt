-- ===== src/Conformance/Plans.antt =====
-- The sequences under tests/sequences, as what the TOML parser hands to the deserializers of
-- src/sequence/sequence_definition.rs. What serde derives puts their results together; `none` is a
-- file that it Refuses.
use ferro_flow.Prelude.{ℕ, String, List, [], ◌∷◌, Option, none, some, Result, ok, ◌>>=◌, to_option}
use ferro_flow.Numbers.Sample.{Sample, fin, sub_ℕ}
use ferro_flow.Conformance.Decimal.{decimal_double, whole, milli}
use ferro_flow.Sequence.{
  Sequence, Step, HoldMode, InterpolationMode, equal, greater, always, conditional,
}
use ferro_flow.Sequence.Loading.{
  RawStep, RawParamState, LoadError, duration_from_f64, deserialize_step,
}

pub record SequenceFile : Type 0 where
  pub name : String
  pub start_time : Sample
  pub end_time : Sample
  pub interpolation_interval : Sample
  pub interpolations : List (String × InterpolationMode)
  pub steps : List (RawStep Sample)

abbrev deserialize_steps : List (RawStep Sample) → Result LoadError (List (Step Sample))
deserialize_steps [] = ok []
deserialize_steps (raw ∷ rest) = do
  step ← deserialize_step raw
  steps ← deserialize_steps rest
  ok (step ∷ steps)

abbrev deserialize : SequenceFile → Result LoadError (Sequence Sample)
deserialize file = do
  interval ← duration_from_f64 file.interpolation_interval
  steps ← deserialize_steps file.steps
  ok (record {
    name = file.name;
    globals = record {
      start_time = file.start_time;
      end_time = file.end_time;
      interpolation_interval = interval;
      interpolations = file.interpolations;
    };
    steps = steps;
  })

abbrev pub read : SequenceFile → Option (Sequence Sample)
read file = to_option (deserialize file)

abbrev pub below_zero : ℕ → Sample
below_zero thousandths = fin (sub_ℕ 0 thousandths)

abbrev set : Sample → String → Sample → RawParamState Sample
set at param value = record { relative_timestamp = at; param = param; value = value }

abbrev Sets : String → Sample → List (RawParamState Sample) → RawStep Sample
Sets name at params = record {
  name = name;
  description = none;
  timestamp = at;
  set_params = some params;
  hold = none;
}

abbrev holds : String → Sample → HoldMode Sample → RawStep Sample
holds name at mode = record {
  name = name;
  description = none;
  timestamp = at;
  set_params = none;
  hold = some mode;
}

abbrev described : RawStep Sample → String → RawStep Sample
described step text = record step { description = some text }

abbrev two_servos : List (String × InterpolationMode)
two_servos = ("servo1", InterpolationMode.linear) ∷ ("servo2", InterpolationMode.none) ∷ []

-- abort.toml
abbrev pub abort_file : SequenceFile
abort_file = record {
  name = "Test Abort Sequence Valid";
  start_time = whole 0;
  end_time = whole 1;
  interpolation_interval = milli 100;
  interpolations = [];
  steps = Sets "Step1" (whole 0) (set (whole 0) "abort" (whole 1) ∷ []) ∷ [];
}

abbrev first_step : RawStep Sample
first_step =
    described
      (Sets "Step1" (whole 1)
        (set (whole 0) "servo1" (whole 12) ∷ set (milli 500) "valve1" (whole 12) ∷ []))
      "Description of Step1"

-- valid_set_param.toml
abbrev pub valid_set_param : SequenceFile
valid_set_param = record {
  name = "Test Sequence Valid";
  start_time = whole 0;
  end_time = whole 2;
  interpolation_interval = milli 100;
  interpolations = [];
  steps = first_step ∷ [];
}

-- valid_hold.toml
abbrev pub valid_hold : SequenceFile
valid_hold = record {
  name = "Test Sequence Valid";
  start_time = whole 0;
  end_time = whole 2;
  interpolation_interval = milli 100;
  interpolations = [];
  steps = holds "Hold1" (whole 1) always ∷ [];
}

-- valid.toml
abbrev pub valid : SequenceFile
valid = record {
  name = "Test Sequence Valid";
  start_time = below_zero 2000;
  end_time = whole 5;
  interpolation_interval = milli 100;
  interpolations = two_servos;
  steps =
      first_step
      ∷ holds "Hold1" (whole 2) always
      ∷ holds "Hold2" (whole 3) (
          conditional (
            record { field = "servo1"; comparison = greater; value = whole 5 }
            ∷ record { field = "valve1"; comparison = equal; value = whole 0 }
            ∷ []))
      ∷ described (Sets "Step2" (whole 4) (set (milli 100) "servo1" (whole 12) ∷ []))
          "Description of Step2"
      ∷ [];
}

-- invalid_global_times.toml
abbrev pub invalid_global_times : SequenceFile
invalid_global_times = record {
  name = "Test Sequence Invalid: global times";
  start_time = whole 5;
  end_time = whole 2;
  interpolation_interval = milli 10;
  interpolations = [];
  steps = [];
}

-- invalid_interpolation_interval.toml
abbrev pub invalid_interpolation_interval : SequenceFile
invalid_interpolation_interval = record {
  name = "Test Sequence Invalid: interpolations interval";
  start_time = below_zero 2000;
  end_time = whole 5;
  interpolation_interval = below_zero 100;
  interpolations = [];
  steps = [];
}

abbrev servo_at : String → Sample → Sample → String → RawStep Sample
servo_at name at relative text =
    described (Sets name at (set relative "servo1" (whole 0) ∷ [])) text

abbrev two_steps : String → RawStep Sample → RawStep Sample → SequenceFile
two_steps name one two = record {
  name = name;
  start_time = below_zero 2000;
  end_time = whole 5;
  interpolation_interval = milli 100;
  interpolations = two_servos;
  steps = one ∷ two ∷ [];
}

-- invalid_step_times.toml
abbrev pub invalid_step_times : SequenceFile
invalid_step_times =
    two_steps "Test Sequence Invalid: step times"
      (servo_at "Step1" (below_zero 9000) (whole 0) "Description of Step1")
      (servo_at "Step2" (whole 9) (whole 0) "Description of Step2")

-- invalid_action_times.toml
abbrev pub invalid_action_times : SequenceFile
invalid_action_times =
    two_steps "Test Sequence Invalid: action times"
      (servo_at "Step1" (whole 0) (whole 3) "Description of Step1")
      (servo_at "Step2" (whole 1) (whole 0) "Description of Step2")
