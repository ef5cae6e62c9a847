-- ===== src/Examples/Schedules.antt =====
-- The schedule of the example sequence.
use ferro_flow.Prelude.{
  ℕ, ok, length, negsuc, arith, none, ◌∷◌, true, ◌-◌, ◌≡◌, refl, false, [], map, some, All, pos,
  string_eq,
}
use ferro_flow.Prelude.Assoc.{lookup}
use ferro_flow.Numbers.{lt}
use ferro_flow.Numbers.Sample.{
  Sample, fin, nan, neg_inf, pos_inf, sample_double, Sample-IsOrdered, Sample-IsShiftable,
  Sample-IsGrowing,
}
use ferro_flow.Sequence.{InterpolationMode, ParamState, set_param, Sequence}
use ferro_flow.Sequence.Builder.{
  TimedValue, ticks, tick_value, tick_count, points_before, action_of, flat_actions, is_linear,
  flatten_and_interpolate,
}
use ferro_flow.Sequence.Builder.Points.{points_before_lem}
use ferro_flow.Sequence.Builder.Zero.{HasZero, with_interval, interval-zero}
use ferro_flow.Sequence.Loading.{duration_from_f64}
use ferro_flow.Sequence.Validation.{validate}
use ferro_flow.Sequence.Builder.Schedule.{Weave, flatten_and_interpolate-Weave}
use ferro_flow.Sequence.Builder.Delay.{at, HasLateTicks, flatten_and_interpolate-HasLateTicks}
use ferro_flow.Sequence.Builder.Nonneg.{IsDue, flatten_and_interpolate-IsDue}
use ferro_flow.Examples.Sequences.{hotfire, hotfire-valid}

abbrev earlier : TimedValue Sample
earlier = record { timestamp = fin (pos 1); value = fin (pos 10) }

abbrev later : TimedValue Sample
later = record { timestamp = fin (pos 6); value = fin (pos 90) }

-- Five seconds between the values and two between the ticks: of the ticks at 3 and 5, the second is
-- missing.
points_before_lem_example :
    points_before 20 "valve" (some earlier) later
    ≡ map (action_of "valve") (
        ticks
          (tick_value earlier later (fin (pos 2)) (fin (pos 5)))
          (tick_count (fin (pos 5)) (fin (pos 2)) - 1)
          1)
points_before_lem_example = points_before_lem 20 "valve" earlier later refl refl

flatten_and_interpolate-Weave_example :
    Weave hotfire.globals (flat_actions hotfire.steps) (flatten_and_interpolate hotfire)
flatten_and_interpolate-Weave_example = flatten_and_interpolate-Weave hotfire

flatten_and_interpolate-IsDue_example : All IsDue (flatten_and_interpolate hotfire)
flatten_and_interpolate-IsDue_example =
    flatten_and_interpolate-IsDue Sample-IsGrowing Sample-IsOrdered Sample-IsShiftable hotfire refl
      hotfire-valid

-- The valve goes from 0 to 80 in ten seconds, and the igniter is switched at the fifth.
abbrev start_valve : ParamState Sample
start_valve = record { param = "valve"; value = fin (pos 0) }

abbrev ramp : Sequence Sample
ramp = record {
  name = "ramp";
  globals = record {
    start_time = fin (pos 0);
    end_time = fin (pos 20);
    interpolation_interval = 20;
    interpolations = ("valve", InterpolationMode.linear) ∷ [];
  };
  steps =
      record {
        name = "ramp";
        description = none;
        timestamp = fin (pos 0);
        actions =
            at (fin (pos 0)) (set_param start_valve)
            ∷ at (fin (pos 5)) (set_param (record { param = "igniter"; value = fin (pos 1) }))
            ∷ at (fin (pos 10)) (set_param (record start_valve { value = fin (pos 80) }))
            ∷ [];
      }
      ∷ [];
}

ramp-flat :
    flat_actions ramp.steps
    ≡ at (fin (pos 0)) (set_param start_valve)
      ∷ at (fin (pos 5)) (set_param (record { param = "igniter"; value = fin (pos 1) }))
      ∷ at (fin (pos 10)) (set_param (record start_valve { value = fin (pos 80) }))
      ∷ []
unfolding flat_actions
ramp-flat = refl

valve-linear : is_linear (lookup "valve" ramp.globals.interpolations) ≡ true
unfolding is_linear lookup
valve-linear = refl

flatten_and_interpolate-HasLateTicks_example :
    HasLateTicks ramp.globals start_valve
      (fin (pos 80))
      (fin (pos 0))
      (fin (pos 10))
      []
      (at (fin (pos 5)) (set_param (record { param = "igniter"; value = fin (pos 1) })) ∷ [])
      []
      (flatten_and_interpolate ramp)
flatten_and_interpolate-HasLateTicks_example =
    flatten_and_interpolate-HasLateTicks ramp start_valve (fin (pos 80)) (fin (pos 0))
      (fin (pos 10)) []
      (at (fin (pos 5)) (set_param (record { param = "igniter"; value = fin (pos 1) })) ∷ []) []
      ramp-flat valve-linear (refl, tt) refl refl

positive-div :
    (x : Sample)
    → sample_double.is_finite x ≡ true
    → lt (fin (pos 0)) x ≡ true
    → sample_double.div x (fin (pos 0)) ≡ pos_inf
positive-div (fin (pos n)) f h = ground arith
positive-div (fin (negsuc n)) f h = absurd (ground arith)
positive-div nan f h = absurd (ground arith)
positive-div neg_inf f h = absurd (ground arith)
positive-div pos_inf f h = absurd (ground arith)

positive-half :
    (x : Sample)
    → sample_double.is_finite x ≡ true
    → lt (fin (pos 0)) x ≡ true
    → lt (sample_double.div x (fin (pos 2))) (fin (pos 0)) ≡ false
positive-half (fin (pos n)) f h = ground arith
positive-half (fin (negsuc n)) f h = absurd (ground arith)
positive-half nan f h = absurd (ground arith)
positive-half neg_inf f h = absurd (ground arith)
positive-half pos_inf f h = absurd (ground arith)

abbrev usize_max : ℕ
usize_max = 0xffff_ffff_ffff_ffff

sample-HasZero : HasZero Sample usize_max
sample-HasZero = record {
  nought_finite = refl;
  nought_positive = refl;
  no_time = refl;
  no_secs = refl;
  div_nought = positive-div;
  half_positive = positive-half;
  floor_infinity = refl;
  usize_infinity = refl;
}

interval-zero_example :
    (duration_from_f64 (fin (pos 0)) ≡ ok 0)
    × (validate (with_interval 0 hotfire) ≡ validate hotfire)
    × (length (points_before 0 "valve" (some earlier) later) ≡ usize_max - 1)
interval-zero_example = interval-zero sample-HasZero hotfire "valve" earlier later refl refl refl
