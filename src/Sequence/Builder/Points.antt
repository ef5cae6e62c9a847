-- ===== src/Sequence/Builder/Points.antt =====
-- What `interpolate_linear` and the two pops leave: the inner ticks, by their exact count.
use ferro_flow.Prelude.{
  ℕ, zero, suc, ◌+◌, ◌-◌, ◌≡◌, refl, ap, true, false, String, [], ◌∷◌, map, none, some, length,
  arith,
}
use ferro_flow.Numbers.{Double, eq, lt}
use ferro_flow.Sequence.Builder.{
  TimedValue, pop_front, pop_back, ticks, tick_value, tick_count, interpolate_linear, points_before,
  action_of,
}

module _ {F : Type 0} ⦃d : Double F⦄ where
  pop_back-ticks :
      (value_at : ℕ → TimedValue F) (n tick : ℕ)
      → pop_back (ticks value_at (suc n) tick) ≡ ticks value_at n tick
  unfolding ticks
  pop_back-ticks value_at zero tick = refl
  pop_back-ticks value_at (suc n) tick =
      ap (◌∷◌ (value_at tick)) (pop_back-ticks value_at n (tick + 1))

  inner-ticks :
      (value_at : ℕ → TimedValue F) (n : ℕ)
      → pop_back (pop_front (ticks value_at (suc n) 0)) ≡ ticks value_at (n - 1) 1
  unfolding ticks
  inner-ticks value_at zero = refl
  inner-ticks value_at (suc n) =
      let e : suc n - 1 ≡ n = omega arith in rw e (pop_back-ticks value_at n 1)

  pub length-ticks : (value_at : ℕ → TimedValue F) (n tick : ℕ) → length (ticks value_at n tick) ≡ n
  unfolding ticks
  length-ticks value_at zero tick = refl
  length-ticks value_at (suc n) tick = ap suc (length-ticks value_at n (tick + 1))

  pub interpolate_linear-some :
      (duration : ℕ) (last new : TimedValue F)
      → let interval = d.as_secs duration in
        let timespan = d.sub new.timestamp last.timestamp in
        eq last.value new.value ≡ false
        → lt (d.div timespan d.two) interval ≡ false
        → interpolate_linear last new duration
          ≡ some
              (ticks (tick_value last new interval timespan) (suc (tick_count timespan interval)) 0)
  unfolding interpolate_linear
  interpolate_linear-some duration last new differ short = ground arith

  pub interpolate_linear-none :
      (duration : ℕ) (last new : TimedValue F)
      → (eq last.value new.value ≡ true → interpolate_linear last new duration ≡ none)
        × (lt (d.div (d.sub new.timestamp last.timestamp) d.two) (d.as_secs duration) ≡ true
            → interpolate_linear last new duration ≡ none)
  unfolding interpolate_linear
  interpolate_linear-none duration last new = (λ h. ground arith, λ h. ground arith)

  -- Between two different values of a linear parameter, with an interval of at most half the time
  -- span, the schedule gets exactly the ticks 1 .. tick_count - 1: also when the tick `tick_count`
  -- lies before the new value's timestamp.
  pub points_before_lem :
      (duration : ℕ) (param : String) (last new : TimedValue F)
      → let interval = d.as_secs duration in
        let timespan = d.sub new.timestamp last.timestamp in
        eq last.value new.value ≡ false
        → lt (d.div timespan d.two) interval ≡ false
        → points_before duration param (some last) new
          ≡ map
              (action_of param)
              (ticks (tick_value last new interval timespan) (tick_count timespan interval - 1) 1)
  unfolding points_before
  points_before_lem duration param last new differ short =
      let interval = d.as_secs duration in
      let timespan = d.sub new.timestamp last.timestamp in
      rw (
        interpolate_linear-some duration last new differ short,
        inner-ticks (tick_value last new interval timespan) (tick_count timespan interval),
      )

  -- No points if the parameter had no value before, keeps its value, or the interval is too long.
  pub points_before-none :
      (duration : ℕ) (param : String) (last new : TimedValue F)
      → let timespan = d.sub new.timestamp last.timestamp in
        (points_before duration param none new ≡ [])
        × (eq last.value new.value ≡ true → points_before duration param (some last) new ≡ [])
        × (lt (d.div timespan d.two) (d.as_secs duration) ≡ true
            → points_before duration param (some last) new ≡ [])
  unfolding points_before
  points_before-none duration param last new =
      let (same, long) = interpolate_linear-none duration last new in
      (refl, λ h. rw (same h), λ h. rw (long h))
