-- ===== src/Sequence/Builder.antt =====
-- src/sequence/sequence_builder.rs: a sequence becomes one schedule, with the linear parameters
-- interpolated. The queue of interpolated values and the vector of actions are lists.
pub mod Points
pub mod Zero
pub mod Schedule
pub mod Nonneg
pub mod Delay
use ferro_flow.Prelude.{
  ℕ, zero, suc, ◌+◌, String, Bool, List, [], ◌∷◌, ◌++◌, map, Option, none, some, pos, string_eq,
  if◌then◌else◌,
}
use ferro_flow.Prelude.Assoc.{lookup, insert, remove}
use ferro_flow.Numbers.{Double, lt, eq}
use ferro_flow.Sequence.{
  Sequence, Globals, Step, TimedAction, Action, ParamState, InterpolationMode, hold, set_param,
  linear,
}

pub record TimedValue (F : Type 0) : Type 0 where
  pub timestamp : F
  pub value : F

-- `pop_front` and `pop_back`, without the value.
abbrev pub pop_front {ℓ} : {A : Type ℓ} → List A → List A
pop_front [] = []
pop_front (x ∷ xs) = xs

abbrev pub pop_back {ℓ} : {A : Type ℓ} → List A → List A
pop_back [] = []
pop_back (x ∷ []) = []
pop_back (x ∷ y ∷ xs) = x ∷ pop_back (y ∷ xs)

unfoldable pub is_linear : Option InterpolationMode → Bool
is_linear (some linear) = Bool.true
is_linear _ = Bool.false

abbrev pub LastStates : Type 0 → Type 0
LastStates F = List (String × TimedValue F)

module _ {F : Type 0} ⦃d : Double F⦄ where
  -- The body of the loop over the ticks.
  unfoldable pub tick_value : TimedValue F → TimedValue F → F → F → ℕ → TimedValue F
  tick_value from to interval timespan tick =
      let at = d.add from.timestamp (d.mul (d.of_ℤ (pos tick)) interval) in
      let alpha = d.div (d.sub at from.timestamp) timespan in
      record { timestamp = at; value = d.add from.value (d.mul alpha (d.sub to.value from.value)) }

  -- The ticks `tick ..` in order, `count` of them.
  unfoldable pub ticks : (ℕ → TimedValue F) → ℕ → ℕ → List (TimedValue F)
  ticks value_at zero tick = []
  ticks value_at (suc count) tick = value_at tick ∷ ticks value_at count (tick + 1)

  unfoldable pub tick_count : F → F → ℕ
  tick_count timespan interval = d.to_usize (d.floor (d.div timespan interval))

  -- `none` if the values are equal or the interval is longer than half the time span.
  unfoldable pub interpolate_linear : TimedValue F → TimedValue F → ℕ → Option (List (TimedValue F))
  unfolding tick_value ticks tick_count
  interpolate_linear from to duration =
      let interval = d.as_secs duration in
      let timespan = d.sub to.timestamp from.timestamp in
      if eq from.value to.value
      then none
      else if lt (d.div timespan d.two) interval
      then none
      else some
          (ticks (tick_value from to interval timespan) (suc (tick_count timespan interval)) 0)

  abbrev pub action_of : String → TimedValue F → TimedAction F
  action_of param v = record {
    timestamp = v.timestamp;
    action = set_param (record { param = param; value = v.value });
  }

  -- "Remove the first and last element": what is left of the interpolated values, as actions.
  abbrev pub inner_actions : String → Option (List (TimedValue F)) → List (TimedAction F)
  inner_actions param none = []
  inner_actions param (some vs) = map (action_of param) (pop_back (pop_front vs))

  -- The interpolated actions that go before a new value of the parameter.
  unfoldable pub points_before :
      ℕ → String → Option (TimedValue F) → TimedValue F → List (TimedAction F)
  points_before interval param none new = []
  points_before interval param (some last) new =
      inner_actions param (interpolate_linear last new interval)

  -- "offset timestamps by global start time to remove negative times"
  unfoldable pub offset_action : Globals F → TimedAction F → TimedAction F
  offset_action g a = record a { timestamp = d.sub a.timestamp g.start_time }

  -- The body of the loop for an action whose timestamp is already offset.
  unfoldable pub expand_action :
      Globals F → LastStates F → TimedAction F → Action F → List (TimedAction F) × LastStates F
  unfolding is_linear
  expand_action g last a (hold mode) = (a ∷ [], last)
  expand_action g last a (set_param p) =
      let new : TimedValue F = record { timestamp = a.timestamp; value = p.value } in
      if is_linear (lookup p.param g.interpolations)
      then (
        points_before g.interpolation_interval p.param (lookup p.param last) new ++ (a ∷ []),
        insert p.param new (remove p.param last),
      )
      else (a ∷ [], last)

  unfoldable pub expand : Globals F → LastStates F → List (TimedAction F) → List (TimedAction F)
  unfolding offset_action expand_action
  expand g last [] = []
  expand g last (a ∷ rest) =
      let (out, last') = expand_action g last (offset_action g a) a.action in
      out ++ expand g last' rest

  -- `flat_map(|step| step.actions)`
  unfoldable pub flat_actions : List (Step F) → List (TimedAction F)
  flat_actions [] = []
  flat_actions (s ∷ ss) = s.actions ++ flat_actions ss

  unfoldable pub flatten_and_interpolate : Sequence F → List (TimedAction F)
  unfolding expand flat_actions
  flatten_and_interpolate seq = expand seq.globals [] (flat_actions seq.steps)
