-- ===== src/Sequence/Validation.antt =====
-- src/sequence/sequence_validation.rs: the checks that a loaded sequence passes.
pub mod Rules
pub mod Order
use ferro_flow.Prelude.{
  String, Bool, true, false, not, List, [], ◌∷◌, Result, ok, err, ◌>>=◌, ◌>>◌, ensure, for_each,
  is_empty,
}
use ferro_flow.Numbers.{Double, le, lt}
use ferro_flow.Sequence.{
  Sequence, Globals, Step, TimedAction, Action, HoldMode, HoldCondition, hold, set_param, always,
  conditional,
}

-- One constructor for each message.
pub data ValidationError : Type 0 where
  start_after_zero start_after_end no_steps : ValidationError
  step_before_start step_after_end no_actions step_after_next : String → ValidationError
  action_before_step action_after_end action_after_next no_conditions : String → ValidationError

module _ {F : Type 0} ⦃d : Double F⦄ where
  abbrev has_conditions : Action F → Bool
  has_conditions (hold (conditional cs)) = not (is_empty cs)
  has_conditions (hold always) = true
  has_conditions (set_param p) = true

  pub validate_timed_action : Globals F → Step F → TimedAction F → Result ValidationError (Unit {0})
  validate_timed_action g s a = do
    ensure (le s.timestamp a.timestamp) (action_before_step s.name)
    ensure (le a.timestamp g.end_time) (action_after_end s.name)
    ensure (has_conditions a.action) (no_conditions s.name)

  pub validate_step : Globals F → Step F → Result ValidationError (Unit {0})
  validate_step g s = do
    ensure (le g.start_time s.timestamp) (step_before_start s.name)
    ensure (le s.timestamp g.end_time) (step_after_end s.name)
    ensure (not (is_empty s.actions)) (no_actions s.name)
    for_each (validate_timed_action g s) s.actions

  -- The body of the loop over `windows(2)`.
  validate_window : Step F → Step F → Result ValidationError (Unit {0})
  validate_window s next = do
    ensure (lt s.timestamp next.timestamp) (step_after_next s.name)
    for_each
        (λ (a : TimedAction F). ensure (lt a.timestamp next.timestamp) (action_after_next s.name))
        s.actions

  validate_windows : List (Step F) → Result ValidationError (Unit {0})
  validate_windows [] = ok tt
  validate_windows (s ∷ []) = ok tt
  validate_windows (s ∷ next ∷ rest) = validate_window s next >> validate_windows (next ∷ rest)

  unfoldable pub validate : Sequence F → Result ValidationError (Unit {0})
  unfolding validate_timed_action validate_step validate_window validate_windows
  validate seq = do
    ensure (le seq.globals.start_time d.nought) start_after_zero
    ensure (le seq.globals.start_time seq.globals.end_time) start_after_end
    ensure (not (is_empty seq.steps)) no_steps
    for_each (validate_step seq.globals) seq.steps
    validate_windows seq.steps
