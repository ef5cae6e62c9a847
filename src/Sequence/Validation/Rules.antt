-- ===== src/Sequence/Validation/Rules.antt =====
-- The rules of sequences/README.md, and that `validate` accepts exactly the sequences that obey
-- them.
use ferro_flow.Prelude.{
  ◌≡◌, ◌≢◌, ◌↔◌, refl, true, List, [], ◌∷◌, Result, ok, ensure, for_each, All, arith, >>=-eq-ok,
  ensure_iff, is_empty_iff,
}
use ferro_flow.Numbers.{Double, lt, ◌≼◌}
use ferro_flow.Sequence.{
  Sequence, Globals, Step, TimedAction, Action, hold, set_param, always, conditional,
}
use ferro_flow.Sequence.Validation.{
  ValidationError, validate, validate_step, validate_timed_action, validate_window,
  validate_windows, has_conditions,
}

-- `for_each` succeeds exactly when every call does.
module _ {E A : Type 0} (f : A → Result E (Unit {0})) (P : A → Type 0)
    (each : (a : A) → (f a ≡ ok tt) ↔ P a) where
  for_each_iff : (xs : List A) → (for_each f xs ≡ ok tt) ↔ All P xs
  for_each_iff [] = (λ h. tt, λ h. refl)
  for_each_iff (x ∷ xs) = (
    λ h.
        let (u, p, q) = >>=-eq-ok (f x) (λ _. for_each f xs) h in
        ((each x).0 p, (for_each_iff xs).0 q),
    λ h. rw ((each x).1 h.0) ((for_each_iff xs).1 h.1),
  )

module _ {F : Type 0} ⦃d : Double F⦄ where
  -- A conditional hold has at least one condition.
  abbrev pub HasConditions : Action F → Type 0
  HasConditions (hold (conditional cs)) = cs ≢ []
  HasConditions (hold always) = Unit
  HasConditions (set_param p) = Unit

  -- The constraints on an action of the step `s`.
  pub record ActionRules (g : Globals F) (s : Step F) (a : TimedAction F) : Type 0 where
    pub after_step : s.timestamp ≼ a.timestamp
    pub before_end : a.timestamp ≼ g.end_time
    pub conditions : HasConditions a.action

  pub record StepRules (g : Globals F) (s : Step F) : Type 0 where
    pub after_start : g.start_time ≼ s.timestamp
    pub before_end : s.timestamp ≼ g.end_time
    pub content : s.actions ≢ []
    pub actions : All (ActionRules g s) s.actions

  abbrev pub Before : F → F → Type 0
  Before x y = lt x y ≡ true

  -- A step and its actions come before the next step.
  pub record WindowRules (s next : Step F) : Type 0 where
    pub step_before : Before s.timestamp next.timestamp
    pub actions_before : All (λ (a : TimedAction F). Before a.timestamp next.timestamp) s.actions

  abbrev pub Windows : List (Step F) → Type 0
  Windows [] = Unit
  Windows (s ∷ []) = Unit
  Windows (s ∷ next ∷ rest) = WindowRules s next × Windows (next ∷ rest)

  pub record Rules (seq : Sequence F) : Type 0 where
    pub start_le_zero : seq.globals.start_time ≼ d.nought
    pub start_le_end : seq.globals.start_time ≼ seq.globals.end_time
    pub has_steps : seq.steps ≢ []
    pub steps : All (StepRules seq.globals) seq.steps
    pub windows : Windows seq.steps

  HasConditions-iff : (a : Action F) → (has_conditions a ≡ true) ↔ HasConditions a
  HasConditions-iff (hold (conditional [])) = ground arith
  HasConditions-iff (hold (conditional (c ∷ cs))) = ground arith
  HasConditions-iff (hold always) = ground arith
  HasConditions-iff (set_param p) = ground arith

  timed_action_iff :
      (g : Globals F) (s : Step F) (a : TimedAction F)
      → (validate_timed_action g s a ≡ ok tt) ↔ ActionRules g s a
  unfolding validate_timed_action
  timed_action_iff g s a = ground (arith, HasConditions-iff a.action)

  step_iff : (g : Globals F) (s : Step F) → (validate_step g s ≡ ok tt) ↔ StepRules g s
  unfolding validate_step
  step_iff g s = ground (
    arith,
    is_empty_iff s.actions,
    for_each_iff (validate_timed_action g s) (ActionRules g s) (timed_action_iff g s) s.actions,
  )

  abbrev before_next : Step F → Step F → TimedAction F → Result ValidationError (Unit {0})
  before_next s next a =
      ensure (lt a.timestamp next.timestamp) (ValidationError.action_after_next s.name)

  window_iff : (s next : Step F) → (validate_window s next ≡ ok tt) ↔ WindowRules s next
  unfolding validate_window
  window_iff s next = ground (
    arith,
    for_each_iff (before_next s next) (λ (a : TimedAction F). Before a.timestamp next.timestamp)
        (λ a. ensure_iff _ _) s.actions,
  )

  Windows-iff : (xs : List (Step F)) → (validate_windows xs ≡ ok tt) ↔ Windows xs
  unfolding validate_windows
  Windows-iff [] = (λ h. tt, λ h. refl)
  Windows-iff (s ∷ []) = (λ h. tt, λ h. refl)
  Windows-iff (s ∷ next ∷ rest) = ground (arith, window_iff s next, Windows-iff (next ∷ rest))

  -- `validate` accepts a sequence exactly when it obeys every rule.
  pub validate_iff : (seq : Sequence F) → (validate seq ≡ ok tt) ↔ Rules seq
  unfolding validate
  validate_iff seq = ground (
    arith,
    is_empty_iff seq.steps,
    for_each_iff (validate_step seq.globals) (StepRules seq.globals) (step_iff seq.globals)
        seq.steps,
    Windows-iff seq.steps,
  )
