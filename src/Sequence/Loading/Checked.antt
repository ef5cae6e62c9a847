-- ===== src/Sequence/Loading/Checked.antt =====
-- What comes out of loading has passed every rule.
use ferro_flow.Prelude.{
  ◌≡◌, ◌↔◌, refl, List, [], ◌∷◌, map, Option, none, some, Result, ok, err, >>=-eq-ok, arith, ◌⊎◌,
  inl, inr, sym, ap, subst,
}
use mathlib.Core.Option.{some-injective}
use ferro_flow.Numbers.{Double}
use ferro_flow.Sequence.{Sequence, Step, TimedAction, HoldMode, hold}
use ferro_flow.Sequence.Validation.{ValidationError, validate}
use ferro_flow.Sequence.Validation.Rules.{Rules, validate_iff}
use ferro_flow.Sequence.Loading.{
  load_from_path, checked, deserialize_step, step_actions, absolute, RawStep, RawParamState,
}

module _ {F : Type 0} ⦃d : Double F⦄ where
  checked_lem :
      (r : Result ValidationError (Unit {0})) (seq out : Sequence F)
      → checked r seq ≡ ok out
      → (r ≡ ok tt) × (seq ≡ out)
  checked_lem (ok u) seq out h = (refl, ground arith)
  checked_lem (err e) seq out h = absurd (ground arith)

  -- Loading yields a sequence exactly when the file deserializes to that sequence and it obeys
  -- the rules.
  pub load_from_path_iff :
      (file : Option (Sequence F)) (seq : Sequence F)
      → (load_from_path file ≡ ok seq) ↔ ((file ≡ some seq) × Rules seq)
  unfolding load_from_path
  load_from_path_iff none seq = (λ h. absurd (ground arith), λ h. absurd (ground (arith, h.0)))
  load_from_path_iff (some s) seq = (
    λ h.
        let (v, e) = checked_lem (validate s) s seq h in
        (ap some e, subst Rules e ((validate_iff s).0 v)),
    λ h.
        let e : seq ≡ s = sym (some-injective _ _ h.0) in
        rw ((validate_iff s).1 (subst Rules e h.1)) (ap ok (sym e)),
  )

  -- The actions of exactly one of the two forms of a step.
  abbrev pub FromRaw :
      F → Option (HoldMode F) → Option (List (RawParamState F)) → List (TimedAction F) → Type 0
  FromRaw start h p actions =
      ((mode : HoldMode F) × (h ≡ some mode)
        × (p ≡ none)
        × (actions ≡ record { timestamp = start; action = hold mode } ∷ []))
      ⊎ ((params : List (RawParamState F)) × (h ≡ none)
          × (p ≡ some params)
          × (actions ≡ map (absolute start) params))

  step_actions_iff :
      (start : F) (h : Option (HoldMode F)) (p : Option (List (RawParamState F)))
      (actions : List (TimedAction F))
      → (step_actions start h p ≡ ok actions) ↔ FromRaw start h p actions
  unfolding step_actions
  step_actions_iff start (some mode) none actions =
      (λ e. inl (mode, refl, refl, ground arith), λ o. ground arith)
  step_actions_iff start none (some params) actions =
      (λ e. inr (params, refl, refl, ground arith), λ o. ground arith)
  step_actions_iff start (some mode) (some params) actions =
      (λ e. absurd (ground arith), λ o. absurd (ground arith))
  step_actions_iff start none none actions =
      (λ e. absurd (ground arith), λ o. absurd (ground arith))

  -- A raw step deserializes exactly when it has a hold or parameters and not both; the hold then
  -- stands at the step's timestamp, and each parameter at its own, counted from the step's.
  pub deserialize_step_iff :
      (raw : RawStep F) (s : Step F)
      → (deserialize_step raw ≡ ok s) ↔ (
          (s.name ≡ raw.name)
          × (s.description ≡ raw.description)
          × (s.timestamp ≡ raw.timestamp)
          × FromRaw raw.timestamp raw.hold raw.set_params s.actions)
  unfolding deserialize_step
  deserialize_step_iff raw s = (
    λ h.
        let (actions, e, q) = >>=-eq-ok (step_actions raw.timestamp raw.hold raw.set_params) _ h in
        ground (arith, (step_actions_iff raw.timestamp raw.hold raw.set_params actions).0 e),
    λ h.
        rw ((step_actions_iff raw.timestamp raw.hold raw.set_params s.actions).1 h.3)
          (ground arith),
  )
