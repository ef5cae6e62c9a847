-- ===== src/Sequence/Builder/Schedule.antt =====
-- The schedule as a whole: the sequence's own actions in order, with interpolated values woven in,
-- and no timestamp below zero.
use ferro_flow.Prelude.{
  ◌≡◌, refl, ap, true, false, String, List, [], ◌∷◌, ◌++◌, map, Option, none, some, All,
  append_assoc, string_eq, Bool-cases, Option-cases, inl, inr,
}
use ferro_flow.Prelude.Assoc.{lookup}
use ferro_flow.Numbers.{Double}
use ferro_flow.Sequence.{Sequence, Globals, TimedAction, Action, ParamState, hold, set_param}
use ferro_flow.Sequence.Builder.{
  TimedValue, LastStates, pop_front, pop_back, interpolate_linear, points_before, action_of,
  offset_action, expand_action, expand, flat_actions, is_linear, flatten_and_interpolate,
}

module _ {F : Type 0} ⦃d : Double F⦄ where
  -- An interpolated action for `a`: it sets the same parameter, which is linear.
  abbrev pub IsPoint : Globals F → Action F → Action F → Type 0
  IsPoint g (set_param p) (set_param q) =
      (is_linear (lookup p.param g.interpolations) ≡ true) × (q.param ≡ p.param)
  IsPoint g (set_param p) (hold m) = ⊥
  IsPoint g (hold m) b = ⊥

  -- `out` is the offset actions in their order, each behind interpolated points of its own.
  pub data Weave (g : Globals F) : List (TimedAction F) → List (TimedAction F) → Type 0 where
    done : Weave g [] []
    next :
        {rest out all : List (TimedAction F)} (a : TimedAction F) (points : List (TimedAction F))
        → All (λ (p : TimedAction F). IsPoint g a.action p.action) points
        → Weave g rest out
        → all ≡ points ++ (offset_action g a ∷ out)
        → Weave g (a ∷ rest) all

  actions-IsPoint :
      (g : Globals F) (p : ParamState F)
      → is_linear (lookup p.param g.interpolations) ≡ true
      → (vs : List (TimedValue F))
      → All (λ (b : TimedAction F). IsPoint g (set_param p) b.action) (map (action_of p.param) vs)
  actions-IsPoint g p h [] = tt
  actions-IsPoint g p h (v ∷ vs) = ((h, refl), actions-IsPoint g p h vs)

  pub points-IsPoint :
      (g : Globals F) (p : ParamState F) (last : Option (TimedValue F)) (new : TimedValue F)
      → is_linear (lookup p.param g.interpolations) ≡ true
      → All
          (λ (b : TimedAction F). IsPoint g (set_param p) b.action)
          (points_before g.interpolation_interval p.param last new)
  unfolding points_before
  points-IsPoint g p none new h = tt
  points-IsPoint g p (some last) new h =
      elim (Option-cases (interpolate_linear last new g.interpolation_interval)) [
        | inl e ↦ rw e tt
        | inr (vs, e) ↦ rw e (actions-IsPoint g p h (pop_back (pop_front vs)))
      ]

  expand_action-Weave :
      (g : Globals F) (last : LastStates F) (a : TimedAction F) (act : Action F)
      → (points : List (TimedAction F)) × All (λ (p : TimedAction F). IsPoint g act p.action) points
        × ((expand_action g last (offset_action g a) act).0 ≡ points ++ (offset_action g a ∷ []))
  unfolding expand_action
  expand_action-Weave g last a (hold m) = ([], tt, refl)
  expand_action-Weave g last a (set_param p) =
      elim (Bool-cases (is_linear (lookup p.param g.interpolations))) [
        | inl e ↦ (
          points_before g.interpolation_interval p.param (lookup p.param last)
              (record { timestamp = (offset_action g a).timestamp; value = p.value }),
          points-IsPoint g p (lookup p.param last) _ e,
          rw e,
        )
        | inr e ↦ ([], tt, rw e)
      ]

  pub expand-Weave :
      (g : Globals F) (last : LastStates F) (acts : List (TimedAction F))
      → Weave g acts (expand g last acts)
  unfolding expand
  expand-Weave g last [] = done
  expand-Weave g last (a ∷ rest) =
      let (points, are, e) = expand_action-Weave g last a a.action in
      let last' = (expand_action g last (offset_action g a) a.action).1 in
      next a points are (expand-Weave g last' rest) (rw (e, append_assoc points) refl)

  -- The schedule is the sequence's actions, offset and in their order, and before each of them
  -- nothing but values of the same parameter, if that is linear.
  pub flatten_and_interpolate-Weave :
      (seq : Sequence F) → Weave seq.globals (flat_actions seq.steps) (flatten_and_interpolate seq)
  unfolding flatten_and_interpolate
  flatten_and_interpolate-Weave seq = expand-Weave seq.globals [] (flat_actions seq.steps)

  expand_action-plain :
      (g : Globals F) (last : LastStates F) (a : TimedAction F) (act : Action F)
      → ((k : String) → is_linear (lookup k g.interpolations) ≡ false)
      → expand_action g last a act ≡ (a ∷ [], last)
  unfolding expand_action
  expand_action-plain g last a (hold m) h = refl
  expand_action-plain g last a (set_param p) h = rw (h p.param)

  expand-map :
      (g : Globals F) (last : LastStates F) (acts : List (TimedAction F))
      → ((k : String) → is_linear (lookup k g.interpolations) ≡ false)
      → expand g last acts ≡ map (offset_action g) acts
  unfolding expand
  expand-map g last [] h = refl
  expand-map g last (a ∷ rest) h =
      let step : expand_action g last (offset_action g a) a.action
          ≡ (offset_action g a ∷ [], last) =
        expand_action-plain g last (offset_action g a) a.action h in
      rw step (ap (◌∷◌ (offset_action g a)) (expand-map g last rest h))

  -- Without linear parameters the schedule is the actions, offset, in their order and nothing else.
  pub flatten_and_interpolate-map :
      (seq : Sequence F)
      → ((k : String) → is_linear (lookup k seq.globals.interpolations) ≡ false)
      → flatten_and_interpolate seq ≡ map (offset_action seq.globals) (flat_actions seq.steps)
  unfolding flatten_and_interpolate
  flatten_and_interpolate-map seq h = expand-map seq.globals [] (flat_actions seq.steps) h
