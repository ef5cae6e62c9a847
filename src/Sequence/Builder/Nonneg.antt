-- ===== src/Sequence/Builder/Nonneg.antt =====
-- No entry of a validated sequence's schedule lies before time zero, which
-- `Duration::from_secs_f64` would refuse with a panic.
use ferro_flow.Prelude.{
  ℕ, zero, suc, ◌+◌, ◌≡◌, refl, sym, ◌∙◌, subst, true, String, List, [], ◌∷◌, map, Option, none,
  some, All, All-append, All-map, pos, ok, arith, string_eq, Bool-cases, inl, inr,
}
use mathlib.Core.Option.{some-injective}
use ferro_flow.Sequence.Builder.Points.{interpolate_linear-none, interpolate_linear-some}
use ferro_flow.Prelude.Assoc.{lookup, remove, Values, Values-insert, Values-remove, Values-lookup}
use ferro_flow.Numbers.{Double, eq, lt, ◌≼◌, IsOrdered, IsShiftable, IsGrowing}
use ferro_flow.Sequence.{Sequence, Globals, Step, TimedAction, Action, hold, set_param}
use ferro_flow.Sequence.Validation.{validate}
use ferro_flow.Sequence.Validation.Order.{Within, validate_ordered}
use ferro_flow.Sequence.Builder.{
  TimedValue, LastStates, pop_front, pop_back, ticks, tick_value, interpolate_linear, inner_actions,
  points_before, action_of, offset_action, expand_action, expand, flat_actions, is_linear,
  flatten_and_interpolate,
}

module _ {A : Type 0} (P : A → Type 0) where
  All-pop_front : (xs : List A) → All P xs → All P (pop_front xs)
  All-pop_front [] h = tt
  All-pop_front (x ∷ xs) h = h.1

  All-pop_back : (xs : List A) → All P xs → All P (pop_back xs)
  All-pop_back [] h = tt
  All-pop_back (x ∷ []) h = tt
  All-pop_back (x ∷ y ∷ xs) (p, h) = (p, All-pop_back (y ∷ xs) h)

module _ {F : Type 0} ⦃d : Double F⦄ where
  abbrev IsLate : TimedValue F → Type 0
  IsLate v = d.nought ≼ v.timestamp

  abbrev pub IsDue : TimedAction F → Type 0
  IsDue a = d.nought ≼ a.timestamp

  module _ (grows : IsGrowing F) where
    open grows use {add_nonneg, tick_nonneg}

    ticks-IsLate :
        (from to : TimedValue F) (duration : ℕ) (timespan : F) (n tick : ℕ)
        → IsLate from
        → All IsLate (ticks (tick_value from to (d.as_secs duration) timespan) n tick)
    unfolding ticks tick_value
    ticks-IsLate from to duration timespan zero tick h = tt
    ticks-IsLate from to duration timespan (suc n) tick h = (
      add_nonneg from.timestamp (d.mul (d.of_ℤ (pos tick)) (d.as_secs duration)) h
          (tick_nonneg tick duration),
      ticks-IsLate from to duration timespan n (tick + 1) h,
    )

    actions-IsDue :
        (param : String) (vs : List (TimedValue F))
        → All IsLate vs
        → All IsDue (map (action_of param) vs)
    actions-IsDue param [] h = tt
    actions-IsDue param (v ∷ vs) (p, h) = (p, actions-IsDue param vs h)

    inner-IsDue :
        (param : String) (o : Option (List (TimedValue F)))
        → ((vs : List (TimedValue F)) → o ≡ some vs → All IsLate vs)
        → All IsDue (inner_actions param o)
    inner-IsDue param none h = tt
    inner-IsDue param (some vs) h =
        actions-IsDue param _ (All-pop_back IsLate _ (All-pop_front IsLate vs (h vs refl)))

    interpolate-IsLate :
        (from to : TimedValue F) (duration : ℕ) (vs : List (TimedValue F))
        → IsLate from
        → interpolate_linear from to duration ≡ some vs
        → All IsLate vs
    interpolate-IsLate from to duration vs h e =
        let none_if = interpolate_linear-none duration from to in
        elim (Bool-cases (eq from.value to.value)) [
          | inl same ↦ absurd (ground (arith, none_if.0 same))
          | inr differ ↦
              elim (Bool-cases
                (lt (d.div (d.sub to.timestamp from.timestamp) d.two) (d.as_secs duration))) [
                  | inl long ↦ absurd (ground (arith, none_if.1 long))
                  | inr short ↦
                      subst (All IsLate)
                        (some-injective _ _
                          (sym (interpolate_linear-some duration from to differ short) ∙ e))
                        (ticks-IsLate from to duration _ _ 0 h)
                ]
        ]

    points-IsDue :
        (duration : ℕ) (param : String) (last : Option (TimedValue F)) (new : TimedValue F)
        → ((v : TimedValue F) → last ≡ some v → IsLate v)
        → All IsDue (points_before duration param last new)
    unfolding points_before
    points-IsDue duration param none new h = tt
    points-IsDue duration param (some v) new h =
        inner-IsDue param _ (λ vs. interpolate-IsLate v new duration vs (h v refl))

    expand_action-IsDue :
        (g : Globals F) (last : LastStates F) (a : TimedAction F) (act : Action F)
        → Values IsLate last
        → IsDue a
        → All IsDue (expand_action g last a act).0 × Values IsLate (expand_action g last a act).1
    unfolding expand_action
    expand_action-IsDue g last a (hold m) v h = ((h, tt), v)
    expand_action-IsDue g last a (set_param p) v h =
        elim (Bool-cases (is_linear (lookup p.param g.interpolations))) [
          | inl e ↦ rw e (
            All-append IsDue _ (a ∷ [])
                (points-IsDue g.interpolation_interval p.param (lookup p.param last) _
                  (λ w found. Values-lookup IsLate p.param last v found))
                (h, tt),
            Values-insert IsLate p.param _ (remove p.param last) h
                (Values-remove IsLate p.param last v),
          )
          | inr e ↦ rw e ((h, tt), v)
        ]

    expand-IsDue :
        (g : Globals F) (last : LastStates F) (acts : List (TimedAction F))
        → Values IsLate last
        → All (λ (a : TimedAction F). IsDue (offset_action g a)) acts
        → All IsDue (expand g last acts)
    unfolding expand
    expand-IsDue g last [] v h = tt
    expand-IsDue g last (a ∷ rest) v (p, h) =
        let (out, v') = expand_action-IsDue g last (offset_action g a) a.action v p in
        All-append IsDue _ _ out
          (expand-IsDue g (expand_action g last (offset_action g a) a.action).1 rest v' h)

    flat-IsDue :
        (shifts : IsShiftable F) (g : Globals F) (ss : List (Step F))
        → d.is_finite g.start_time ≡ true
        → All (λ (s : Step F). All (Within g) s.actions) ss
        → All (λ (a : TimedAction F). IsDue (offset_action g a)) (flat_actions ss)
    unfolding flat_actions offset_action
    flat-IsDue shifts g [] f h = tt
    flat-IsDue shifts g (s ∷ ss) f (p, h) =
        All-append _ s.actions (flat_actions ss)
          (All-map s.actions (λ a w. shifts.sub_nonneg a.timestamp g.start_time f w.0) p)
          (flat-IsDue shifts g ss f h)

    -- Let `le` be an order on the numbers that are no NaN, let a subtraction of a finite number
    -- keep the order, and let sums and tick offsets of numbers from zero on be at least zero. In
    -- the schedule of a validated sequence that starts at a finite time, no timestamp is below
    -- zero, those of interpolated values included.
    pub flatten_and_interpolate-IsDue :
        (laws : IsOrdered F) (shifts : IsShiftable F) (seq : Sequence F)
        → d.is_finite seq.globals.start_time ≡ true
        → validate seq ≡ ok tt
        → All IsDue (flatten_and_interpolate seq)
    unfolding flatten_and_interpolate
    flatten_and_interpolate-IsDue laws shifts seq f h =
        expand-IsDue seq.globals [] (flat_actions seq.steps) tt
          (flat-IsDue shifts seq.globals seq.steps f (validate_ordered laws seq h).1)
