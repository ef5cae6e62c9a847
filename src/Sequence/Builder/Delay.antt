-- ===== src/Sequence/Builder/Delay.antt =====
-- Interpolated values stand behind what the sequence does between their parameter's two values,
-- also where their time is earlier (src/sequence/sequence_builder.rs, `flatten_and_interpolate`).
use ferro_flow.Prelude.{
  ◌-◌, ◌≡◌, refl, ap, sym, ◌∙◌, true, false, String, List, [], ◌∷◌, ◌++◌, map, Option, some, All,
  append_assoc, string_eq, beq_refl, Bool-cases, inl, inr, ◌==◌,
}
use ferro_flow.Prelude.Assoc.{lookup, insert, remove, lookup-insert, lookup-remove}
use ferro_flow.Numbers.{Double, lt, eq}
use ferro_flow.Sequence.{Sequence, Globals, TimedAction, Action, ParamState, hold, set_param}
use ferro_flow.Sequence.Builder.{
  TimedValue, LastStates, ticks, tick_value, tick_count, points_before, action_of, offset_action,
  expand, expand_action, flat_actions, is_linear, flatten_and_interpolate,
}
use ferro_flow.Sequence.Builder.Points.{points_before_lem}
use ferro_flow.Sequence.Builder.Schedule.{Weave, IsPoint, points-IsPoint, expand-Weave}

module _ {F : Type 0} ⦃d : Double F⦄ where
  abbrev pub at : F → Action F → TimedAction F
  at t act = record { timestamp = t; action = act }

  -- The action does not set the parameter.
  abbrev pub Spares : String → Action F → Type 0
  Spares param (hold m) = Unit
  Spares param (set_param q) = (q.param == param) ≡ false

  -- The last values behind some actions.
  abbrev after : Globals F → LastStates F → List (TimedAction F) → LastStates F
  after g last [] = last
  after g last (a ∷ rest) = after g (expand_action g last (offset_action g a) a.action).1 rest

  expand-append :
      (g : Globals F) (last : LastStates F) (xs ys : List (TimedAction F))
      → expand g last (xs ++ ys) ≡ expand g last xs ++ expand g (after g last xs) ys
  unfolding expand
  expand-append g last [] ys = refl
  expand-append g last (a ∷ xs) ys =
      let (out, last') = expand_action g last (offset_action g a) a.action in
      ap (◌++◌ out) (expand-append g last' xs ys)
      ∙ sym (append_assoc out (expand g last' xs) (expand g (after g last' xs) ys))

  expand-linear :
      (g : Globals F) (last : LastStates F) (t : F) (p : ParamState F) (rest : List (TimedAction F))
      → is_linear (lookup p.param g.interpolations) ≡ true
      → let new : TimedValue F = record { timestamp = d.sub t g.start_time; value = p.value } in
        expand g last (at t (set_param p) ∷ rest)
        ≡ points_before g.interpolation_interval p.param (lookup p.param last) new
          ++ (offset_action g (at t (set_param p))
              ∷ expand g (insert p.param new (remove p.param last)) rest)
  unfolding expand expand_action offset_action
  expand-linear g last t p rest h =
      rw h
        (append_assoc (points_before g.interpolation_interval p.param (lookup p.param last) _) _ _)

  lookup-expand_action :
      (g : Globals F) (last : LastStates F) (a : TimedAction F) (act : Action F) (param : String)
      → Spares param act
      → lookup param (expand_action g last a act).1 ≡ lookup param last
  unfolding expand_action
  lookup-expand_action g last a (hold m) param h = refl
  lookup-expand_action g last a (set_param q) param h =
      elim (Bool-cases (is_linear (lookup q.param g.interpolations))) [
        | inl e ↦ rw e (
            lookup-insert q.param param _ (remove q.param last)
            ∙ rw h (lookup-remove q.param param last ∙ rw h refl))
        | inr e ↦ rw e refl
      ]

  lookup-after :
      (g : Globals F) (last : LastStates F) (xs : List (TimedAction F)) (param : String)
      → All (λ (a : TimedAction F). Spares param a.action) xs
      → lookup param (after g last xs) ≡ lookup param last
  lookup-after g last [] param h = refl
  lookup-after g last (a ∷ xs) param (h, hs) =
      lookup-after g (expand_action g last (offset_action g a) a.action).1 xs param hs
      ∙ lookup-expand_action g last (offset_action g a) a.action param h

  lookup-set :
      (k : String) (v : TimedValue F) (last : LastStates F)
      → lookup k (insert k v (remove k last)) ≡ some v
  lookup-set k v last = lookup-insert k k v (remove k last) ∙ rw (beq_refl k) refl

  -- Where the ticks between two values of a linear parameter stand in the schedule: directly before
  -- the second value, behind everything that lies between the two in the sequence.
  pub record HasLateTicks (g : Globals F) (p : ParamState F) (value from to : F)
      (before between rest schedule : List (TimedAction F)) : Type 0 where
    pub head : List (TimedAction F)
    pub points : List (TimedAction F)
    pub middle : List (TimedAction F)
    pub tail : List (TimedAction F)
    pub head_woven : Weave g before head
    pub points_own : All (λ (b : TimedAction F). IsPoint g (set_param p) b.action) points
    pub middle_woven : Weave g between middle
    pub tail_woven : Weave g rest tail
    pub whole :
        (let first : TimedValue F = record {
          timestamp = d.sub from g.start_time;
          value = p.value;
        } in
          let second : TimedValue F = record { timestamp = d.sub to g.start_time; value = value } in
          let interval = d.as_secs g.interpolation_interval in
          let timespan = d.sub second.timestamp first.timestamp in
          schedule
          ≡ head
            ++ (points
                ++ (offset_action g (at from (set_param p))
                    ∷ (middle
                        ++ (map (action_of p.param) (
                              ticks
                                (tick_value first second interval timespan)
                                (tick_count timespan interval - 1)
                                1)
                            ++ (offset_action g (at to (set_param (record p { value = value })))
                                ∷ tail))))))

  -- Let a linear parameter be set twice in a sequence, to different values, with any actions
  -- before, between and behind, of which those between do not set it, and let the interval be no
  -- longer than half the time between. Then the schedule is made of the first value's action, the
  -- actions in between, all ticks of the interpolation and the second value's action, in this
  -- order, with the other actions before and behind: whatever the times of the actions in between
  -- are, every tick stands behind all of them.
  pub flatten_and_interpolate-HasLateTicks :
      (seq : Sequence F) (p : ParamState F) (value from to : F)
      (before between rest : List (TimedAction F))
      → let g = seq.globals in
        flat_actions seq.steps
          ≡ before
            ++ (at from (set_param p)
                ∷ (between ++ (at to (set_param (record p { value = value })) ∷ rest)))
        → is_linear (lookup p.param g.interpolations) ≡ true
        → All (λ (a : TimedAction F). Spares p.param a.action) between
        → eq p.value value ≡ false
        → lt
            (d.div (d.sub (d.sub to g.start_time) (d.sub from g.start_time)) d.two)
            (d.as_secs g.interpolation_interval)
          ≡ false
        → HasLateTicks g p value from to before between rest (flatten_and_interpolate seq)
  unfolding flatten_and_interpolate
  flatten_and_interpolate-HasLateTicks seq p value from to before between rest flat linear spared
        differ short =
      let g = seq.globals in
      let again : ParamState F = record p { value = value } in
      let first : TimedValue F = record { timestamp = d.sub from g.start_time; value = p.value } in
      let second : TimedValue F = record { timestamp = d.sub to g.start_time; value = value } in
      let last0 = after g [] before in
      let last1 : LastStates F = insert p.param first (remove p.param last0) in
      let last2 = after g last1 between in
      let last3 : LastStates F = insert p.param second (remove p.param last2) in
      let points = points_before g.interpolation_interval p.param (lookup p.param last0) first in
      let known = lookup-after g last1 between p.param spared ∙ lookup-set p.param first last0 in
      record {
        head = expand g [] before;
        points = points;
        middle = expand g last1 between;
        tail = expand g last3 rest;
        head_woven = expand-Weave g [] before;
        points_own = points-IsPoint g p (lookup p.param last0) first linear;
        middle_woven = expand-Weave g last1 between;
        tail_woven = expand-Weave g last3 rest;
        whole =
            ap (expand g []) flat
            ∙ expand-append g [] before _
            ∙ ap (◌++◌ (expand g [] before)) (
                expand-linear g last0 from p _ linear
                ∙ ap
                    (λ (l : List (TimedAction F)).
                      points ++ (offset_action g (at from (set_param p)) ∷ l))
                    (expand-append g last1 between _
                      ∙ ap (◌++◌ (expand g last1 between)) (
                          expand-linear g last2 to again rest linear
                          ∙ ap
                              (λ (ps : List (TimedAction F)).
                                ps
                                ++ (offset_action g (at to (set_param again))
                                    ∷ expand g last3 rest))
                              (ap
                                  (λ (o : Option (TimedValue F)).
                                    points_before g.interpolation_interval p.param o second)
                                  known
                                ∙ points_before_lem g.interpolation_interval p.param first second
                                    differ short))));
      }
