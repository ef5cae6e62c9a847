-- ===== src/Sequence/Runner/Due/Moments.antt =====
-- When the actions of a whole schedule are performed (`execute_actions` of
-- src/sequence/sequence_runner.rs): the moments at which an execution comes to its actions.
use ferro_flow.Prelude.{
  ℕ, ◌+◌, ◌≡◌, ◌⊎◌, refl, subst, String, true, false, List, [], ◌∷◌, Option, none, some, All,
  All-map, inl, inr, Bool-cases, Option-cases,
}
use ferro_flow.Numbers.{Double}
use ferro_flow.Sequence.{TimedAction, Action, ParamState, hold, set_param}
use ferro_flow.Sequence.Hold.{should_hold}
use ferro_flow.Sequence.Runner.{
  Position, Wait, proceed, halt, Run, after_wait, perform, execute, execute_actions,
}
use ferro_flow.Sequence.Runner.Due.{
  Arrives, ArrivesBy, wait_for_action-InMode, IsHeld, HeldBy, wait_for_resume-HeldBy,
}

module _ {F : Type 0} ⦃d : Double F⦄ (clock : ℕ → ℕ) (get_value : ℕ → String → Option F) where
  -- Between an action that is performed and the wait for the next: only a hold that holds takes
  -- time, which is added to the offset.
  abbrev pub Passes : Action F → ℕ → Position → ℕ → Position → Type 0
  Passes (set_param p) o q o1 q1 = (o1 ≡ o) × (q1 ≡ q)
  Passes (hold mode) o q o1 q1 =
      ((should_hold (get_value q.at) mode ≡ false) × (o1 ≡ o) × (q1 ≡ q))
      ⊎ ((should_hold (get_value q.at) mode ≡ true)
          × IsHeld clock (clock q.at) o (q.at + 1) q.inbox o1 q1)

  -- The execution of a schedule comes to an action, with the time of all pauses and holds so far
  -- and a position: it waits for each action, from the origin on, until its time plus the time of
  -- the pauses and holds.
  pub data ComesTo (origin : ℕ)
      : List (TimedAction F) → ℕ → Position → TimedAction F → ℕ → Position → Type 0 where
    first :
        (a : TimedAction F) (rest : List (TimedAction F)) (secs offset o : ℕ) (p q : Position)
        → d.duration_from_secs a.timestamp ≡ some secs
        → Arrives clock (origin + secs) offset p o q
        → ComesTo origin (a ∷ rest) offset p a o q
    next :
        (a b : TimedAction F) (rest : List (TimedAction F)) (secs offset o o1 o2 : ℕ)
        (p q q1 q2 : Position)
        → d.duration_from_secs a.timestamp ≡ some secs
        → Arrives clock (origin + secs) offset p o q
        → Passes a.action o q o1 q1
        → ComesTo origin rest o1 q1 b o2 q2
        → ComesTo origin (a ∷ rest) offset p b o2 q2

  after_wait-All :
      (P : ParamState F → Type 0) (w : Wait) (k : ℕ → Position → Run F)
      → ((o : ℕ) (q : Position) → w ≡ proceed o q → All P (k o q).sent)
      → All P (after_wait w k).sent
  after_wait-All P (proceed o q) k h = h o q refl
  after_wait-All P (halt s q) k h = tt

  perform-All :
      (P : ParamState F → Type 0) (act : Action F) (k : ℕ → Position → Run F) (o : ℕ) (q : Position)
      → ((x : ParamState F) → act ≡ set_param x → P x)
      → ((o1 : ℕ) (q1 : Position) → Passes act o q o1 q1 → All P (k o1 q1).sent)
      → All P (perform clock get_value act k o q).sent
  unfolding perform
  perform-All P (set_param x) k o q now rest = (now x refl, rest o q (refl, refl))
  perform-All P (hold mode) k o q now rest = elim (Bool-cases (should_hold (get_value q.at) mode)) [
    | inl e ↦ rw e (
        after_wait-All P _ k λ o1 q1 w. rest o1 q1 (
          inr (
            e,
            subst (HeldBy clock (clock q.at) o (q.at + 1) q.inbox) w
                (wait_for_resume-HeldBy clock (clock q.at) o (q.at + 1) q.inbox),
          )))
    | inr e ↦ rw e (rest o q (inl (e, refl, refl)))
  ]

  -- The parameter is of an action that the execution comes to.
  abbrev pub IsSetInTime : ℕ → List (TimedAction F) → ℕ → Position → ParamState F → Type 0
  IsSetInTime origin schedule offset p x =
      (a : TimedAction F) × (o : ℕ) × (q : Position) × ComesTo origin schedule offset p a o q
      × (a.action ≡ set_param x)

  execute-IsSetInTime :
      (origin : ℕ) (schedule : List (TimedAction F)) (offset : ℕ) (p : Position)
      → All
          (IsSetInTime origin schedule offset p)
          (execute clock get_value schedule origin offset p).sent
  unfolding execute
  execute-IsSetInTime origin [] offset p = tt
  execute-IsSetInTime origin (a ∷ rest) offset p =
      elim (Option-cases (d.duration_from_secs a.timestamp)) [
        | inl e ↦ rw e tt
        | inr (secs, e) ↦ rw e (
            after_wait-All (IsSetInTime origin (a ∷ rest) offset p) _ _ λ o q w.
              let there : Arrives clock (origin + secs) offset p o q =
                subst (ArrivesBy clock (origin + secs) offset p) w
                  (wait_for_action-InMode clock none (origin + secs) offset p.at p.inbox) in
              perform-All (IsSetInTime origin (a ∷ rest) offset p) a.action _ o q
                (λ x s. (a, o, q, first a rest secs offset o p q e there, s))
                (λ o1 q1 h.
                  All-map _
                    (λ x (b, o2, q2, c, s).
                      (b, o2, q2, next a b rest secs offset o o1 o2 p q q1 q2 e there h c, s))
                    (execute-IsSetInTime origin rest o1 q1)))
      ]

  -- For every clock, all field values and messages: each parameter that an execution sets is that
  -- of an action of the schedule, and the wait for it ends in one of two ways: the clock was read
  -- at the start plus the action's time plus the offset, or later; or it was read before, and the
  -- receive call that was given the rest of that time timed out. The offset is the sum, over all
  -- pauses and holds from the start on, of the clock at their end less the clock at their begin.
  pub execute_actions-IsSetInTime :
      (schedule : List (TimedAction F)) (p : Position)
      → All
          (IsSetInTime (clock p.at) schedule 0 (record p { at = p.at + 1 }))
          (execute_actions clock get_value schedule p).sent
  unfolding execute_actions
  execute_actions-IsSetInTime schedule p =
      execute-IsSetInTime (clock p.at) schedule 0 (record p { at = p.at + 1 })
