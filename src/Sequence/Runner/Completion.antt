-- ===== src/Sequence/Runner/Completion.antt =====
-- An execution that nobody disturbs ends, with everything sent.
use ferro_flow.Prelude.{
  ℕ, zero, suc, ◌+◌, ◌≤◌, ◌≡◌, refl, subst, sym, String, List, [], ◌∷◌, ◌++◌, Option, none, some,
  leb, arith, inl, inr, Bool-cases, append-nil, length, All, ◌∙◌,
}
use ferro_flow.Numbers.{Double}
use ferro_flow.Sequence.{TimedAction, ParamState, set_param}
use ferro_flow.Sequence.Runner.{
  Message, timeout, finished, Position, Wait, proceed, wait_for_action, perform, execute,
  execute_actions,
}
use ferro_flow.Sequence.Runner.Execution.{params, execute-Sends}

abbrev pub timeouts : ℕ → List Message
timeouts zero = []
timeouts (suc n) = timeout ∷ timeouts n

abbrev Proceeds : ℕ → ℕ → Wait → Type 0
Proceeds n offset w =
    (p : Position) × (m : ℕ) × (w ≡ proceed offset p) × (p.inbox ≡ timeouts m) × (n ≤ m)

wait_for_action-timeouts :
    (clock : ℕ → ℕ) (n due offset at : ℕ)
    → Proceeds n offset (wait_for_action clock none due offset at (timeouts (suc n)))
unfolding wait_for_action
wait_for_action-timeouts clock n due offset at = elim (Bool-cases (leb (due + offset) (clock at))) [
  | inl e ↦ rw e (record { at = at + 1; inbox = timeouts (suc n) }, suc n, refl, refl, omega arith)
  | inr e ↦ rw e (record { at = at + 1; inbox = timeouts n }, n, refl, refl, omega arith)
]

module _ {F : Type 0} ⦃d : Double F⦄ (clock : ℕ → ℕ) (get_value : ℕ → String → Option F) where
  -- A parameter to set, at a time that a `Duration` can hold.
  abbrev pub IsPlain : TimedAction F → Type 0
  IsPlain a =
      ((p : ParamState F) × (a.action ≡ set_param p))
      × ((secs : ℕ) × (d.duration_from_secs a.timestamp ≡ some secs))

  execute-finished :
      (schedule : List (TimedAction F)) (origin offset : ℕ) (p : Position) (n : ℕ)
      → All IsPlain schedule
      → p.inbox ≡ timeouts n
      → length schedule ≤ n
      → (execute clock get_value schedule origin offset p).status ≡ finished
  unfolding execute perform
  execute-finished [] origin offset p n h e l = refl
  execute-finished (a ∷ rest) origin offset p zero h e l = absurd (omega arith)
  execute-finished (a ∷ rest) origin offset p (suc n) (((q, set), (secs, fits)), h) e l =
      let (p', m, goes, left, many) =
        wait_for_action-timeouts clock n (origin + secs) offset p.at in
      rw (fits, e, goes, set) (execute-finished rest origin offset p' m h left (omega arith))

  -- If the schedule only sets parameters, at times that fit a `Duration`, and every receive call
  -- times out, as many as there are actions, the execution finishes with all parameters sent.
  pub execute_actions-finished :
      (schedule : List (TimedAction F)) (at n : ℕ)
      → All IsPlain schedule
      → length schedule ≤ n
      → let r = execute_actions clock get_value schedule (record { at = at; inbox = timeouts n }) in
        (r.status ≡ finished) × (r.sent ≡ params schedule)
  unfolding execute_actions
  execute_actions-finished schedule at n h l =
      let start : Position = record { at = at + 1; inbox = timeouts n } in
      let done = execute-finished schedule (clock at) 0 start n h refl l in
      let (rest, e, fin) = execute-Sends clock get_value schedule (clock at) 0 start in
      let sent = (execute clock get_value schedule (clock at) 0 start).sent in
      (
        done,
        sym (
            subst (λ (xs : List (ParamState F)). params schedule ≡ sent ++ xs) (fin done) e
            ∙ append-nil sent),
      )
