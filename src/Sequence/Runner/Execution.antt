-- ===== src/Sequence/Runner/Execution.antt =====
-- What an execution sends, for every clock and every sequence of messages.
use ferro_flow.Prelude.{
  ℕ, ◌+◌, ◌-◌, ◌≡◌, refl, ap, String, List, [], ◌∷◌, ◌++◌, Option, none, some, leb, arith, inl, inr,
  Bool-cases, Option-cases, ◌≢◌,
}
use ferro_flow.Numbers.{Double}
use ferro_flow.Sequence.{Sequence, TimedAction, Action, ParamState, hold, set_param}
use ferro_flow.Sequence.Hold.{should_hold}
use ferro_flow.Sequence.Builder.{flatten_and_interpolate}
use ferro_flow.Sequence.Runner.{
  pause, resume, abort, shutdown, Message, command, timeout, disconnected, Status, finished,
  aborted, shut_down, panicked, waiting, Position, Wait, proceed, halt, Run, wait_for_resume,
  wait_for_action, unless_due, after_wait, perform, execute, execute_actions, run_thread, after_run,
}

module _ (clock : ℕ → ℕ) where
  abbrev pub then_running : ℕ → Wait → Wait
  then_running due (proceed offset p) = wait_for_action clock none due offset p.at p.inbox
  then_running due (halt s p) = halt s p

  -- A pause in the wait for an action is `wait_for_resume`, after which the wait goes on with the
  -- longer pause offset.
  pub wait_for_action-paused :
      (paused_at due offset at : ℕ) (inbox : List Message)
      → wait_for_action clock (some paused_at) due offset at inbox
        ≡ then_running due (wait_for_resume clock paused_at offset at inbox)
  unfolding wait_for_action wait_for_resume
  wait_for_action-paused paused_at due offset at [] = refl
  wait_for_action-paused paused_at due offset at (command pause ∷ rest) =
      wait_for_action-paused paused_at due offset at rest
  wait_for_action-paused paused_at due offset at (command resume ∷ rest) = refl
  wait_for_action-paused paused_at due offset at (command abort ∷ rest) = refl
  wait_for_action-paused paused_at due offset at (command shutdown ∷ rest) = refl
  wait_for_action-paused paused_at due offset at (disconnected ∷ rest) = refl
  wait_for_action-paused paused_at due offset at (timeout ∷ rest) =
      wait_for_action-paused paused_at due offset at rest

abbrev pub action_params : {F : Type 0} → Action F → List (ParamState F) → List (ParamState F)
action_params (set_param p) rest = p ∷ rest
action_params (hold m) rest = rest

-- The parameters that a schedule sets, in its order.
abbrev pub params : {F : Type 0} → List (TimedAction F) → List (ParamState F)
params [] = []
params (a ∷ rest) = action_params a.action (params rest)

-- A wait that ends the execution is no regular end.
abbrev StopsShort : Wait → Type 0
StopsShort (proceed offset p) = Unit
StopsShort (halt s p) = s ≢ finished

module _ (clock : ℕ → ℕ) where
  resume-StopsShort :
      (paused_at offset at : ℕ) (inbox : List Message)
      → StopsShort (wait_for_resume clock paused_at offset at inbox)
  unfolding wait_for_resume
  resume-StopsShort paused_at offset at [] = ground arith
  resume-StopsShort paused_at offset at (command pause ∷ rest) =
      resume-StopsShort paused_at offset at rest
  resume-StopsShort paused_at offset at (command resume ∷ rest) = tt
  resume-StopsShort paused_at offset at (command abort ∷ rest) = ground arith
  resume-StopsShort paused_at offset at (command shutdown ∷ rest) = ground arith
  resume-StopsShort paused_at offset at (disconnected ∷ rest) = ground arith
  resume-StopsShort paused_at offset at (timeout ∷ rest) =
      resume-StopsShort paused_at offset at rest

  unless_due-StopsShort :
      (due offset at : ℕ) (inbox : List Message) (w : Wait)
      → StopsShort w
      → StopsShort (unless_due clock due offset at inbox w)
  unless_due-StopsShort due offset at inbox w h =
      elim (Bool-cases (leb (due + offset) (clock at))) [ inl e ↦ rw e tt | inr e ↦ rw e h ]

  action-StopsShort :
      (mode : Option ℕ) (due offset at : ℕ) (inbox : List Message)
      → StopsShort (wait_for_action clock mode due offset at inbox)
  unfolding wait_for_action
  action-StopsShort none due offset at [] = unless_due-StopsShort due offset at [] _ (ground arith)
  action-StopsShort none due offset at (command pause ∷ rest) =
      unless_due-StopsShort due offset at _ _
        (action-StopsShort (some (clock (at + 1))) due offset (at + 2) rest)
  action-StopsShort none due offset at (command resume ∷ rest) =
      unless_due-StopsShort due offset at _ _ (action-StopsShort none due offset (at + 1) rest)
  action-StopsShort none due offset at (command abort ∷ rest) =
      unless_due-StopsShort due offset at _ _ (ground arith)
  action-StopsShort none due offset at (command shutdown ∷ rest) =
      unless_due-StopsShort due offset at _ _ (ground arith)
  action-StopsShort none due offset at (disconnected ∷ rest) =
      unless_due-StopsShort due offset at _ _ (ground arith)
  action-StopsShort none due offset at (timeout ∷ rest) = unless_due-StopsShort due offset at _ _ tt
  action-StopsShort (some paused_at) due offset at [] = ground arith
  action-StopsShort (some paused_at) due offset at (command pause ∷ rest) =
      action-StopsShort (some paused_at) due offset at rest
  action-StopsShort (some paused_at) due offset at (command resume ∷ rest) =
      action-StopsShort none due (offset + (clock at - paused_at)) (at + 1) rest
  action-StopsShort (some paused_at) due offset at (command abort ∷ rest) = ground arith
  action-StopsShort (some paused_at) due offset at (command shutdown ∷ rest) = ground arith
  action-StopsShort (some paused_at) due offset at (disconnected ∷ rest) = ground arith
  action-StopsShort (some paused_at) due offset at (timeout ∷ rest) =
      action-StopsShort (some paused_at) due offset at rest

-- The run sent a prefix of `expected`, and all of it if it finished.
abbrev pub Sends : {F : Type 0} → List (ParamState F) → Run F → Type 0
Sends {F} expected r =
    (rest : List (ParamState F)) × (expected ≡ r.sent ++ rest) × (r.status ≡ finished → rest ≡ [])

module _ {F : Type 0} ⦃d : Double F⦄ (clock : ℕ → ℕ) (get_value : ℕ → String → Option F) where
  after_wait-Sends :
      (expected : List (ParamState F)) (w : Wait) (k : ℕ → Position → Run F)
      → StopsShort w
      → ((offset : ℕ) (p : Position) → Sends expected (k offset p))
      → Sends expected (after_wait w k)
  after_wait-Sends expected (proceed offset p) k s h = h offset p
  after_wait-Sends expected (halt st p) k s h = (expected, refl, λ e. absurd (s e))

  perform-Sends :
      (expected : List (ParamState F)) (act : Action F) (k : ℕ → Position → Run F) (offset : ℕ)
      (p : Position)
      → ((offset : ℕ) (p : Position) → Sends expected (k offset p))
      → Sends (action_params act expected) (perform clock get_value act k offset p)
  unfolding perform
  perform-Sends expected (set_param q) k offset p h =
      let (rest, e, fin) = h offset p in (rest, ap (◌∷◌ q) e, fin)
  perform-Sends expected (hold m) k offset p h =
      elim (Bool-cases (should_hold (get_value p.at) m)) [
        | inl e ↦ rw e (
            after_wait-Sends expected _ k
              (resume-StopsShort clock (clock p.at) offset (p.at + 1) p.inbox) h)
        | inr e ↦ rw e (h offset p)
      ]

  pub execute-Sends :
      (schedule : List (TimedAction F)) (origin offset : ℕ) (p : Position)
      → Sends (params schedule) (execute clock get_value schedule origin offset p)
  unfolding execute
  execute-Sends [] origin offset p = ([], refl, λ e. refl)
  execute-Sends (a ∷ rest) origin offset p =
      elim (Option-cases (d.duration_from_secs a.timestamp)) [
        | inl e ↦ rw e (params (a ∷ rest), refl, λ f. absurd (ground arith))
        | inr (secs, e) ↦ rw e (
            after_wait-Sends (params (a ∷ rest)) _ _
              (action-StopsShort clock none (origin + secs) offset p.at p.inbox)
              (λ o q.
                perform-Sends (params rest) a.action _ o q
                  (λ o' q'. execute-Sends rest origin o' q')))
      ]

  after_run-eq :
      (abort_schedule : List (TimedAction F)) (r : Run F)
      → r.status ≢ aborted
      → after_run clock get_value abort_schedule r r.status ≡ r
  after_run-eq abort_schedule r n = go r.status n
    where
      go : (s : Status) → s ≢ aborted → after_run clock get_value abort_schedule r s ≡ r
      go finished n = refl
      go aborted n = absurd (n refl)
      go shut_down n = refl
      go panicked n = refl
      go waiting n = refl

  -- For every clock, field values and messages: what a thread sends is a prefix of the schedule's
  -- parameters in their order, and all of them if it ends with `finished`. If the execution is
  -- aborted, what follows is such a prefix of the abort schedule, and only then.
  pub run_thread-Sends :
      (seq abort_seq : Sequence F) (inbox : List Message)
      → let start : Position = record { at = 0; inbox = inbox } in
        let main = execute_actions clock get_value (flatten_and_interpolate seq) start in
        let tail =
          execute_actions clock get_value (flatten_and_interpolate abort_seq) main.position in
        let r = run_thread clock get_value seq abort_seq inbox in
        Sends (params (flatten_and_interpolate seq)) main
        × Sends (params (flatten_and_interpolate abort_seq)) tail
        × (main.status ≡ aborted → (r.sent ≡ main.sent ++ tail.sent) × (r.status ≡ tail.status))
        × (main.status ≢ aborted → r ≡ main)
  unfolding run_thread execute_actions
  run_thread-Sends seq abort_seq inbox = (
    execute-Sends (flatten_and_interpolate seq) (clock 0) 0 _,
    execute-Sends (flatten_and_interpolate abort_seq) _ 0 _,
    λ e. rw e (refl, refl),
    λ n. after_run-eq _ _ n,
  )
