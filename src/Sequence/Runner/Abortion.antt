-- ===== src/Sequence/Runner/Abortion.antt =====
-- An abort that arrives while a sequence runs leads to the abort sequence, which is executed to its
-- end.
use ferro_flow.Prelude.{
  ℕ, ◌+◌, ◌-◌, ◌≤◌, ◌≡◌, ◌⊎◌, refl, sym, ap, subst, ◌∙◌, String, List, [], ◌∷◌, ◌++◌, Option, none,
  some, leb, arith, inl, inr, Bool-cases, append-nil, length, All,
}
use ferro_flow.Numbers.{Double}
use ferro_flow.Sequence.{Sequence, TimedAction, Action, ParamState, hold, set_param}
use ferro_flow.Sequence.Hold.{should_hold}
use ferro_flow.Sequence.Builder.{flatten_and_interpolate}
use ferro_flow.Sequence.Runner.{
  pause, resume, abort, shutdown, Message, command, timeout, disconnected, finished, aborted,
  Position, Wait, proceed, halt, Run, wait_for_resume, wait_for_action, unless_due, after_wait,
  perform, execute, execute_actions, run_thread,
}
use ferro_flow.Sequence.Runner.Execution.{params, run_thread-Sends}
use ferro_flow.Sequence.Runner.Completion.{timeouts, IsPlain, execute_actions-finished}

-- A message that lets an execution go on.
abbrev pub IsCalm : Message → Type 0
IsCalm (command pause) = Unit
IsCalm (command resume) = Unit
IsCalm (command abort) = ⊥
IsCalm (command shutdown) = ⊥
IsCalm timeout = Unit
IsCalm disconnected = ⊥

-- In the channel there is an abort, with nothing but calm messages before it, and `after` behind
-- it.
abbrev HasAbort : List Message → List Message → Type 0
HasAbort after inbox = (b : List Message) × All IsCalm b × (inbox ≡ b ++ (command abort ∷ after))

-- A wait goes on with the abort still before it, or ends by it.
abbrev Heeds : List Message → Wait → Type 0
Heeds after (proceed offset p) = HasAbort after p.inbox
Heeds after (halt s p) = (s ≡ aborted) × (p.inbox ≡ after)

module _ (clock : ℕ → ℕ) (after : List Message) where
  resume-Heeds :
      (paused_at offset at : ℕ) (b : List Message)
      → All IsCalm b
      → Heeds after (wait_for_resume clock paused_at offset at (b ++ (command abort ∷ after)))
  unfolding wait_for_resume
  resume-Heeds paused_at offset at [] c = (refl, refl)
  resume-Heeds paused_at offset at (command pause ∷ b) (_, c) = resume-Heeds paused_at offset at b c
  resume-Heeds paused_at offset at (command resume ∷ b) (_, c) = (b, c, refl)
  resume-Heeds paused_at offset at (command abort ∷ b) (x, c) = absurd x
  resume-Heeds paused_at offset at (command shutdown ∷ b) (x, c) = absurd x
  resume-Heeds paused_at offset at (disconnected ∷ b) (x, c) = absurd x
  resume-Heeds paused_at offset at (timeout ∷ b) (_, c) = resume-Heeds paused_at offset at b c

  unless_due-Heeds :
      (due offset at : ℕ) (b : List Message) (w : Wait)
      → All IsCalm b
      → Heeds after w
      → Heeds after (unless_due clock due offset at (b ++ (command abort ∷ after)) w)
  unless_due-Heeds due offset at b w c h = elim (Bool-cases (leb (due + offset) (clock at))) [
    | inl e ↦ rw e (b, c, refl)
    | inr e ↦ rw e h
  ]

  action-Heeds :
      (mode : Option ℕ) (due offset at : ℕ) (b : List Message)
      → All IsCalm b
      → Heeds after (wait_for_action clock mode due offset at (b ++ (command abort ∷ after)))
  unfolding wait_for_action
  action-Heeds none due offset at [] c = unless_due-Heeds due offset at [] _ tt (refl, refl)
  action-Heeds none due offset at (command pause ∷ b) c =
      unless_due-Heeds due offset at (command pause ∷ b) _ c
        (action-Heeds (some (clock (at + 1))) due offset (at + 2) b c.1)
  action-Heeds none due offset at (command resume ∷ b) c =
      unless_due-Heeds due offset at (command resume ∷ b) _ c
        (action-Heeds none due offset (at + 1) b c.1)
  action-Heeds none due offset at (timeout ∷ b) c =
      unless_due-Heeds due offset at (timeout ∷ b) _ c (b, c.1, refl)
  action-Heeds none due offset at (command abort ∷ b) (x, c) = absurd x
  action-Heeds none due offset at (command shutdown ∷ b) (x, c) = absurd x
  action-Heeds none due offset at (disconnected ∷ b) (x, c) = absurd x
  action-Heeds (some paused_at) due offset at [] c = (refl, refl)
  action-Heeds (some paused_at) due offset at (command pause ∷ b) (_, c) =
      action-Heeds (some paused_at) due offset at b c
  action-Heeds (some paused_at) due offset at (command resume ∷ b) (_, c) =
      action-Heeds none due (offset + (clock at - paused_at)) (at + 1) b c
  action-Heeds (some paused_at) due offset at (timeout ∷ b) (_, c) =
      action-Heeds (some paused_at) due offset at b c
  action-Heeds (some paused_at) due offset at (command abort ∷ b) (x, c) = absurd x
  action-Heeds (some paused_at) due offset at (command shutdown ∷ b) (x, c) = absurd x
  action-Heeds (some paused_at) due offset at (disconnected ∷ b) (x, c) = absurd x

-- The time of an action fits a `Duration`.
abbrev pub Fits : {F : Type 0} ⦃d : Double F⦄ → TimedAction F → Type 0
Fits ⦃d⦄ a = (secs : ℕ) × (d.duration_from_secs a.timestamp ≡ some secs)

module _ {F : Type 0} ⦃d : Double F⦄ (clock : ℕ → ℕ) (get_value : ℕ → String → Option F)
    (after : List Message) where
  abbrev Ends : Run F → Type 0
  Ends r = (r.status ≡ finished) ⊎ ((r.status ≡ aborted) × (r.position.inbox ≡ after))

  after_wait-Ends :
      (w : Wait) (k : ℕ → Position → Run F)
      → Heeds after w
      → ((offset : ℕ) (p : Position) → HasAbort after p.inbox → Ends (k offset p))
      → Ends (after_wait w k)
  after_wait-Ends (proceed offset p) k h f = f offset p h
  after_wait-Ends (halt s p) k h f = inr h

  perform-Ends :
      (act : Action F) (k : ℕ → Position → Run F) (offset : ℕ) (p : Position)
      → HasAbort after p.inbox
      → ((offset : ℕ) (p : Position) → HasAbort after p.inbox → Ends (k offset p))
      → Ends (perform clock get_value act k offset p)
  unfolding perform
  perform-Ends (set_param q) k offset p h f = f offset p h
  perform-Ends (hold m) k offset p (b, c, e) f =
      elim (Bool-cases (should_hold (get_value p.at) m)) [
        | inl t ↦
            rw (t, e)
              (after_wait-Ends _ k (resume-Heeds clock after (clock p.at) offset (p.at + 1) b c) f)
        | inr t ↦ rw t (f offset p (b, c, e))
      ]

  execute-Ends :
      (schedule : List (TimedAction F)) (origin offset : ℕ) (p : Position)
      → All Fits schedule
      → HasAbort after p.inbox
      → Ends (execute clock get_value schedule origin offset p)
  unfolding execute
  execute-Ends [] origin offset p f h = inl refl
  execute-Ends (a ∷ rest) origin offset p ((secs, fits), f) (b, c, e) =
      rw (fits, e)
        (after_wait-Ends _ _ (action-Heeds clock after none (origin + secs) offset p.at b c)
          λ o q h. perform-Ends a.action _ o q h λ o' q' h'. execute-Ends rest origin o' q' f h')

  execute_actions-Ends :
      (schedule : List (TimedAction F)) (p : Position)
      → All Fits schedule
      → HasAbort after p.inbox
      → Ends (execute_actions clock get_value schedule p)
  unfolding execute_actions
  execute_actions-Ends schedule p f h = execute-Ends schedule (clock p.at) 0 _ f h

-- The abort came too late, or after what was sent the abort schedule was sent.
pub record IsAborted {F : Type 0} (schedule abort_schedule : List (TimedAction F)) (r : Run F)
    : Type 0 where
  pub sent_before : List (ParamState F)
  pub unsent : List (ParamState F)
  pub prefix : params schedule ≡ sent_before ++ unsent
  pub sent : (r.sent ≡ params schedule) ⊎ (r.sent ≡ sent_before ++ params abort_schedule)
  pub ended : r.status ≡ finished

module _ {F : Type 0} ⦃d : Double F⦄ (clock : ℕ → ℕ) (get_value : ℕ → String → Option F) where
  -- An execution from a position whose receive calls all time out.
  finished_from :
      (schedule : List (TimedAction F)) (p : Position) (n : ℕ)
      → All (IsPlain clock get_value) schedule
      → length schedule ≤ n
      → p.inbox ≡ timeouts n
      → let r = execute_actions clock get_value schedule p in
        (r.status ≡ finished) × (r.sent ≡ params schedule)
  finished_from schedule p n h l e =
      rw e (execute_actions-finished clock get_value schedule p.at n h l)

  -- Let the times of a sequence fit a `Duration`, and let its abort sequence only set parameters,
  -- at such times. For every clock and all field values: if the thread meets an abort, with nothing
  -- before it but pauses, resumes and time-outs, and then no further command, the thread ends with
  -- `finished`: either it had sent the whole sequence before it came to the abort, or it sends all
  -- of the abort sequence, behind the part of the sequence that it has sent.
  pub run_thread-abort :
      (seq abort_seq : Sequence F) (before : List Message) (n : ℕ)
      → All IsCalm before
      → All Fits (flatten_and_interpolate seq)
      → All (IsPlain clock get_value) (flatten_and_interpolate abort_seq)
      → length (flatten_and_interpolate abort_seq) ≤ n
      → IsAborted
          (flatten_and_interpolate seq)
          (flatten_and_interpolate abort_seq)
          (run_thread clock get_value seq abort_seq (before ++ (command abort ∷ timeouts n)))
  run_thread-abort seq abort_seq before n c f h l =
      let inbox = before ++ (command abort ∷ timeouts n) in
      let start : Position = record { at = 0; inbox = inbox } in
      let main = execute_actions clock get_value (flatten_and_interpolate seq) start in
      let ((rest, e, all_sent), _, aborts, ends) =
        run_thread-Sends clock get_value seq abort_seq inbox in
      elim (execute_actions-Ends clock get_value (timeouts n) (flatten_and_interpolate seq) start f
        (before, c, refl)) [
          | inl done ↦
              let same = ends (λ a. absurd (ground (arith, done, a))) in
              record {
                sent_before = main.sent;
                unsent = rest;
                prefix = e;
                sent = inl (
                    rw same (
                      sym (
                        subst
                          (λ (r : List (ParamState F)).
                            params (flatten_and_interpolate seq) ≡ main.sent ++ r)
                          (all_sent done) e
                        ∙ append-nil main.sent)));
                ended = rw same done;
              }
          | inr (stopped, left) ↦
              let (sends, status) = aborts stopped in
              let (fin, all_of_it) =
                finished_from (flatten_and_interpolate abort_seq) main.position n h l left in
              record {
                sent_before = main.sent;
                unsent = rest;
                prefix = e;
                sent = inr (sends ∙ ap (◌++◌ main.sent) all_of_it);
                ended = status ∙ fin;
              }
        ]
