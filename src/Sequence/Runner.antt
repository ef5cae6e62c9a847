-- ===== src/Sequence/Runner.antt =====
-- src/sequence/sequence_runner.rs: one sequence is executed by one thread, which commands control.
-- `clock k` is the `k`-th reading of `Instant::now` in nanoseconds, `at` counts the readings made.
-- A message is what one receive call of the thread returns; with no message left the thread waits.
pub mod Execution
pub mod Completion
pub mod Abortion
pub mod Due
pub mod Control
pub mod Requests
use ferro_flow.Prelude.{
  ℕ, ◌+◌, ◌-◌, String, Bool, true, false, List, [], ◌∷◌, ◌++◌, Option, none, some, leb,
  if◌then◌else◌,
}
use ferro_flow.Numbers.{Double}
use ferro_flow.Sequence.{Sequence, TimedAction, Action, ParamState, HoldMode, hold, set_param}
use ferro_flow.Sequence.Hold.{should_hold}
use ferro_flow.Sequence.Builder.{flatten_and_interpolate}

pub data SequenceCmd : Type 0 where
  pause resume abort shutdown : SequenceCmd

pub data Message : Type 0 where
  command : SequenceCmd → Message
  timeout disconnected : Message

-- How an execution stands: `Ok(())`, the two `SequenceRunError`s, a panic of `from_secs_f64`, or
-- blocked in a receive call.
pub data Status : Type 0 where
  finished aborted shut_down panicked waiting : Status

-- The thread's position in its clock and its channel.
pub record Position : Type 0 where
  pub at : ℕ
  pub inbox : List Message

pub data Wait : Type 0 where
  proceed : ℕ → Position → Wait  -- with the pause offset
  halt : Status → Position → Wait

-- What an execution did: the parameters set, in order, and how it ended.
pub record Run (F : Type 0) : Type 0 where
  pub sent : List (ParamState F)
  pub status : Status
  pub position : Position

module _ (clock : ℕ → ℕ) where
  -- `wait_for_resume`; the result is `offset` plus the time that has passed. A receive call with no
  -- time limit does not time out.
  unfoldable pub wait_for_resume : (paused_at offset at : ℕ) → List Message → Wait
  wait_for_resume paused_at offset at [] = halt waiting (record { at = at; inbox = [] })
  wait_for_resume paused_at offset at (command pause ∷ rest) =
      wait_for_resume paused_at offset at rest
  wait_for_resume paused_at offset at (command resume ∷ rest) =
      proceed (offset + (clock at - paused_at)) (record { at = at + 1; inbox = rest })
  wait_for_resume paused_at offset at (command abort ∷ rest) =
      halt aborted (record { at = at; inbox = rest })
  wait_for_resume paused_at offset at (command shutdown ∷ rest) =
      halt shut_down (record { at = at; inbox = rest })
  wait_for_resume paused_at offset at (disconnected ∷ rest) =
      halt shut_down (record { at = at; inbox = rest })
  wait_for_resume paused_at offset at (timeout ∷ rest) = wait_for_resume paused_at offset at rest

  -- `now >= deadline` of the inner loop of `execute_actions`, which reads the clock first.
  abbrev unless_due : (due offset at : ℕ) → List Message → Wait → Wait
  unless_due due offset at inbox waits =
      if leb (due + offset) (clock at)
      then proceed offset (record { at = at + 1; inbox = inbox })
      else waits

  -- The inner loop of `execute_actions`, one recursion on the messages: `some paused_at` is the
  -- wait inside `wait_for_resume`, after which the loop goes on (`wait_for_action-paused`).
  unfoldable pub wait_for_action : Option ℕ → (due offset at : ℕ) → List Message → Wait
  wait_for_action none due offset at [] =
      unless_due due offset at [] (halt waiting (record { at = at + 1; inbox = [] }))
  wait_for_action none due offset at (command resume ∷ rest) =
      unless_due due offset at (command resume ∷ rest)
        (wait_for_action none due offset (at + 1) rest)
  wait_for_action none due offset at (command pause ∷ rest) =
      unless_due due offset at (command pause ∷ rest)
        (wait_for_action (some (clock (at + 1))) due offset (at + 2) rest)
  wait_for_action none due offset at (command abort ∷ rest) =
      unless_due due offset at (command abort ∷ rest)
        (halt aborted (record { at = at + 1; inbox = rest }))
  wait_for_action none due offset at (command shutdown ∷ rest) =
      unless_due due offset at (command shutdown ∷ rest)
        (halt shut_down (record { at = at + 1; inbox = rest }))
  wait_for_action none due offset at (disconnected ∷ rest) =
      unless_due due offset at (disconnected ∷ rest)
        (halt shut_down (record { at = at + 1; inbox = rest }))
  wait_for_action none due offset at (timeout ∷ rest) =
      unless_due due offset at (timeout ∷ rest)
        (proceed offset (record { at = at + 1; inbox = rest }))
  wait_for_action (some paused_at) due offset at [] = halt waiting (record { at = at; inbox = [] })
  wait_for_action (some paused_at) due offset at (command pause ∷ rest) =
      wait_for_action (some paused_at) due offset at rest
  wait_for_action (some paused_at) due offset at (command resume ∷ rest) =
      wait_for_action none due (offset + (clock at - paused_at)) (at + 1) rest
  wait_for_action (some paused_at) due offset at (command abort ∷ rest) =
      halt aborted (record { at = at; inbox = rest })
  wait_for_action (some paused_at) due offset at (command shutdown ∷ rest) =
      halt shut_down (record { at = at; inbox = rest })
  wait_for_action (some paused_at) due offset at (disconnected ∷ rest) =
      halt shut_down (record { at = at; inbox = rest })
  wait_for_action (some paused_at) due offset at (timeout ∷ rest) =
      wait_for_action (some paused_at) due offset at rest

-- `?` on a wait: go on after it, or end the execution.
abbrev pub after_wait : {F : Type 0} → Wait → (ℕ → Position → Run F) → Run F
after_wait (proceed offset p) k = k offset p
after_wait (halt s p) k = record { sent = []; status = s; position = p }

-- `Duration::from_secs_f64`, whose panic ends the thread.
abbrev pub or_panic : {F : Type 0} → Option ℕ → Position → (ℕ → Run F) → Run F
or_panic none p k = record { sent = []; status = panicked; position = p }
or_panic (some secs) p k = k secs

module _ {F : Type 0} ⦃d : Double F⦄ (clock : ℕ → ℕ) (get_value : ℕ → String → Option F) where
  -- What is done with an action that is due; `rest` executes the actions behind it. An error of
  -- `set_value` is only printed, so a call of it is recorded and nothing else.
  unfoldable pub perform : Action F → (ℕ → Position → Run F) → ℕ → Position → Run F
  perform (set_param p) rest offset at = let r = rest offset at in record r { sent = p ∷ r.sent }
  perform (hold mode) rest offset at =
      if should_hold (get_value at.at) mode
      then after_wait (wait_for_resume clock (clock at.at) offset (at.at + 1) at.inbox) rest
      else rest offset at

  -- The outer loop of `execute_actions`.
  unfoldable pub execute : List (TimedAction F) → (origin offset : ℕ) → Position → Run F
  unfolding perform
  execute [] origin offset p = record { sent = []; status = finished; position = p }
  execute (a ∷ rest) origin offset p = or_panic (d.duration_from_secs a.timestamp) p λ secs.
      after_wait (wait_for_action clock none (origin + secs) offset p.at p.inbox)
        (perform a.action (λ offset' p'. execute rest origin offset' p'))

  unfoldable pub execute_actions : List (TimedAction F) → Position → Run F
  unfolding execute
  execute_actions schedule p = execute schedule (clock p.at) 0 (record p { at = p.at + 1 })

  -- "Execution of sequence was aborted, now running abort sequence"
  abbrev run_abort : List (TimedAction F) → Run F → Run F
  run_abort abort_schedule r =
      let b = execute_actions abort_schedule r.position in record b { sent = r.sent ++ b.sent }

  abbrev after_run : List (TimedAction F) → Run F → Status → Run F
  after_run abort_schedule r aborted = run_abort abort_schedule r
  after_run abort_schedule r finished = r
  after_run abort_schedule r shut_down = r
  after_run abort_schedule r panicked = r
  after_run abort_schedule r waiting = r

  -- The body of the thread that `run_sequence` spawns.
  unfoldable pub run_thread : Sequence F → Sequence F → List Message → Run F
  run_thread seq abort_seq inbox =
      let schedule = flatten_and_interpolate seq in
      let abort_schedule = flatten_and_interpolate abort_seq in
      let r = execute_actions schedule (record { at = 0; inbox = inbox }) in
      after_run abort_schedule r r.status
