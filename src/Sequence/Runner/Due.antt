-- ===== src/Sequence/Runner/Due.antt =====
-- The wait for an action (`execute_actions` and `wait_for_resume` of
-- src/sequence/sequence_runner.rs): its rounds, its pauses, and the moment at which it ends.
pub mod Moments
use ferro_flow.Prelude.{
  ℕ, ◌+◌, ◌-◌, ◌≤◌, ◌<◌, ◌≡◌, ◌⊎◌, refl, ap, sym, subst, List, [], ◌∷◌, ◌++◌, Option, none, some,
  All, true, false, leb, leb→le, arith, inl, inr, Bool-cases,
}
use ferro_flow.Sequence.Runner.{
  pause, resume, abort, shutdown, Message, command, timeout, disconnected, Position, Wait, proceed,
  halt, wait_for_action, wait_for_resume, unless_due,
}

-- What a paused thread ignores; a receive call without a limit does not time out.
abbrev pub IsIgnored : Message → Type 0
IsIgnored (command pause) = Unit
IsIgnored timeout = Unit
IsIgnored _ = ⊥

-- A pause ends with the first `Resume`; behind it are the messages `rest`.
abbrev pub IsResumed : List Message → List Message → Type 0
IsResumed inbox rest =
    (ignored : List Message) × All IsIgnored ignored × (inbox ≡ ignored ++ (command resume ∷ rest))

ignore :
    (m : Message) {inbox rest : List Message}
    → IsIgnored m
    → IsResumed inbox rest
    → IsResumed (m ∷ inbox) rest
ignore m i (ignored, all, e) = (m ∷ ignored, (i, all), ap (◌∷◌ m) e)

early_lt : (m n : ℕ) → leb m n ≡ false → n < m
early_lt m n h = ground arith

module _ (clock : ℕ → ℕ) where
  -- The rounds of a wait from one position to another, with the time of the pauses in them: each
  -- round reads the clock and takes a message; a pause reads it at its begin and at its end.
  pub data Waits : Position → ℕ → Position → Type 0 where
    here : (p : Position) → Waits p 0 p
    running :
        (at paused : ℕ) (rest : List Message) (p : Position)
        → Waits (record { at = at + 1; inbox = rest }) paused p
        → Waits (record { at = at; inbox = command resume ∷ rest }) paused p
    paused :
        (at paused : ℕ) (inbox rest : List Message) (p : Position)
        → IsResumed inbox rest
        → Waits (record { at = (at + 2) + 1; inbox = rest }) paused p
        → Waits
            (record { at = at; inbox = command pause ∷ inbox })
            ((clock (at + 2) - clock (at + 1)) + paused)
            p

  -- The wait ends in its last round: the offset has grown by the time of its pauses; and the clock
  -- was read at the due time plus the offset, or later, or it was read before, and the receive call
  -- that was given the rest of the time timed out.
  pub record Arrives (due offset : ℕ) (p : Position) (o : ℕ) (q : Position) : Type 0 where
    pub time_paused : ℕ
    pub last : Position
    pub waits : Waits p time_paused last
    pub total : o ≡ offset + time_paused
    pub read : q.at ≡ last.at + 1
    pub in_time :
        ((due + o ≤ clock last.at) × (q.inbox ≡ last.inbox))
        ⊎ ((clock last.at < due + o) × (last.inbox ≡ timeout ∷ q.inbox))

  abbrev pub ArrivesBy : ℕ → ℕ → Position → Wait → Type 0
  ArrivesBy due offset p (proceed o q) = Arrives due offset p o q
  ArrivesBy due offset p (halt s q) = Unit

  -- The same for a wait that is in a pause.
  abbrev ResumesBy : ℕ → ℕ → ℕ → ℕ → List Message → Wait → Type 0
  ResumesBy paused_at due offset at inbox (proceed o q) =
      (rest : List Message) × IsResumed inbox rest
      × Arrives due (offset + (clock at - paused_at)) (record { at = at + 1; inbox = rest }) o q
  ResumesBy paused_at due offset at inbox (halt s q) = Unit

  -- In a pause or not.
  abbrev InMode : Option ℕ → ℕ → ℕ → ℕ → List Message → Wait → Type 0
  InMode none due offset at inbox w = ArrivesBy due offset (record { at = at; inbox = inbox }) w
  InMode (some paused_at) due offset at inbox w = ResumesBy paused_at due offset at inbox w

  unless_due-ArrivesBy :
      (due offset at : ℕ) (inbox : List Message) (w : Wait)
      → (clock at < due + offset → ArrivesBy due offset (record { at = at; inbox = inbox }) w)
      → ArrivesBy due offset
          (record { at = at; inbox = inbox })
          (unless_due clock due offset at inbox w)
  unless_due-ArrivesBy due offset at inbox w h = elim (Bool-cases (leb (due + offset) (clock at))) [
    | inl e ↦ rw e (record {
      time_paused = 0;
      last = record { at = at; inbox = inbox };
      waits = here (record { at = at; inbox = inbox });
      total = omega arith;
      read = refl;
      in_time = inl (leb→le (due + offset) (clock at) e, refl);
    })
    | inr e ↦ rw e (h (early_lt (due + offset) (clock at) e))
  ]

  running-ArrivesBy :
      (due offset at : ℕ) (rest : List Message) (w : Wait)
      → ArrivesBy due offset (record { at = at + 1; inbox = rest }) w
      → ArrivesBy due offset (record { at = at; inbox = command resume ∷ rest }) w
  running-ArrivesBy due offset at rest (halt s q) h = tt
  running-ArrivesBy due offset at rest (proceed o q) h = record {
    time_paused = h.time_paused;
    last = h.last;
    waits = running at h.time_paused rest h.last h.waits;
    total = h.total;
    read = h.read;
    in_time = h.in_time;
  }

  paused-ArrivesBy :
      (due offset at : ℕ) (inbox : List Message) (w : Wait)
      → ResumesBy (clock (at + 1)) due offset (at + 2) inbox w
      → ArrivesBy due offset (record { at = at; inbox = command pause ∷ inbox }) w
  paused-ArrivesBy due offset at inbox (halt s q) h = tt
  paused-ArrivesBy due offset at inbox (proceed o q) (rest, r, h) = record {
    time_paused = (clock (at + 2) - clock (at + 1)) + h.time_paused;
    last = h.last;
    waits = paused at h.time_paused inbox rest h.last r h.waits;
    total = let t = h.total in omega (arith, t);
    read = h.read;
    in_time = h.in_time;
  }

  ignore-ResumesBy :
      (paused_at due offset at : ℕ) (m : Message) (inbox : List Message) (w : Wait)
      → IsIgnored m
      → ResumesBy paused_at due offset at inbox w
      → ResumesBy paused_at due offset at (m ∷ inbox) w
  ignore-ResumesBy paused_at due offset at m inbox (halt s q) i h = tt
  ignore-ResumesBy paused_at due offset at m inbox (proceed o q) i (rest, r, h) =
      (rest, ignore m i r, h)

  resume-ResumesBy :
      (paused_at due offset at : ℕ) (rest : List Message) (w : Wait)
      → ArrivesBy due (offset + (clock at - paused_at)) (record { at = at + 1; inbox = rest }) w
      → ResumesBy paused_at due offset at (command resume ∷ rest) w
  resume-ResumesBy paused_at due offset at rest (halt s q) h = tt
  resume-ResumesBy paused_at due offset at rest (proceed o q) h = (rest, ([], tt, refl), h)

  -- For every clock and every sequence of messages, in a pause or not.
  pub wait_for_action-InMode :
      (mode : Option ℕ) (due offset at : ℕ) (inbox : List Message)
      → InMode mode due offset at inbox (wait_for_action clock mode due offset at inbox)
  unfolding wait_for_action
  wait_for_action-InMode none due offset at [] = unless_due-ArrivesBy due offset at [] _ (λ l. tt)
  wait_for_action-InMode none due offset at (command pause ∷ rest) =
      unless_due-ArrivesBy due offset at _ _ λ l.
        paused-ArrivesBy due offset at rest _
          (wait_for_action-InMode (some (clock (at + 1))) due offset (at + 2) rest)
  wait_for_action-InMode none due offset at (command resume ∷ rest) =
      unless_due-ArrivesBy due offset at _ _ λ l.
        running-ArrivesBy due offset at rest _
          (wait_for_action-InMode none due offset (at + 1) rest)
  wait_for_action-InMode none due offset at (command abort ∷ rest) =
      unless_due-ArrivesBy due offset at _ _ (λ l. tt)
  wait_for_action-InMode none due offset at (command shutdown ∷ rest) =
      unless_due-ArrivesBy due offset at _ _ (λ l. tt)
  wait_for_action-InMode none due offset at (disconnected ∷ rest) =
      unless_due-ArrivesBy due offset at _ _ (λ l. tt)
  wait_for_action-InMode none due offset at (timeout ∷ rest) =
      unless_due-ArrivesBy due offset at _ _ λ l. record {
        time_paused = 0;
        last = record { at = at; inbox = timeout ∷ rest };
        waits = here (record { at = at; inbox = timeout ∷ rest });
        total = omega arith;
        read = refl;
        in_time = inr (l, refl);
      }
  wait_for_action-InMode (some paused_at) due offset at [] = tt
  wait_for_action-InMode (some paused_at) due offset at (command pause ∷ rest) =
      ignore-ResumesBy paused_at due offset at (command pause) rest _ tt
        (wait_for_action-InMode (some paused_at) due offset at rest)
  wait_for_action-InMode (some paused_at) due offset at (command resume ∷ rest) =
      resume-ResumesBy paused_at due offset at rest _
        (wait_for_action-InMode none due (offset + (clock at - paused_at)) (at + 1) rest)
  wait_for_action-InMode (some paused_at) due offset at (command abort ∷ rest) = tt
  wait_for_action-InMode (some paused_at) due offset at (command shutdown ∷ rest) = tt
  wait_for_action-InMode (some paused_at) due offset at (disconnected ∷ rest) = tt
  wait_for_action-InMode (some paused_at) due offset at (timeout ∷ rest) =
      ignore-ResumesBy paused_at due offset at timeout rest _ tt
        (wait_for_action-InMode (some paused_at) due offset at rest)

  -- A hold that is resumed: its time is added to the offset.
  pub record IsHeld (paused_at offset at : ℕ) (inbox : List Message) (o : ℕ) (q : Position)
      : Type 0 where
    pub resumed : IsResumed inbox q.inbox
    pub read : q.at ≡ at + 1
    pub total : o ≡ offset + (clock at - paused_at)

  abbrev HeldBy : ℕ → ℕ → ℕ → List Message → Wait → Type 0
  HeldBy paused_at offset at inbox (proceed o q) = IsHeld paused_at offset at inbox o q
  HeldBy paused_at offset at inbox (halt s q) = Unit

  ignore-HeldBy :
      (paused_at offset at : ℕ) (m : Message) (inbox : List Message) (w : Wait)
      → IsIgnored m
      → HeldBy paused_at offset at inbox w
      → HeldBy paused_at offset at (m ∷ inbox) w
  ignore-HeldBy paused_at offset at m inbox (halt s q) i h = tt
  ignore-HeldBy paused_at offset at m inbox (proceed o q) i h = record {
    resumed = ignore m i h.resumed;
    read = h.read;
    total = h.total;
  }

  pub wait_for_resume-HeldBy :
      (paused_at offset at : ℕ) (inbox : List Message)
      → HeldBy paused_at offset at inbox (wait_for_resume clock paused_at offset at inbox)
  unfolding wait_for_resume
  wait_for_resume-HeldBy paused_at offset at [] = tt
  wait_for_resume-HeldBy paused_at offset at (command pause ∷ rest) =
      ignore-HeldBy paused_at offset at (command pause) rest _ tt
        (wait_for_resume-HeldBy paused_at offset at rest)
  wait_for_resume-HeldBy paused_at offset at (command resume ∷ rest) = record {
    resumed = ([], tt, refl);
    read = refl;
    total = refl;
  }
  wait_for_resume-HeldBy paused_at offset at (command abort ∷ rest) = tt
  wait_for_resume-HeldBy paused_at offset at (command shutdown ∷ rest) = tt
  wait_for_resume-HeldBy paused_at offset at (disconnected ∷ rest) = tt
  wait_for_resume-HeldBy paused_at offset at (timeout ∷ rest) =
      ignore-HeldBy paused_at offset at timeout rest _ tt
        (wait_for_resume-HeldBy paused_at offset at rest)
