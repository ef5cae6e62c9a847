-- ===== src/Sequence/Validation/Order.antt =====
-- What the rules give for the whole sequence: steps do not interleave, and no action leaves the
-- global time span.
use ferro_flow.Prelude.{◌≡◌, List, [], ◌∷◌, ok, All, All-map, Pairs, arith}
use ferro_flow.Numbers.{Double, ◌≼◌, IsOrdered}
use ferro_flow.Sequence.{Sequence, Globals, Step, TimedAction}
use ferro_flow.Sequence.Validation.{validate}
use ferro_flow.Sequence.Validation.Rules.{StepRules, WindowRules, Windows, Before, validate_iff}

module _ {F : Type 0} ⦃d : Double F⦄ where
  -- Every action of the one step is strictly earlier than every action of the other.
  abbrev pub Precedes : Step F → Step F → Type 0
  Precedes s t =
      All
        (λ (a : TimedAction F).
          All (λ (b : TimedAction F). Before a.timestamp b.timestamp) t.actions)
        s.actions

  abbrev pub Within : Globals F → TimedAction F → Type 0
  Within g a = (g.start_time ≼ a.timestamp) × (a.timestamp ≼ g.end_time)

  module _ (laws : IsOrdered F) where
    open laws use {le_trans, refl_of_le}

    Before-le : (x y z : F) → Before x y → y ≼ z → Before x z
    Before-le x y z h k = ground (arith, le_trans x y z, le_trans y z x)

    Windows-le :
        (g : Globals F) (s : Step F) (rest : List (Step F))
        → All (StepRules g) (s ∷ rest)
        → Windows (s ∷ rest)
        → All (λ (t : Step F). s.timestamp ≼ t.timestamp) (s ∷ rest)
    Windows-le g s [] (r, _) w = ((refl_of_le _ _ r.before_end).0, tt)
    Windows-le g s (next ∷ rest) (r, rs) (w, ws) =
        let up : s.timestamp ≼ next.timestamp = ground (arith, w.step_before) in
        (
          (refl_of_le _ _ r.before_end).0,
          All-map (next ∷ rest) (λ t h. le_trans s.timestamp next.timestamp t.timestamp up h)
              (Windows-le g next rest rs ws),
        )

    Precedes-le :
        (g : Globals F) (s next t : Step F)
        → WindowRules s next
        → StepRules g t
        → next.timestamp ≼ t.timestamp
        → Precedes s t
    Precedes-le g s next t w r h =
        All-map s.actions
          (λ a before.
            All-map t.actions
              (λ b rules.
                Before-le a.timestamp next.timestamp b.timestamp before
                  (le_trans _ _ _ h rules.after_step))
              r.actions)
          w.actions_before

    All-Precedes :
        (g : Globals F) (s next : Step F) (ts : List (Step F))
        → WindowRules s next
        → All (StepRules g) ts
        → All (λ (t : Step F). next.timestamp ≼ t.timestamp) ts
        → All (Precedes s) ts
    All-Precedes g s next [] w r h = tt
    All-Precedes g s next (t ∷ ts) w (r, rs) (h, hs) =
        (Precedes-le g s next t w r h, All-Precedes g s next ts w rs hs)

    Windows-Pairs :
        (g : Globals F) (ss : List (Step F)) → All (StepRules g) ss → Windows ss → Pairs Precedes ss
    Windows-Pairs g [] r w = tt
    Windows-Pairs g (s ∷ []) r w = (tt, tt)
    Windows-Pairs g (s ∷ next ∷ rest) (r, rs) (w, ws) = (
      All-Precedes g s next (next ∷ rest) w rs (Windows-le g next rest rs ws),
      Windows-Pairs g (next ∷ rest) rs ws,
    )

    -- Let `le` be an order on the numbers that are no NaN. In a validated sequence every action of
    -- a step is strictly earlier than every action of every later step, and every action lies
    -- between the global start and end.
    pub validate_ordered :
        (seq : Sequence F)
        → validate seq ≡ ok tt
        → Pairs Precedes seq.steps
          × All (λ (s : Step F). All (Within seq.globals) s.actions) seq.steps
    validate_ordered seq h =
        let rules = (validate_iff seq).0 h in
        (
          Windows-Pairs seq.globals seq.steps rules.steps rules.windows,
          All-map seq.steps
              (λ s r.
                All-map s.actions (λ a q. (le_trans _ _ _ r.after_start q.after_step, q.before_end))
                  r.actions)
              rules.steps,
        )
