-- ===== src/Server/Registering.antt =====
-- The start of the program (src/lib.rs) asks the nodes to register.
use ferro_flow.Prelude.{
  ◌≡◌, ◌≢◌, ◌⊎◌, refl, ap, sym, ◌∙◌, Bool, List, [], ◌∷◌, ◌++◌, append_assoc, ok, err, Result, ◌==◌,
  string_eq, Bool-cases, inl, inr, arith,
}
use ferro_flow.Platform.{Platform}
use ferro_flow.Events.{Event, EventDispatcher}
use ferro_flow.Messages.{NodeIds}
use ferro_flow.Nodes.Manager.{start_node_registration}
use ferro_flow.Can.{CanCrate, CanError, Sockets}
use ferro_flow.Db.{DbError}
use ferro_flow.Server.{Config, Phase, Server}
use ferro_flow.Server.Turns.{after_can, after_logger}
use ferro_flow.Server.Steps.{Action, main_thread, advance, act, step, run, dispatched}
use ferro_flow.Server.Rules.{KeptByThreads, thread-Kept}

module _ {w : Platform} where
  -- The request that the nodes register is among the events.
  abbrev pub IsRequested : NodeIds → List (Event w) → Type 0
  IsRequested ids es =
      (before after : List (Event w)) × (es ≡ before ++ (start_node_registration ids ++ after))

  module _ (c : CanCrate w) (sockets : Sockets) (connects : Bool) (config : Config) where
    abbrev IsUnstarted : Server w → Type 0
    IsUnstarted s = s.phase ≢ Phase.started

    unstarted : KeptByThreads c sockets connects config IsUnstarted
    unstarted = record {
      on_subscribe = λ s h. h;
      on_runner = λ s r h. h;
      on_command = λ s e ls t h. h;
      on_leave = λ s n d l h. h;
      on_message = λ s now e ls g t h. h;
      on_heartbeat = λ s now g h. h;
      on_send = λ s e ls n t h. h;
      on_send_end = λ s ls t h. h;
      on_log = λ s k b e ls q u t h. h;
      on_timeout = λ s k b q u h. h;
    }

    after_can-IsUnstarted :
        (s : Server w) (d : EventDispatcher w) (r : Result CanError (Unit {0}))
        → IsUnstarted (after_can s d r)
    after_can-IsUnstarted s d (ok u) e = ground arith
    after_can-IsUnstarted s d (err x) e = ground arith

    after_logger-IsUnstarted :
        (s : Server w) (r : Result DbError (EventDispatcher w)) → IsUnstarted (after_logger s r)
    after_logger-IsUnstarted s (ok d) e = ground arith
    after_logger-IsUnstarted s (err x) e = ground arith

    -- The main thread's call asks for the registration, or leaves the program unstarted.
    advance-cases :
        (phase : Phase) (s : Server w)
        → s.phase ≡ phase
        → phase ≢ Phase.started
        → let m = advance c sockets connects config phase s in
          (m.events ≡ start_node_registration c.ids) ⊎ IsUnstarted m.server
    unfolding advance
    advance-cases Phase.spawning_can s q n = inr (after_can-IsUnstarted s _ _)
    advance-cases Phase.spawning_runner s q n = inr (λ e. ground arith)
    advance-cases Phase.spawning_logger s q n = elim (Bool-cases (config.database_url == "")) [
      | inl d ↦ rw d (inr (λ e. ground arith))
      | inr d ↦ rw d (inr (after_logger-IsUnstarted s _))
    ]
    advance-cases Phase.spawning_handler s q n = inr (λ e. ground arith)
    advance-cases Phase.spawning_heartbeat s q n = inr (λ e. ground arith)
    advance-cases Phase.registering s q n = inl refl
    advance-cases Phase.started s q n = absurd (n refl)
    advance-cases Phase.can_failed s q n = inr (rw q n)
    advance-cases Phase.logger_failed s q n = inr (rw q n)

    main-or_other : (a : Action w) → (a ≡ main_thread) ⊎ (a ≢ main_thread)
    main-or_other a = ground arith

    act-cases :
        (a : Action w) (s : Server w)
        → IsUnstarted s
        → let m = act c sockets connects config a s in
          (m.events ≡ start_node_registration c.ids) ⊎ IsUnstarted m.server
    unfolding act
    act-cases a s n = elim (main-or_other a) [
      | inl q ↦ rw q (advance-cases s.phase s refl n)
      | inr q ↦ inr (thread-Kept c sockets connects config unstarted a s q n)
    ]

    pub run-IsRequested :
        (actions : List (Action w)) (s : Server w)
        → s.phase ≢ Phase.started
        → (run c sockets connects config actions s).phase ≡ Phase.started
        → IsRequested c.ids (dispatched c sockets connects config actions s)
    unfolding run dispatched step
    run-IsRequested [] s n e = absurd (n e)
    run-IsRequested (a ∷ actions) s n e =
        let m = act c sockets connects config a s in
        let s' = step c sockets connects config a s in
        let rest = dispatched c sockets connects config actions s' in
        elim (act-cases a s n) [
          | inl q ↦ ([], rest, ap (λ (l : List (Event w)). l ++ rest) q)
          | inr u ↦
              let (before, after, q) = run-IsRequested actions s' u e in
              (
                m.events ++ before,
                after,
                ap (◌++◌ m.events) q ∙ sym (append_assoc m.events before _),
              )
        ]
