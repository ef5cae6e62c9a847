-- ===== src/Server/Startup.antt =====
-- The start of the program, when the configured database cannot be reached.
use ferro_flow.Prelude.{
  ◌≡◌, refl, Bool, true, false, List, none, ok, err, Result, ◌==◌, string_eq, arith,
}
use ferro_flow.Platform.{Platform}
use ferro_flow.Events.{EventDispatcher}
use ferro_flow.Mapping.{Mapping}
use ferro_flow.Nodes.Manager
use ferro_flow.Nodes.Manager.{NodeManager}
use ferro_flow.Can.{CanCrate, CanError, Sockets}
use ferro_flow.Db.{spawn_logging_worker}
use ferro_flow.Server.{Config, Phase, Server, has_handler, has_heartbeat, new}
use ferro_flow.Server.Turns.{after_can}
use ferro_flow.Server.Steps.{Action, advance, run}
use ferro_flow.Server.Rules.{Kept, run-Kept}

-- The phases before the logging worker is connected, and the failures.
abbrev is_early : Phase → Bool
is_early Phase.spawning_can = true
is_early Phase.spawning_runner = true
is_early Phase.spawning_logger = true
is_early Phase.can_failed = true
is_early Phase.logger_failed = true
is_early _ = false

early_no_handler : (phase : Phase) → is_early phase ≡ true → has_handler phase ≡ true → ⊥
early_no_handler phase h g = ground arith

early_no_heartbeat : (phase : Phase) → is_early phase ≡ true → has_heartbeat phase ≡ true → ⊥
early_no_heartbeat phase h g = ground arith

module _ {w : Platform} (m : NodeManager w) where
  record IsIdle (s : Server w) : Type 0 where
    early : is_early s.phase ≡ true
    manager : s.manager ≡ m
    worker : s.worker ≡ none

  after_can-IsIdle :
      (s : Server w) (d : EventDispatcher w) (r : Result CanError (Unit {0}))
      → IsIdle s
      → IsIdle (after_can s d r)
  after_can-IsIdle s d (ok u) h = record { early = refl; manager = h.manager; worker = h.worker }
  after_can-IsIdle s d (err e) h = record { early = refl; manager = h.manager; worker = h.worker }

  module _ (c : CanCrate w) (sockets : Sockets) (config : Config)
      (has_database : (config.database_url == "") ≡ false) where
    advance-IsIdle :
        (phase : Phase) (s : Server w)
        → is_early phase ≡ true
        → IsIdle s
        → IsIdle (advance c sockets false config phase s).server
    unfolding advance spawn_logging_worker
    advance-IsIdle Phase.spawning_can s e h = after_can-IsIdle s _ _ h
    advance-IsIdle Phase.spawning_runner s e h = record {
      early = refl;
      manager = h.manager;
      worker = h.worker;
    }
    advance-IsIdle Phase.spawning_logger s e h =
        rw has_database (record { early = refl; manager = h.manager; worker = h.worker })
    advance-IsIdle Phase.spawning_handler s e h = absurd (ground arith)
    advance-IsIdle Phase.spawning_heartbeat s e h = absurd (ground arith)
    advance-IsIdle Phase.registering s e h = absurd (ground arith)
    advance-IsIdle Phase.started s e h = absurd (ground arith)
    advance-IsIdle Phase.can_failed s e h = h
    advance-IsIdle Phase.logger_failed s e h = h

    kept : Kept c sockets false config IsIdle
    kept = record {
      on_main = λ s h. advance-IsIdle s.phase s h.early h;
      threads = record {
        on_subscribe = λ s h. record { early = h.early; manager = h.manager; worker = h.worker };
        on_runner = λ s r h. record { early = h.early; manager = h.manager; worker = h.worker };
        on_command =
            λ s e ls t h. record { early = h.early; manager = h.manager; worker = h.worker };
        on_leave = λ s n d l h. record { early = h.early; manager = h.manager; worker = h.worker };
        on_send_end =
            λ s ls t h. record { early = h.early; manager = h.manager; worker = h.worker };
        on_message = λ s now e ls g t h. absurd (early_no_handler s.phase h.early g);
        on_heartbeat = λ s now g h. absurd (early_no_heartbeat s.phase h.early g);
        on_send =
            λ s e ls n t h. record { early = h.early; manager = h.manager; worker = h.worker };
        on_log = λ s k b e ls q u t h. absurd (ground (arith, q, h.worker));
        on_timeout = λ s k b q u h. absurd (ground (arith, q, h.worker));
      };
    }

-- If a database is configured and the connection to it fails, then in every run, however long and
-- whatever arrives on the interfaces: the node manager is as it was at the start, so that no
-- message is ever handled, no node is registered, and there is no logging worker.
pub run-idle :
    {w : Platform} (c : CanCrate w) (sockets : Sockets) (config : Config)
    (mapping : Mapping w.F64 w.TomlValue) (actions : List (Action w))
    → (config.database_url == "") ≡ false
    → (let s = run c sockets false config actions (new mapping) in
        (s.manager ≡ Manager.new mapping) × (s.worker ≡ none))
unfolding new
run-idle c sockets config mapping actions d =
    let m = Manager.new mapping in
    let h =
      run-Kept c sockets false config (kept m c sockets config d)
        (λ s e h. record { early = h.early; manager = h.manager; worker = h.worker }) actions
        (new mapping) (record { early = refl; manager = refl; worker = refl }) in
    (h.manager, h.worker)
