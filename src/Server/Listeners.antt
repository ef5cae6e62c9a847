-- ===== src/Server/Listeners.antt =====
-- The listeners that the start of the program (src/lib.rs) leaves, each with what it subscribed to.
use ferro_flow.Prelude.{
  ◌≡◌, refl, ap, sym, ◌∙◌, Bool, true, false, List, [], ◌∷◌, ◌++◌, map, append_assoc, ok, err,
  Result, ◌==◌, string_eq, Bool-cases, inl, inr, arith,
}
use ferro_flow.Platform.{Platform}
use ferro_flow.Events.{EventKind, EventListener, EventDispatcher, subscribe}
use ferro_flow.Nodes.Heartbeat.{spawn_can_msg_handler_thread, spawn_heartbeat_thread}
use ferro_flow.Sequence.Runner.Control.{subscribe_runner}
use ferro_flow.Can.{CanCrate, CanError, Sockets, spawn_can_threads}
use ferro_flow.Can.Spawning.{recv_listener, send_listener, spawn_can_threads-listeners}
use ferro_flow.Db.{spawn_logging_worker}
use ferro_flow.Server.{
  Config, Phase, Server, has_sender, has_handler, has_heartbeat, sender_name, handler_name,
  heartbeat_name,
}
use ferro_flow.Server.Frames.{sender_kinds}
use ferro_flow.Server.Posts.{
  IsPosted, IsPosted-same, IsPosted-append, IsPosted-last, posts, posts-take, posts-close,
  posts-left_by, posts-dispatch_all,
}
use ferro_flow.Server.Turns.{after_can, after_logger}
use ferro_flow.Server.Steps.{Action, advance, act, step, run}
use ferro_flow.Server.Rules.{Kept, act-Kept}

abbrev pub handler_kinds : List EventKind
handler_kinds = EventKind.shutdown ∷ EventKind.can_message_received ∷ []

abbrev pub heartbeat_kinds : List EventKind
heartbeat_kinds = EventKind.shutdown ∷ []

module _ {w : Platform} where
  -- The threads that the phase has seen spawned are subscribed.
  pub record Posted (phase : Phase) (ls : List (EventListener w)) : Type 0 where
    pub sender : has_sender phase ≡ true → IsPosted sender_name sender_kinds ls
    pub handler : has_handler phase ≡ true → IsPosted handler_name handler_kinds ls
    pub heartbeat : has_heartbeat phase ≡ true → IsPosted heartbeat_name heartbeat_kinds ls

  abbrev PostedIn : Server w → Type 0
  PostedIn s = Posted s.phase s.dispatcher.listeners

  Posted-same :
      {phase : Phase} (ls ls' : List (EventListener w))
      → posts ls' ≡ posts ls
      → Posted phase ls
      → Posted phase ls'
  Posted-same ls ls' e h = record {
    sender = λ p. IsPosted-same ls ls' e (h.sender p);
    handler = λ p. IsPosted-same ls ls' e (h.handler p);
    heartbeat = λ p. IsPosted-same ls ls' e (h.heartbeat p);
  }

  Posted-append :
      {phase : Phase} (ls more : List (EventListener w))
      → Posted phase ls
      → Posted phase (ls ++ more)
  Posted-append ls more h = record {
    sender = λ p. IsPosted-append ls more (h.sender p);
    handler = λ p. IsPosted-append ls more (h.handler p);
    heartbeat = λ p. IsPosted-append ls more (h.heartbeat p);
  }

  after_logger-PostedIn :
      (connects : Bool) (s : Server w)
      → (has_sender s.phase ≡ true)
      → PostedIn s
      → has_handler s.phase ≡ false
      → PostedIn (after_logger s (spawn_logging_worker connects s.dispatcher))
  unfolding spawn_logging_worker subscribe
  after_logger-PostedIn false s p h g = record {
    sender = λ q. h.sender p;
    handler = λ q. absurd (ground arith);
    heartbeat = λ q. absurd (ground arith);
  }
  after_logger-PostedIn true s p h g = record {
    sender = λ q. IsPosted-append s.dispatcher.listeners _ (h.sender p);
    handler = λ q. absurd (ground arith);
    heartbeat = λ q. absurd (ground arith);
  }

  module _ (c : CanCrate w) (sockets : Sockets) (connects : Bool) (config : Config) where
    after_can-PostedIn :
        (s : Server w) (r : Result CanError (Unit {0})) (d : EventDispatcher w)
        → (r ≡ ok tt → IsPosted sender_name sender_kinds d.listeners)
        → PostedIn (after_can s d r)
    after_can-PostedIn s (ok u) d h = record {
      sender = λ q. h refl;
      handler = λ q. absurd (ground arith);
      heartbeat = λ q. absurd (ground arith);
    }
    after_can-PostedIn s (err e) d h = record {
      sender = λ q. absurd (ground arith);
      handler = λ q. absurd (ground arith);
      heartbeat = λ q. absurd (ground arith);
    }

    send_thread-IsPosted :
        (d : EventDispatcher w)
        → (spawn_can_threads sockets d config.can_bus_interfaces).result ≡ ok tt
        → IsPosted sender_name sender_kinds
            (spawn_can_threads sockets d config.can_bus_interfaces).dispatcher.listeners
    send_thread-IsPosted d e =
        let (full, q) = (spawn_can_threads-listeners sockets d config.can_bus_interfaces).0 e in
        let received = map recv_listener config.can_bus_interfaces in
        IsPosted-same (d.listeners ++ received ++ (send_listener ∷ [])) _
          (ap posts (q ∙ sym (append_assoc d.listeners received (send_listener ∷ []))))
          (IsPosted-last (d.listeners ++ received) send_listener)

    advance-PostedIn :
        (phase : Phase) (s : Server w)
        → s.phase ≡ phase
        → Posted phase s.dispatcher.listeners
        → PostedIn (advance c sockets connects config phase s).server
    unfolding advance spawn_can_msg_handler_thread spawn_heartbeat_thread subscribe
    advance-PostedIn Phase.spawning_can s e h =
        after_can-PostedIn s _ _ (send_thread-IsPosted s.dispatcher)
    advance-PostedIn Phase.spawning_runner s e h = record {
      sender = h.sender;
      handler = λ q. absurd (ground arith);
      heartbeat = λ q. absurd (ground arith);
    }
    advance-PostedIn Phase.spawning_logger s e h = elim (Bool-cases (config.database_url == "")) [
      | inl d ↦ rw d (record {
        sender = h.sender;
        handler = λ q. absurd (ground arith);
        heartbeat = λ q. absurd (ground arith);
      })
      | inr d ↦ rw d (after_logger-PostedIn connects s (rw e refl) (rw e h) (rw e refl))
    ]
    advance-PostedIn Phase.spawning_handler s e h = record {
      sender = λ q. IsPosted-append s.dispatcher.listeners _ (h.sender refl);
      handler = λ q. IsPosted-last s.dispatcher.listeners _;
      heartbeat = λ q. absurd (ground arith);
    }
    advance-PostedIn Phase.spawning_heartbeat s e h = record {
      sender = λ q. IsPosted-append s.dispatcher.listeners _ (h.sender refl);
      handler = λ q. IsPosted-append s.dispatcher.listeners _ (h.handler refl);
      heartbeat = λ q. IsPosted-last s.dispatcher.listeners _;
    }
    advance-PostedIn Phase.registering s e h = record {
      sender = h.sender;
      handler = h.handler;
      heartbeat = h.heartbeat;
    }
    advance-PostedIn Phase.started s e h = rw e h
    advance-PostedIn Phase.can_failed s e h = rw e h
    advance-PostedIn Phase.logger_failed s e h = rw e h

    kept : Kept c sockets connects config PostedIn
    unfolding subscribe_runner subscribe
    kept = record {
      on_main = λ s h. advance-PostedIn s.phase s refl h;
      threads = record {
        on_subscribe = λ s h. Posted-append s.dispatcher.listeners _ h;
        on_runner = λ s r h. h;
        on_command = λ s e ls t h.
            Posted-same s.dispatcher.listeners _
              (posts-left_by _ e ls ∙ posts-take _ s.dispatcher.listeners t) h;
        on_leave = λ s n d l h.
            Posted-same s.dispatcher.listeners _ (posts-close n s.dispatcher.listeners) h;
        on_message = λ s now e ls g t h.
            Posted-same s.dispatcher.listeners ls (posts-take _ s.dispatcher.listeners t) h;
        on_heartbeat = λ s now g h. h;
        on_send = λ s e ls n t h.
            Posted-same s.dispatcher.listeners ls (posts-take _ s.dispatcher.listeners t) h;
        on_send_end = λ s ls t h.
            Posted-same s.dispatcher.listeners _ (posts-close _ s.dispatcher.listeners) h;
        on_log = λ s k b e ls q u t h.
            Posted-same s.dispatcher.listeners _
              (posts-left_by _ e ls ∙ posts-take _ s.dispatcher.listeners t) h;
        on_timeout = λ s k b q u h. h;
      };
    }

    pub run-Posted :
        (actions : List (Action w)) (s : Server w)
        → Posted s.phase s.dispatcher.listeners
        → (let s' = run c sockets connects config actions s in
            Posted s'.phase s'.dispatcher.listeners)
    unfolding run step
    run-Posted [] s h = h
    run-Posted (a ∷ actions) s h =
        let m = act c sockets connects config a s in
        run-Posted actions _ (
          Posted-same m.server.dispatcher.listeners _
            (posts-dispatch_all m.server.dispatcher m.events)
            (act-Kept c sockets connects config kept a s h))
