-- ===== src/Can/Spawning.antt =====
-- Whom a spawn of the CAN threads subscribes to the dispatcher.
use ferro_flow.Prelude.{
  ◌≡◌, refl, ◌∙◌, String, true, false, List, [], ◌∷◌, ◌++◌, map, append_assoc, Result, ok, err,
  is_empty, Bool-cases, inl, inr, arith,
}
use ferro_flow.Prelude.Text.{append}
use ferro_flow.Platform.{Platform}
use ferro_flow.Events.{EventKind, EventListener, EventDispatcher, subscribe}
use ferro_flow.Can.{
  CanError, Sockets, open_sockets, subscribe_recv, subscribe_threads, when_open, spawn_can_threads,
}

module _ {w : Platform} where
  -- The listener of an interface's receive thread, and that of the send thread.
  abbrev pub recv_listener : String → EventListener w
  recv_listener i = record {
    debug_name = append "CAN recv thread (" (append i ")");
    channel = [];
    is_connected = true;
    subscribed_events = EventKind.shutdown ∷ [];
  }

  abbrev pub send_listener : EventListener w
  send_listener = record {
    debug_name = "CAN send thread";
    channel = [];
    is_connected = true;
    subscribed_events =
        EventKind.send_can_message ∷ EventKind.relay_can_message ∷ EventKind.shutdown ∷ [];
  }

  subscribe_threads-ok :
      (sockets : Sockets) (dispatcher : EventDispatcher w) (interfaces : List String)
      → (subscribe_threads sockets dispatcher interfaces).result ≡ ok tt
      → (subscribe_threads sockets dispatcher interfaces).dispatcher.listeners
        ≡ dispatcher.listeners ++ (map recv_listener interfaces ++ (send_listener ∷ []))
  unfolding subscribe_threads subscribe
  subscribe_threads-ok sockets dispatcher [] h = refl
  subscribe_threads-ok sockets dispatcher (i ∷ is) h =
      elim (Bool-cases (sockets.takes_own_messages i)) [
        | inl e ↦ rw e (
            subscribe_threads-ok sockets (subscribe_recv dispatcher i) is (rw e at h)
            ∙ append_assoc dispatcher.listeners (recv_listener i ∷ [])
                (map recv_listener is ++ (send_listener ∷ [])))
        | inr e ↦ absurd (err-ok (rw e at h))
      ]
    where
      err-ok : {E A : Type 0} {x : E} {a : A} → ◌≡◌ {A = Result E A} (err x) (ok a) → ⊥
      err-ok q = absurd (ground arith)

  -- If the CAN threads are spawned, there is an interface, and the dispatcher has, behind its
  -- earlier listeners, one for each interface's receive thread, in their order, and the send
  -- thread's. If a socket cannot be opened, nobody is subscribed.
  pub spawn_can_threads-listeners :
      (sockets : Sockets) (dispatcher : EventDispatcher w) (interfaces : List String)
      → ((spawn_can_threads sockets dispatcher interfaces).result ≡ ok tt
          → (is_empty interfaces ≡ false)
            × ((spawn_can_threads sockets dispatcher interfaces).dispatcher.listeners
                ≡ dispatcher.listeners ++ (map recv_listener interfaces ++ (send_listener ∷ []))))
        × ((e : CanError)
            → open_sockets sockets interfaces ≡ err e
            → (spawn_can_threads sockets dispatcher interfaces).dispatcher ≡ dispatcher)
  unfolding spawn_can_threads
  spawn_can_threads-listeners sockets dispatcher [] = (λ h. absurd (ground arith), λ e h. refl)
  spawn_can_threads-listeners sockets dispatcher (i ∷ is) =
      (λ h. (refl, accepted (open_sockets sockets (i ∷ is)) h), λ e h. rw h)
    where
      accepted :
          (r : Result CanError (Unit {0}))
          → (when_open r dispatcher (subscribe_threads sockets dispatcher (i ∷ is))).result ≡ ok tt
          → (when_open r dispatcher
              (subscribe_threads sockets dispatcher (i ∷ is))).dispatcher.listeners
            ≡ dispatcher.listeners ++ (map recv_listener (i ∷ is) ++ (send_listener ∷ []))
      accepted (ok u) h = subscribe_threads-ok sockets dispatcher (i ∷ is) h
      accepted (err e) h = absurd (ground arith)
