-- ===== src/Server/Conservation.antt =====
-- What a thread has made of its events, and what it will make of those that wait in its channel: in
-- a run nothing is lost of it, nothing doubled and nothing reordered.
use ferro_flow.Prelude.{
  ◌≡◌, ◌≢◌, refl, sym, ap, ◌∙◌, String, Bool, true, false, List, [], ◌∷◌, ◌++◌, append_assoc,
  append-nil, map, keep, keep-append, some,
}
use ferro_flow.Platform.{Platform}
use ferro_flow.Events.{
  Event, EventKind, EventListener, EventDispatcher, kind_of, contains_kind, subscribe, dispatch_all,
}
use ferro_flow.Events.Delivery.{receives, dispatch_all-receives}
use ferro_flow.Can.{CanCrate, Sockets}
use ferro_flow.Server.{Config, Phase, Server}
use ferro_flow.Server.Queues.{
  queue, take, close, left_by, heard, Subscribed, Listening, Subscribed-take, queue-take,
  queue-take_other, Subscribed-append, queue-append, Subscribed-receives, queue-receives,
  Subscribed-close, queue-close, Subscribed-close_other, queue-close_other, heard-append, heard-nil,
}
use ferro_flow.Server.Steps.{Action, act, step, run, dispatched}
use ferro_flow.Server.Rules.{Kept, act-Kept}

module _ {w : Platform} {X : Type 0} (name : String) (kinds : List EventKind)
    (outcome : List (Event w) → List X) where
  -- The thread listens or has ended, and for all later events the outcome is this.
  pub record Holds (finished : List X) (ls : List (EventListener w)) (all : List (Event w) → List X)
      : Type 0 where
    pub connected : Bool
    pub subscribed : Subscribed connected name kinds ls
    pub total :
        (later : List (Event w))
        → finished ++ outcome (queue name ls ++ heard connected later) ≡ all later

  abbrev pub wanted : List (Event w) → List (Event w)
  wanted es = keep (λ e. contains_kind kinds (kind_of e)) es

  wanted-append :
      (es fs later : List (Event w))
      → wanted es ++ (wanted fs ++ later) ≡ wanted (es ++ fs) ++ later
  wanted-append es fs later =
      sym (append_assoc (wanted es) (wanted fs) later)
      ∙ ap (λ (l : List (Event w)). l ++ later) (sym (keep-append _ es fs))

  module _ {finished : List X} {ls : List (EventListener w)} {all : List (Event w) → List X} where
    same_queue :
        {ls' : List (EventListener w)} (h : Holds finished ls all)
        → Subscribed h.connected name kinds ls'
        → queue name ls' ≡ queue name ls
        → Holds finished ls' all
    same_queue h n q = record {
      connected = h.connected;
      subscribed = n;
      total = λ later. rw q (h.total later);
    }

    -- A thread ends at a shutdown, behind which nothing has an outcome.
    pub close-Holds :
        {ls' : List (EventListener w)}
        → ((es : List (Event w)) → outcome (Event.shutdown ∷ es) ≡ outcome [])
        → take name ls ≡ some (Event.shutdown, ls')
        → Holds finished ls all
        → Holds finished (close name ls) all
    close-Holds {ls'} stops t h = record {
      connected = false;
      subscribed = Subscribed-close h.subscribed;
      total = λ later. rw (queue-close name ls) (
          ap (◌++◌ finished) (sym (stops (queue name ls' ++ heard h.connected later)))
          ∙ (rw (queue-take name ls t) at h.total later));
    }

    pub close_other-Holds :
        (other : String)
        → name ≢ other
        → Holds finished ls all
        → Holds finished (close other ls) all
    close_other-Holds other d h =
        same_queue h (Subscribed-close_other other d h.subscribed)
          (queue-close_other name other ls d)

    pub take_other-Holds :
        {ls' : List (EventListener w)} {e : Event w} (other : String)
        → name ≢ other
        → take other ls ≡ some (e, ls')
        → Holds finished ls all
        → Holds finished ls' all
    take_other-Holds other d t h =
        same_queue h (Subscribed-take name other ls t h.subscribed)
          (queue-take_other name other ls d t)

    append-Holds :
        (more : List (EventListener w)) → Holds finished ls all → Holds finished (ls ++ more) all
    append-Holds more h =
        same_queue h (Subscribed-append more h.subscribed) (queue-append more h.subscribed)

    receives-Holds :
        (es : List (Event w))
        → Holds finished ls all
        → Holds finished (map (receives es) ls) (λ later. all (wanted es ++ later))
    receives-Holds es h = record {
      connected = h.connected;
      subscribed = Subscribed-receives es h.subscribed;
      total = λ later.
          rw
            (
              queue-receives es h.subscribed,
              append_assoc (queue name ls) (heard h.connected (wanted es))
                  (heard h.connected later),
              heard-append h.connected (wanted es) later,
            )
            (h.total (wanted es ++ later));
    }

  pub left_by-Holds :
      {finished : List X} {ls : List (EventListener w)} {all : List (Event w) → List X}
      (other : String) (e : Event w)
      → name ≢ other
      → Holds finished ls all
      → Holds finished (left_by other e ls) all
  left_by-Holds other Event.shutdown d h = close_other-Holds other d h
  left_by-Holds other (Event.can_message_received i m) d h = h
  left_by-Holds other (Event.node_field_updated l) d h = h
  left_by-Holds other (Event.send_can_message n m) d h = h
  left_by-Holds other (Event.relay_can_message i m) d h = h
  left_by-Holds other (Event.start_sequence a b) d h = h
  left_by-Holds other Event.pause_sequence d h = h
  left_by-Holds other Event.resume_sequence d h = h
  left_by-Holds other Event.abort_sequence d h = h

  pub subscribe-Holds :
      {finished : List X} {all : List (Event w) → List X} (d : EventDispatcher w)
      (other : List EventKind) (other_name : String)
      → Holds finished d.listeners all
      → Holds finished (subscribe d other other_name).listeners all
  unfolding subscribe
  subscribe-Holds d other other_name h = append-Holds _ h

  -- Dispatched events wait behind the others.
  dispatch_all-Holds :
      {finished : List X} {all : List (Event w) → List X} (d : EventDispatcher w)
      (es : List (Event w))
      → Holds finished d.listeners all
      → Holds finished (dispatch_all d es).listeners (λ later. all (wanted es ++ later))
  dispatch_all-Holds d es h = rw (dispatch_all-receives d es) (receives-Holds es h)

  -- `made` is what the thread has made so far; `guard` is a condition on the phase, and nothing is
  -- said of a state that is not `live`.
  module _ (made : Server w → List X) (guard : Phase → Bool) (live : Server w → Bool) where
    pub record Inv (all : List (Event w) → List X) (s : Server w) : Type 0 where
      pub guarded : guard s.phase ≡ true
      pub holds : live s ≡ true → Holds (made s) s.dispatcher.listeners all

    agree-Inv :
        {all all' : List (Event w) → List X} {s : Server w}
        → ((later : List (Event w)) → all later ≡ all' later)
        → Inv all s
        → Inv all' s
    agree-Inv q h = record {
      guarded = h.guarded;
      holds = λ l. record {
        connected = (h.holds l).connected;
        subscribed = (h.holds l).subscribed;
        total = λ later. (h.holds l).total later ∙ q later;
      };
    }

    module _ (c : CanCrate w) (sockets : Sockets) (connects : Bool) (config : Config)
        (kept : (all : List (Event w) → List X) → Kept c sockets connects config (Inv all))
        (made-dispatch : (s : Server w) (d : EventDispatcher w)
          → made (record s { dispatcher = d }) ≡ made s)
        (live-dispatch : (s : Server w) (d : EventDispatcher w)
          → live (record s { dispatcher = d }) ≡ live s) where
      step-Inv :
          {all : List (Event w) → List X} (a : Action w) (s : Server w)
          → Inv all s
          → Inv
              (λ later. all (wanted (act c sockets connects config a s).events ++ later))
              (step c sockets connects config a s)
      unfolding step
      step-Inv {all} a s h =
          let m = act c sockets connects config a s in
          let k = act-Kept c sockets connects config (kept all) a s h in
          record {
            guarded = k.guarded;
            holds = λ l. rw (made-dispatch m.server (dispatch_all m.server.dispatcher m.events)) (
                dispatch_all-Holds m.server.dispatcher m.events (
                  k.holds (
                    sym (live-dispatch m.server (dispatch_all m.server.dispatcher m.events)) ∙ l)));
          }

      pub run-Inv :
          (actions : List (Action w)) {all : List (Event w) → List X} (s : Server w)
          → Inv all s
          → Inv
              (λ later. all (wanted (dispatched c sockets connects config actions s) ++ later))
              (run c sockets connects config actions s)
      unfolding run dispatched
      run-Inv [] s h = h
      run-Inv (a ∷ actions) {all} s h =
          let m = act c sockets connects config a s in
          let s' = step c sockets connects config a s in
          agree-Inv
            (λ later.
              ap all
                (wanted-append m.events (dispatched c sockets connects config actions s') later))
            (run-Inv actions s' (step-Inv a s h))

      -- In a run that ends in a live state, the thread makes of its events, with those that still wait, what it would have
      -- made of all of them in their order.
      pub run-conserves :
          (actions : List (Action w)) (s : Server w)
          → guard s.phase ≡ true
          → Listening name kinds s.dispatcher.listeners
          → live (run c sockets connects config actions s) ≡ true
          → (let s' = run c sockets connects config actions s in
              made s' ++ outcome (queue name s'.dispatcher.listeners)
              ≡ made s
                ++ outcome (
                    queue name s.dispatcher.listeners
                    ++ wanted (dispatched c sockets connects config actions s)))
      run-conserves actions s g n l =
          let h = run-Inv actions s (record {
            guarded = g;
            holds = λ b. record { connected = true; subscribed = n; total = λ later. refl };
          }) in
          let at_end = (h.holds l).total [] in
          rw
            (
              heard-nil (h.holds l).connected,
              append-nil
                  (queue name (run c sockets connects config actions s).dispatcher.listeners),
              append-nil (wanted (dispatched c sockets connects config actions s)),
            )
            at at_end
