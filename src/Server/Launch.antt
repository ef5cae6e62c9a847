-- ===== src/Server/Launch.antt =====
-- The start of the program, when the sockets and the database are there.
use ferro_flow.Prelude.{
  ℕ, ◌+◌, ◌-◌, ◌≤◌, ◌≡◌, refl, ap, String, Bool, true, false, ◌&&◌, ◌||◌, not, List, [], ◌∷◌, ok,
  is_empty, all, and_split, ◌==◌, string_eq, if◌then◌else◌, Bool-cases, ◌⊎◌, inl, inr, arith,
}
use ferro_flow.Platform.{Platform}
use ferro_flow.Events.{EventListener, EventDispatcher}
use ferro_flow.Mapping.{Mapping}
use ferro_flow.Can.{
  CanCrate, Sockets, Spawned, open_sockets, subscribe_threads, subscribe_recv, spawn_can_threads,
}
use ferro_flow.Db.{spawn_logging_worker}
use ferro_flow.Server.{
  Config, Phase, Server, new, has_sender, has_handler, has_heartbeat, sender_name, handler_name,
  heartbeat_name,
}
use ferro_flow.Server.Frames.{sender_kinds}
use ferro_flow.Server.Posts.{IsPosted}
use ferro_flow.Server.Listeners.{handler_kinds, heartbeat_kinds, Posted, run-Posted}
use ferro_flow.Server.Registering.{IsRequested, run-IsRequested}
use ferro_flow.Server.Turns.{after_can, after_logger}
use ferro_flow.Server.Steps.{Action, main_thread, advance, act, step, run, dispatched}
use ferro_flow.Server.Rules.{Kept, act-Kept}

abbrev pub is_ready : Sockets → String → Bool
is_ready sockets i = sockets.opens i && (sockets.takes_timeout i && sockets.takes_own_messages i)

-- The calls that the main thread still makes; 7 where it has failed.
abbrev steps_left : Phase → ℕ
steps_left Phase.spawning_can = 6
steps_left Phase.spawning_runner = 5
steps_left Phase.spawning_logger = 4
steps_left Phase.spawning_handler = 3
steps_left Phase.spawning_heartbeat = 2
steps_left Phase.registering = 1
steps_left Phase.started = 0
steps_left Phase.can_failed = 7
steps_left Phase.logger_failed = 7

-- The turns of the main thread in a run.
abbrev turns_in : {w : Platform} → Action w → ℕ
turns_in main_thread = 1
turns_in _ = 0

abbrev pub main_turns : {w : Platform} → List (Action w) → ℕ
main_turns [] = 0
main_turns (a ∷ actions) = turns_in a + main_turns actions

main-cases : {w : Platform} (a : Action w) → (a ≡ main_thread) ⊎ (turns_in a ≡ 0)
main-cases a = ground arith

none_left : (phase : Phase) → steps_left phase ≤ 0 → phase ≡ Phase.started
none_left phase h = ground arith

open_sockets-ok :
    (sockets : Sockets) (is : List String)
    → all (is_ready sockets) is ≡ true
    → open_sockets sockets is ≡ ok tt
unfolding open_sockets
open_sockets-ok sockets [] h = refl
open_sockets-ok sockets (i ∷ is) h =
    let (r, rest) = and_split (is_ready sockets i) (all (is_ready sockets) is) h in
    let (o, r') = and_split (sockets.opens i) _ r in
    let (t, m) = and_split (sockets.takes_timeout i) (sockets.takes_own_messages i) r' in
    rw (o, t) (open_sockets-ok sockets is rest)

module _ {w : Platform} where
  subscribe_threads-result :
      (sockets : Sockets) (is : List String) (d : EventDispatcher w)
      → all (is_ready sockets) is ≡ true
      → (subscribe_threads sockets d is).result ≡ ok tt
  unfolding subscribe_threads
  subscribe_threads-result sockets [] d h = refl
  subscribe_threads-result sockets (i ∷ is) d h =
      let (r, rest) = and_split (is_ready sockets i) (all (is_ready sockets) is) h in
      let (o, r') = and_split (sockets.opens i) _ r in
      let (t, m) = and_split (sockets.takes_timeout i) (sockets.takes_own_messages i) r' in
      rw m (subscribe_threads-result sockets is (subscribe_recv d i) rest)

  spawn_can_threads-ok :
      (sockets : Sockets) (is : List String) (d : EventDispatcher w)
      → is_empty is ≡ false
      → all (is_ready sockets) is ≡ true
      → (spawn_can_threads sockets d is).result ≡ ok tt
  unfolding spawn_can_threads
  spawn_can_threads-ok sockets is d e h =
      rw (e, open_sockets-ok sockets is h) (subscribe_threads-result sockets is d h)

  abbrev Left : ℕ → Server w → Type 0
  Left n s = steps_left s.phase ≤ n

  module _ (c : CanCrate w) (sockets : Sockets) (connects : Bool) (config : Config)
      (has_interface : is_empty config.can_bus_interfaces ≡ false)
      (ready : all (is_ready sockets) config.can_bus_interfaces ≡ true)
      (has_logger : ((config.database_url == "") || connects) ≡ true) where
    after_can-Left :
        (s : Server w) (sp : Spawned w)
        → sp.result ≡ ok tt
        → Left 5 (after_can s sp.dispatcher sp.result)
    after_can-Left s sp h = rw h (ground arith)

    after_logger-Left :
        (s : Server w)
        → Left 3 (
            if not (config.database_url == "")
            then after_logger s (spawn_logging_worker connects s.dispatcher)
            else record s { phase = Phase.spawning_handler })
    unfolding spawn_logging_worker
    after_logger-Left s = elim (Bool-cases (config.database_url == "")) [
      | inl e ↦ rw e (omega arith)
      | inr e ↦ rw (e, rw e at has_logger) (omega arith)
    ]

    advance-Left :
        (n : ℕ) (phase : Phase) (s : Server w)
        → s.phase ≡ phase
        → n ≤ 6
        → steps_left phase ≤ n
        → Left (n - 1) (advance c sockets connects config phase s).server
    unfolding advance
    advance-Left n Phase.spawning_can s q b h =
        let sp = spawn_can_threads sockets s.dispatcher config.can_bus_interfaces in
        let l = after_can-Left s sp (
          spawn_can_threads-ok sockets config.can_bus_interfaces s.dispatcher has_interface
            ready) in
        omega (arith, l, h)
    advance-Left n Phase.spawning_runner s q b h = omega (arith, h)
    advance-Left n Phase.spawning_logger s q b h =
        let l = after_logger-Left s in omega (arith, l, h)
    advance-Left n Phase.spawning_handler s q b h = omega (arith, h)
    advance-Left n Phase.spawning_heartbeat s q b h = omega (arith, h)
    advance-Left n Phase.registering s q b h = omega (arith, h)
    advance-Left n Phase.can_failed s q b h = absurd (omega (arith, b, h))
    advance-Left n Phase.logger_failed s q b h = absurd (omega (arith, b, h))
    advance-Left n Phase.started s q b h = rw q (omega arith)

    kept : (n : ℕ) → n ≤ 6 → Kept c sockets connects config (Left n)
    kept n b = record {
      on_main = λ s h. let l = advance-Left n s.phase s refl b h in omega (arith, l);
      threads = record {
        on_subscribe = λ s h. h;
        on_runner = λ s r h. h;
        on_command = λ s e ls t h. h;
        on_leave = λ s n d l h. h;
        on_send_end = λ s ls t h. h;
        on_message = λ s now e ls g t h. h;
        on_heartbeat = λ s now g h. h;
        on_send = λ s e ls n t h. h;
        on_log = λ s k b e ls q u t h. h;
        on_timeout = λ s k b q u h. h;
      };
    }

    step-Left :
        (n : ℕ) (a : Action w) (s : Server w)
        → n ≤ 6
        → Left n s
        → Left (n - turns_in a) (step c sockets connects config a s)
    unfolding step act
    step-Left n a s b h = elim (main-cases a) [
      | inl q ↦ rw q (advance-Left n s.phase s refl b h)
      | inr q ↦
          let l = act-Kept c sockets connects config (kept n b) a s h in rw q (omega (arith, l))
    ]

    run-Left :
        (actions : List (Action w)) (n : ℕ) (s : Server w)
        → n ≤ 6
        → Left n s
        → Left (n - main_turns actions) (run c sockets connects config actions s)
    unfolding run
    run-Left [] n s b h = omega (arith, h)
    run-Left (a ∷ actions) n s b h =
        let l =
          run-Left actions (n - turns_in a) (step c sockets connects config a s) (omega (arith, b))
            (step-Left n a s b h) in
        omega (arith, l)

nothing_spawned : {w : Platform} {ls : List (EventListener w)} → Posted Phase.spawning_can ls
nothing_spawned = record {
  sender = λ q. absurd (ground arith);
  handler = λ q. absurd (ground arith);
  heartbeat = λ q. absurd (ground arith);
}

-- If there is an interface, every socket can be set up, and the database can be reached or none is
-- configured: in every run in which the main thread gets six turns, whatever the other threads do
-- in between, the start is completed: the send thread, the message handler and the heartbeats have
-- subscribed, each with its name and kinds of events, and the request that the nodes register has
-- been dispatched.
pub run-started :
    {w : Platform} (c : CanCrate w) (sockets : Sockets) (connects : Bool) (config : Config)
    (mapping : Mapping w.F64 w.TomlValue) (actions : List (Action w))
    → is_empty config.can_bus_interfaces ≡ false
    → all (is_ready sockets) config.can_bus_interfaces ≡ true
    → ((config.database_url == "") || connects) ≡ true
    → 6 ≤ main_turns actions
    → (let s = run c sockets connects config actions (new mapping) in
        (s.phase ≡ Phase.started)
        × IsPosted sender_name sender_kinds s.dispatcher.listeners
        × IsPosted handler_name handler_kinds s.dispatcher.listeners
        × IsPosted heartbeat_name heartbeat_kinds s.dispatcher.listeners
        × IsRequested c.ids (dispatched c sockets connects config actions (new mapping)))
unfolding new
run-started c sockets connects config mapping actions i r d t =
    let l =
      run-Left c sockets connects config i r d actions 6 (new mapping) (omega arith)
        (omega arith) in
    let e =
      none_left (run c sockets connects config actions (new mapping)).phase (omega (arith, l, t)) in
    let p = run-Posted c sockets connects config actions (new mapping) nothing_spawned in
    (
      e,
      p.sender (ap has_sender e),
      p.handler (ap has_handler e),
      p.heartbeat (ap has_heartbeat e),
      run-IsRequested c sockets connects config actions (new mapping) (λ q. ground arith) e,
    )
