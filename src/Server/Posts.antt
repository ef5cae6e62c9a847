-- ===== src/Server/Posts.antt =====
-- The names and subscriptions of the listeners of src/events/mod.rs, which no thread changes but by a
-- new subscription.
use ferro_flow.Prelude.{
  ◌≡◌, refl, ap, ◌∙◌, String, List, [], ◌∷◌, ◌++◌, map, map-append, append_assoc, some, ◌==◌,
  string_eq, Bool-cases, inl, inr, arith,
}
use ferro_flow.Platform.{Platform}
use ferro_flow.Events.Delivery.{receives, dispatch_all-receives}
use ferro_flow.Events.{Event, EventKind, EventListener, EventDispatcher, dispatch_all}
use ferro_flow.Server.Queues.{take, take_first-some, behind-some, close, left_by}

module _ {w : Platform} where
  abbrev post : EventListener w → String × List EventKind
  post l = (l.debug_name, l.subscribed_events)

  abbrev pub posts : List (EventListener w) → List (String × List EventKind)
  posts ls = map post ls

  -- A listener of this name and with these subscriptions is there.
  abbrev pub IsPosted : String → List EventKind → List (EventListener w) → Type 0
  IsPosted name kinds ls =
      (before after : List (String × List EventKind)) × (posts ls
        ≡ before ++ ((name, kinds) ∷ after))

  pub IsPosted-same :
      {name : String} {kinds : List EventKind} (ls ls' : List (EventListener w))
      → posts ls' ≡ posts ls
      → IsPosted name kinds ls
      → IsPosted name kinds ls'
  IsPosted-same ls ls' e (before, after, q) = (before, after, e ∙ q)

  pub IsPosted-append :
      {name : String} {kinds : List EventKind} (ls more : List (EventListener w))
      → IsPosted name kinds ls
      → IsPosted name kinds (ls ++ more)
  IsPosted-append {name} {kinds} ls more (before, after, q) = (
    before,
    after ++ posts more,
    map-append post ls more
        ∙ ap (λ (p : List (String × List EventKind)). p ++ posts more) q
        ∙ append_assoc before ((name, kinds) ∷ after) (posts more),
  )

  pub IsPosted-last :
      (ls : List (EventListener w)) (l : EventListener w)
      → IsPosted l.debug_name l.subscribed_events (ls ++ (l ∷ []))
  IsPosted-last ls l = (posts ls, [], map-append post ls (l ∷ []))

  pub posts-take :
      (name : String) (ls : List (EventListener w)) {e : Event w} {ls' : List (EventListener w)}
      → take name ls ≡ some (e, ls')
      → posts ls' ≡ posts ls
  unfolding take
  posts-take name [] h = absurd (ground arith)
  posts-take name (l ∷ ls) h = elim (Bool-cases (l.debug_name == name)) [
    | inl t ↦ let (rest, c, q) = take_first-some l.channel l ls (rw t at h) in rw q refl
    | inr t ↦
        let (rest, c, q) = behind-some l (take name ls) (rw t at h) in
        rw q (ap (◌∷◌ (post l)) (posts-take name ls c))
  ]

  pub posts-close : (name : String) (ls : List (EventListener w)) → posts (close name ls) ≡ posts ls
  unfolding close
  posts-close name [] = refl
  posts-close name (l ∷ ls) = elim (Bool-cases (l.debug_name == name)) [
    | inl t ↦ rw t refl
    | inr t ↦ rw t (ap (◌∷◌ (post l)) (posts-close name ls))
  ]

  pub posts-left_by :
      (name : String) (e : Event w) (ls : List (EventListener w))
      → posts (left_by name e ls) ≡ posts ls
  posts-left_by name Event.shutdown ls = posts-close name ls
  posts-left_by name (Event.can_message_received i m) ls = refl
  posts-left_by name (Event.node_field_updated l) ls = refl
  posts-left_by name (Event.send_can_message n m) ls = refl
  posts-left_by name (Event.relay_can_message i m) ls = refl
  posts-left_by name (Event.start_sequence a b) ls = refl
  posts-left_by name Event.pause_sequence ls = refl
  posts-left_by name Event.resume_sequence ls = refl
  posts-left_by name Event.abort_sequence ls = refl

  posts-receives :
      (es : List (Event w)) (ls : List (EventListener w)) → posts (map (receives es) ls) ≡ posts ls
  posts-receives es [] = refl
  posts-receives es (l ∷ ls) = ap (◌∷◌ (post l)) (posts-receives es ls)

  pub posts-dispatch_all :
      (d : EventDispatcher w) (es : List (Event w))
      → posts (dispatch_all d es).listeners ≡ posts d.listeners
  posts-dispatch_all d es = ap posts (dispatch_all-receives d es) ∙ posts-receives es d.listeners
