-- ===== src/Events/Delivery.antt =====
-- Every listener receives exactly the events that it subscribed to, once each and in order.
use ferro_flow.Prelude.{
  ◌≡◌, refl, sym, ap, Bool, ◌&&◌, List, [], ◌∷◌, ◌++◌, map, append_assoc, append-nil, keep,
  keep-append, Bool-cases, inl, inr, ◌∙◌,
}
use mathlib.Core.Path.{ap₂}
use ferro_flow.Platform.{Platform}
use ferro_flow.Events.{
  Event, EventListener, EventDispatcher, kind_of, contains_kind, notify, dispatch, dispatch_all,
}

module _ {w : Platform} where
  -- What a listener is to receive.
  abbrev pub wants : EventListener w → Event w → Bool
  wants l e = contains_kind l.subscribed_events (kind_of e) && l.is_connected

  abbrev pub receives : List (Event w) → EventListener w → EventListener w
  receives es l = record l { channel = l.channel ++ keep (wants l) es }

  notify-receives : (e : Event w) (l : EventListener w) → notify e l ≡ receives (e ∷ []) l
  unfolding notify
  notify-receives e l = elim (Bool-cases (wants l e)) [
    | inl h ↦ rw h
    | inr h ↦
        rw h (ap (λ (c : List (Event w)). record l { channel = c }) (sym (append-nil l.channel)))
  ]

  receives-receives :
      (e : Event w) (es : List (Event w)) (l : EventListener w)
      → receives es (receives (e ∷ []) l) ≡ receives (e ∷ es) l
  receives-receives e es l =
      ap (λ (c : List (Event w)). record l { channel = c })
        (append_assoc l.channel (keep (wants l) (e ∷ [])) (keep (wants l) es)
          ∙ ap (◌++◌ l.channel) (sym (keep-append (wants l) (e ∷ []) es)))

  map-receives :
      (e : Event w) (es : List (Event w)) (ls : List (EventListener w))
      → map (receives es) (map (notify e) ls) ≡ map (receives (e ∷ es)) ls
  map-receives e es [] = refl
  map-receives e es (l ∷ ls) =
      ap₂ ◌∷◌ (ap (receives es) (notify-receives e l) ∙ receives-receives e es l)
        (map-receives e es ls)

  map-receives-nil : (ls : List (EventListener w)) → ls ≡ map (receives []) ls
  map-receives-nil [] = refl
  map-receives-nil (l ∷ ls) =
      ap₂ ◌∷◌ (ap (λ (c : List (Event w)). record l { channel = c }) (sym (append-nil l.channel)))
        (map-receives-nil ls)

  -- Dispatching events one after the other appends to every listener's channel exactly those events
  -- that it subscribed to, once each and in their order, if its receiver is there, and nothing
  -- else.
  pub dispatch_all-receives :
      (dispatcher : EventDispatcher w) (es : List (Event w))
      → (dispatch_all dispatcher es).listeners ≡ map (receives es) dispatcher.listeners
  unfolding dispatch_all dispatch
  dispatch_all-receives dispatcher [] = map-receives-nil dispatcher.listeners
  dispatch_all-receives dispatcher (e ∷ es) =
      dispatch_all-receives (dispatch dispatcher e) es ∙ map-receives e es dispatcher.listeners
