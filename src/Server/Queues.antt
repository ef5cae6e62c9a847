-- ===== src/Server/Queues.antt =====
-- The channels between the threads: a listener's channel is the queue of the thread that it is
-- named for. Of listeners with one name the first is meant. A thread that ends drops its receiver:
-- the events in its channel are lost, and so is what is sent to it later.
use ferro_flow.Prelude.{
  ◌≡◌, ◌≢◌, refl, sym, ap, ◌∙◌, String, Bool, true, false, ◌&&◌, List, [], ◌∷◌, ◌++◌, map, keep,
  Option, none, some, ◌==◌, string_eq, Bool-cases, inl, inr, arith, if◌then◌else◌,
}
use ferro_flow.Platform.{Platform}
use ferro_flow.Events.Delivery.{receives, wants}
use ferro_flow.Events.{Event, EventKind, EventListener, kind_of, contains_kind}

and_true : (b : Bool) → (b && true) ≡ b
and_true true = refl
and_true false = refl

and_false : (b : Bool) → (b && false) ≡ false
and_false true = refl
and_false false = refl

differs : (a name other : String) → name ≢ other → (a == other) ≡ true → (a == name) ≡ false
differs a name other d t = elim (Bool-cases (a == name)) [
  | inl u ↦ absurd (d (sym ((string_eq.same_iff a name).0 u) ∙ (string_eq.same_iff a other).0 t))
  | inr u ↦ u
]

module _ {w : Platform} where
  abbrev pub queue : String → List (EventListener w) → List (Event w)
  queue name [] = []
  queue name (l ∷ ls) = if l.debug_name == name then l.channel else queue name ls

  -- The listener is there, and its thread holds the receiver.
  abbrev pub listens : String → List (EventListener w) → Bool
  listens name [] = false
  listens name (l ∷ ls) = if l.debug_name == name then l.is_connected else listens name ls

  -- The receiver of the thread with this name is dropped.
  unfoldable pub close : String → List (EventListener w) → List (EventListener w)
  close name [] = []
  close name (l ∷ ls) =
      if l.debug_name == name
      then record l { channel = []; is_connected = false } ∷ ls
      else l ∷ close name ls

  -- The listeners when the thread with this name has taken an event: a shutdown ends it.
  abbrev pub left_by : String → Event w → List (EventListener w) → List (EventListener w)
  left_by name Event.shutdown ls = close name ls
  left_by name _ ls = ls

  abbrev pub take_first :
      List (Event w)
      → EventListener w
      → List (EventListener w)
      → Option (Event w × List (EventListener w))
  take_first [] l ls = none
  take_first (e ∷ es) l ls = some (e, record l { channel = es } ∷ ls)

  abbrev pub behind :
      EventListener w
      → Option (Event w × List (EventListener w))
      → Option (Event w × List (EventListener w))
  behind l none = none
  behind l (some (e, ls)) = some (e, l ∷ ls)

  -- `recv()` of the thread with this name: the next event, and the listeners without it.
  unfoldable pub take : String → List (EventListener w) → Option (Event w × List (EventListener w))
  take name [] = none
  take name (l ∷ ls) =
      if l.debug_name == name then take_first l.channel l ls else behind l (take name ls)

  -- The listener of this name is there, connected or not, and subscribed to these kinds.
  pub data Subscribed (connected : Bool) (name : String) (kinds : List EventKind)
      : List (EventListener w) → Type 0 where
    here :
        {ls : List (EventListener w)} (l : EventListener w)
        → (l.debug_name == name) ≡ true
        → l.subscribed_events ≡ kinds
        → l.is_connected ≡ connected
        → Subscribed connected name kinds (l ∷ ls)
    there :
        {ls : List (EventListener w)} (l : EventListener w)
        → (l.debug_name == name) ≡ false
        → Subscribed connected name kinds ls
        → Subscribed connected name kinds (l ∷ ls)

  abbrev pub Listening : String → List EventKind → List (EventListener w) → Type 0
  Listening name kinds ls = Subscribed true name kinds ls

  -- What comes into a channel, if its receiver is there.
  abbrev pub heard : Bool → List (Event w) → List (Event w)
  heard true es = es
  heard false es = []

  pub heard-append :
      (connected : Bool) (es fs : List (Event w))
      → heard connected es ++ heard connected fs ≡ heard connected (es ++ fs)
  heard-append true es fs = refl
  heard-append false es fs = refl

  pub heard-nil : (connected : Bool) → heard connected [] ≡ []
  heard-nil true = refl
  heard-nil false = refl

  pub take_first-some :
      (channel : List (Event w)) (l : EventListener w) (ls : List (EventListener w)) {e : Event w}
      {ls' : List (EventListener w)}
      → take_first channel l ls ≡ some (e, ls')
      → (rest : List (Event w)) × (channel ≡ e ∷ rest) × (ls' ≡ record l { channel = rest } ∷ ls)
  take_first-some [] l ls h = absurd (ground arith)
  take_first-some (x ∷ xs) l ls h = (xs, ground arith, ground arith)

  pub behind-some :
      (l : EventListener w) (o : Option (Event w × List (EventListener w))) {e : Event w}
      {ls' : List (EventListener w)}
      → behind l o ≡ some (e, ls')
      → (rest : List (EventListener w)) × (o ≡ some (e, rest)) × (ls' ≡ l ∷ rest)
  behind-some l none h = absurd (ground arith)
  behind-some l (some (x, xs)) h = (xs, ground arith, ground arith)

  pub queue-take :
      (name : String) (ls : List (EventListener w)) {e : Event w} {ls' : List (EventListener w)}
      → take name ls ≡ some (e, ls')
      → queue name ls ≡ e ∷ queue name ls'
  unfolding take
  queue-take name [] h = absurd (ground arith)
  queue-take name (l ∷ ls) h = elim (Bool-cases (l.debug_name == name)) [
    | inl t ↦ let (rest, c, e) = take_first-some l.channel l ls (rw t at h) in rw (t, e, t) c
    | inr t ↦
        let (rest, c, e) = behind-some l (take name ls) (rw t at h) in
        rw (t, e, t) (queue-take name ls c)
  ]

  with_channel :
      {connected : Bool} {name : String} {kinds : List EventKind} {l : EventListener w}
      {ls : List (EventListener w)} (channel : List (Event w))
      → Subscribed connected name kinds (l ∷ ls)
      → Subscribed connected name kinds (record l { channel = channel } ∷ ls)
  with_channel channel (here l n k c) = here (record l { channel = channel }) n k c
  with_channel channel (there l n h) = there (record l { channel = channel }) n h

  behind-Subscribed :
      {connected : Bool} {name : String} {kinds : List EventKind} {l : EventListener w}
      {ls ls' : List (EventListener w)}
      → Subscribed connected name kinds (l ∷ ls)
      → (Subscribed connected name kinds ls → Subscribed connected name kinds ls')
      → Subscribed connected name kinds (l ∷ ls')
  behind-Subscribed (here l n k c) f = here l n k c
  behind-Subscribed (there l n h) f = there l n (f h)

  keep_agree :
      (p q : Event w → Bool) (es : List (Event w))
      → ((e : Event w) → p e ≡ q e)
      → keep p es ≡ keep q es
  keep_agree p q [] h = refl
  keep_agree p q (e ∷ es) h = rw (h e, keep_agree p q es h)

  keep_none : (es : List (Event w)) → keep (λ e. false) es ≡ []
  keep_none [] = refl
  keep_none (e ∷ es) = keep_none es

  wants-kinds :
      {kinds : List EventKind} (connected : Bool) (l : EventListener w)
      → l.subscribed_events ≡ kinds
      → l.is_connected ≡ connected
      → (es : List (Event w))
      → keep (wants l) es ≡ heard connected (keep (λ e. contains_kind kinds (kind_of e)) es)
  wants-kinds {kinds} true l k c es =
      keep_agree (wants l) _ es (λ e. rw (k, c) (and_true (contains_kind kinds (kind_of e))))
  wants-kinds {kinds} false l k c es =
      keep_agree (wants l) (λ e. false) es
        (λ e. rw (k, c) (and_false (contains_kind kinds (kind_of e))))
      ∙ keep_none es

  pub Subscribed-take :
      {connected : Bool} {kinds : List EventKind} (name other : String)
      (ls : List (EventListener w)) {e : Event w} {ls' : List (EventListener w)}
      → take other ls ≡ some (e, ls')
      → Subscribed connected name kinds ls
      → Subscribed connected name kinds ls'
  unfolding take
  Subscribed-take name other [] h n = absurd (ground arith)
  Subscribed-take name other (l ∷ ls) h n = elim (Bool-cases (l.debug_name == other)) [
    | inl t ↦
        let (rest, c, q) = take_first-some l.channel l ls (rw t at h) in rw q (with_channel rest n)
    | inr t ↦
        let (rest, c, q) = behind-some l (take other ls) (rw t at h) in
        rw q (behind-Subscribed n (Subscribed-take name other ls c))
  ]

  pub queue-take_other :
      (name other : String) (ls : List (EventListener w)) {e : Event w}
      {ls' : List (EventListener w)}
      → name ≢ other
      → take other ls ≡ some (e, ls')
      → queue name ls' ≡ queue name ls
  unfolding take
  queue-take_other name other [] d h = absurd (ground arith)
  queue-take_other name other (l ∷ ls) d h = elim (Bool-cases (l.debug_name == other)) [
    | inl t ↦
        let (rest, c, q) = take_first-some l.channel l ls (rw t at h) in
        rw (q, differs l.debug_name name other d t)
    | inr t ↦
        let (rest, c, q) = behind-some l (take other ls) (rw t at h) in
        rw q (
          ap (λ (r : List (Event w)). if l.debug_name == name then l.channel else r)
            (queue-take_other name other ls d c))
  ]

  pub Subscribed-append :
      {connected : Bool} {name : String} {kinds : List EventKind} {ls : List (EventListener w)}
      (more : List (EventListener w))
      → Subscribed connected name kinds ls
      → Subscribed connected name kinds (ls ++ more)
  Subscribed-append more (here l n k c) = here l n k c
  Subscribed-append more (there l n h) = there l n (Subscribed-append more h)

  pub queue-append :
      {connected : Bool} {name : String} {kinds : List EventKind} {ls : List (EventListener w)}
      (more : List (EventListener w))
      → Subscribed connected name kinds ls
      → queue name (ls ++ more) ≡ queue name ls
  queue-append more (here l n k c) = rw n
  queue-append more (there l n h) = rw n (queue-append more h)

  pub Subscribed-receives :
      {connected : Bool} {name : String} {kinds : List EventKind} {ls : List (EventListener w)}
      (es : List (Event w))
      → Subscribed connected name kinds ls
      → Subscribed connected name kinds (map (receives es) ls)
  Subscribed-receives es (here l n k c) = here (receives es l) n k c
  Subscribed-receives es (there l n h) = there (receives es l) n (Subscribed-receives es h)

  pub queue-receives :
      {connected : Bool} {name : String} {kinds : List EventKind} {ls : List (EventListener w)}
      (es : List (Event w))
      → Subscribed connected name kinds ls
      → queue name (map (receives es) ls)
        ≡ queue name ls ++ heard connected (keep (λ e. contains_kind kinds (kind_of e)) es)
  queue-receives {connected} es (here l n k c) =
      rw n (ap (◌++◌ l.channel) (wants-kinds connected l k c es))
  queue-receives es (there l n h) = rw n (queue-receives es h)

  -- A thread that ends has nothing in its channel.
  pub Subscribed-close :
      {connected : Bool} {name : String} {kinds : List EventKind} {ls : List (EventListener w)}
      → Subscribed connected name kinds ls
      → Subscribed false name kinds (close name ls)
  unfolding close
  Subscribed-close (here l n k c) =
      rw n (here (record l { channel = []; is_connected = false }) n k refl)
  Subscribed-close (there l n h) = rw n (there l n (Subscribed-close h))

  pub queue-close : (name : String) (ls : List (EventListener w)) → queue name (close name ls) ≡ []
  unfolding close
  queue-close name [] = refl
  queue-close name (l ∷ ls) = elim (Bool-cases (l.debug_name == name)) [
    | inl t ↦ rw (t, t) refl
    | inr t ↦ rw (t, t) (queue-close name ls)
  ]

  -- The other channels are as they were.
  pub Subscribed-close_other :
      {connected : Bool} {name : String} {kinds : List EventKind} {ls : List (EventListener w)}
      (other : String)
      → name ≢ other
      → Subscribed connected name kinds ls
      → Subscribed connected name kinds (close other ls)
  unfolding close
  Subscribed-close_other {name} other d (here l n k c) = elim (Bool-cases (l.debug_name == other)) [
    | inl t ↦ absurd (ground (arith, n, differs l.debug_name name other d t))
    | inr t ↦ rw t (here l n k c)
  ]
  Subscribed-close_other other d (there l n h) = elim (Bool-cases (l.debug_name == other)) [
    | inl t ↦ rw t (there (record l { channel = []; is_connected = false }) n h)
    | inr t ↦ rw t (there l n (Subscribed-close_other other d h))
  ]

  pub queue-close_other :
      (name other : String) (ls : List (EventListener w))
      → name ≢ other
      → queue name (close other ls) ≡ queue name ls
  unfolding close
  queue-close_other name other [] d = refl
  queue-close_other name other (l ∷ ls) d = elim (Bool-cases (l.debug_name == other)) [
    | inl t ↦ rw (t, differs l.debug_name name other d t) refl
    | inr t ↦ rw t (
        ap (λ (r : List (Event w)). if l.debug_name == name then l.channel else r)
          (queue-close_other name other ls d))
  ]
