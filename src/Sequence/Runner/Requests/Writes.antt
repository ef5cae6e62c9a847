-- ===== src/Sequence/Runner/Requests/Writes.antt =====
-- What the thread of a sequence (src/sequence/sequence_runner.rs) asks of the nodes: writes to
-- registered parameters (src/nodes/node_manager/command.rs), and nothing else.
use ferro_flow.Prelude.{
  ℕ, ◌+◌, ◌≡◌, ◌≢◌, ◌⊎◌, refl, sym, subst, String, List, [], ◌∷◌, ◌++◌, Option, Result, ok, err,
  All, All-append, All-map, In, inl, inr, arith,
}
use ferro_flow.Platform.{Platform}
use ferro_flow.Events.{Event}
use ferro_flow.Sequence.{Sequence, ParamState}
use ferro_flow.Sequence.Builder.{flatten_and_interpolate}
use ferro_flow.Sequence.Runner.{
  Message, Status, finished, aborted, shut_down, panicked, waiting, Position, Run, execute_actions,
  run_thread,
}
use ferro_flow.Sequence.Runner.Execution.{params, Sends, run_thread-Sends}
use ferro_flow.Sequence.Runner.Requests.{dispatched, requests}
use ferro_flow.Nodes.Manager.{NodeManager}
use ferro_flow.Nodes.Values.{AccessError}
use ferro_flow.Nodes.Command.{set_value}
use ferro_flow.Nodes.Command.Writes.{IsWrite, set_value-IsWrite}

module _ {A : Type 0} where
  In-left : (xs ys : List A) → All (λ a. In a (xs ++ ys)) xs
  In-left [] ys = tt
  In-left (x ∷ xs) ys = (inl refl, All-map xs (λ a i. inr i) (In-left xs ys))

  In-widen : (xs ys : List A) (a : A) → In a xs → In a (xs ++ ys)
  In-widen [] ys a i = absurd i
  In-widen (x ∷ xs) ys a (inl e) = inl e
  In-widen (x ∷ xs) ys a (inr i) = inr (In-widen xs ys a i)

  In-widen_right : (xs ys : List A) (a : A) → In a ys → In a (xs ++ ys)
  In-widen_right [] ys a i = i
  In-widen_right (x ∷ xs) ys a i = inr (In-widen_right xs ys a i)

aborted-cases : (s : Status) → (s ≡ aborted) ⊎ (s ≢ aborted)
aborted-cases finished = inr (ground arith)
aborted-cases aborted = inl refl
aborted-cases shut_down = inr (ground arith)
aborted-cases panicked = inr (ground arith)
aborted-cases waiting = inr (ground arith)

Sends-In :
    {F : Type 0} (expected : List (ParamState F)) (r : Run F)
    → Sends expected r
    → All (λ p. In p expected) r.sent
Sends-In expected r (rest, e, _) =
    subst (λ (xs : List (ParamState _)). All (λ p. In p xs) r.sent) (sym e) (In-left r.sent rest)

module _ {w : Platform} (managers : ℕ → NodeManager w) (allowed : List (ParamState w.F64)) where
  -- The event is an accepted write of one of the allowed parameters.
  abbrev pub Writes : Event w → Type 0
  Writes e =
      (k : ℕ) × (p : ParamState w.F64) × In p allowed × IsWrite w (managers k) p.param (e ∷ [])

  dispatched-Writes :
      (k : ℕ) (p : ParamState w.F64) (r : Result AccessError (List (Event w)))
      → In p allowed
      → set_value w (managers k) p.param (w.json_of_f64 p.value) ≡ r
      → All Writes (dispatched r)
  dispatched-Writes k p (err e) i h = tt
  dispatched-Writes k p (ok events) i h =
      let write = set_value-IsWrite w (managers k) p.param (w.json_of_f64 p.value) h in
      subst (All Writes) (sym write.one_request)
        ((k, p, i, subst (IsWrite w (managers k) p.param) write.one_request write), tt)

  requests-Writes :
      (k : ℕ) (ps : List (ParamState w.F64))
      → All (λ p. In p allowed) ps
      → All Writes (requests managers k ps)
  unfolding requests
  requests-Writes k [] h = tt
  requests-Writes k (p ∷ rest) (i, h) =
      All-append Writes _ (requests managers (k + 1) rest) (dispatched-Writes k p _ i refl)
        (requests-Writes (k + 1) rest h)

-- For every clock, all field values, messages and states of the node manager: each event that a
-- sequence's thread dispatches is an accepted write to a registered parameter, with a value of its
-- registered type, by a name for which the schedule of the sequence or of its abort sequence sets a
-- value.
pub run_thread-Writes :
    {w : Platform} (clock : ℕ → ℕ) (get_value : ℕ → String → Option w.F64)
    (managers : ℕ → NodeManager w) (seq abort_seq : Sequence w.F64) (inbox : List Message)
    → All
        (Writes managers (
          params (flatten_and_interpolate ⦃d = w.double⦄ seq)
          ++ params (flatten_and_interpolate ⦃d = w.double⦄ abort_seq)))
        (requests managers 0 (run_thread ⦃d = w.double⦄ clock get_value seq abort_seq inbox).sent)
run_thread-Writes {w} clock get_value managers seq abort_seq inbox =
    let own = params (flatten_and_interpolate ⦃d = w.double⦄ seq) in
    let other = params (flatten_and_interpolate ⦃d = w.double⦄ abort_seq) in
    let start : Position = record { at = 0; inbox = inbox } in
    let main =
      execute_actions ⦃d = w.double⦄ clock get_value (flatten_and_interpolate ⦃d = w.double⦄ seq)
        start in
    let tail =
      execute_actions ⦃d = w.double⦄ clock get_value
        (flatten_and_interpolate ⦃d = w.double⦄ abort_seq) main.position in
    let (sends, abort_sends, aborts, same) =
      run_thread-Sends ⦃d = w.double⦄ clock get_value seq abort_seq inbox in
    let of_main = All-map main.sent (In-widen own other) (Sends-In own main sends) in
    let of_tail = All-map tail.sent (In-widen_right own other) (Sends-In other tail abort_sends) in
    requests-Writes managers (own ++ other) 0 _ (elim (aborted-cases main.status) [
      | inl stopped ↦ rw ((aborts stopped).0) (All-append _ main.sent tail.sent of_main of_tail)
      | inr ended ↦ rw (same ended) of_main
    ])
