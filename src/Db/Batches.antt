-- ===== src/Db/Batches.antt =====
-- No log is lost or written twice, and the batch stays below its limit while inserts succeed.
use ferro_flow.Prelude.{
  ◌<◌, ◌≡◌, refl, sym, ap, ◌∙◌, Bool, true, false, List, [], ◌∷◌, ◌++◌, append_assoc, append-nil,
  length, length-append, ltb, is_empty, if◌then◌else◌, arith, All, Bool-cases, inl, inr,
}
use ferro_flow.Platform.{Platform}
use ferro_flow.Events.{FieldLog}
use ferro_flow.Db.{
  Received, node_field_updated, shutdown, other, timeout, disconnected, Worker, batch_size_limit,
  flush_batch, round, run,
}

module _ {w : Platform} where
  -- The logs that the worker takes out of its channel: those before it stops.
  abbrev pub logs_in : Received w → List (FieldLog w)
  logs_in (node_field_updated log) = log ∷ []
  logs_in shutdown = []
  logs_in other = []
  logs_in timeout = []
  logs_in disconnected = []

  unfoldable pub taken : Worker w → List (Received w × Bool) → List (FieldLog w)
  taken s [] = []
  taken s ((r, succeeds) ∷ rounds) =
      let rest = taken (round s r succeeds) rounds in if s.is_running then logs_in r ++ rest else []

  abbrev pub held : Worker w → List (FieldLog w)
  held s = s.written ++ s.batch

  flush_batch-held : (s : Worker w) (succeeds : Bool) → held (flush_batch s succeeds) ≡ held s
  unfolding flush_batch
  flush_batch-held s true = append-nil (s.written ++ s.batch)
  flush_batch-held s false = refl

  flush_if_any-held :
      (s : Worker w) (succeeds : Bool)
      → held (if is_empty s.batch then s else flush_batch s succeeds) ≡ held s
  flush_if_any-held s succeeds = elim (Bool-cases (is_empty s.batch)) [
    | inl e ↦ rw e
    | inr e ↦ rw e (flush_batch-held s succeeds)
  ]

  pub round-held :
      (s : Worker w) (r : Received w) (succeeds : Bool)
      → held (round s r succeeds) ≡ held s ++ logs_in r
  unfolding round
  round-held s (node_field_updated log) succeeds =
      let s' : Worker w = record s { batch = s.batch ++ (log ∷ []) } in
      let grown : held s' ≡ held s ++ (log ∷ []) =
        sym (append_assoc s.written s.batch (log ∷ [])) in
      elim (Bool-cases (ltb (length s'.batch) batch_size_limit)) [
        | inl e ↦ rw e grown
        | inr e ↦ rw e (flush_batch-held s' succeeds ∙ grown)
      ]
  round-held s shutdown succeeds = flush_if_any-held s succeeds ∙ sym (append-nil (held s))
  round-held s other succeeds = sym (append-nil (held s))
  round-held s timeout succeeds = flush_if_any-held s succeeds ∙ sym (append-nil (held s))
  round-held s disconnected succeeds = elim (Bool-cases (is_empty s.batch)) [
    | inl e ↦ rw e (sym (append-nil (held s)))
    | inr e ↦ rw e (flush_batch-held s succeeds ∙ sym (append-nil (held s)))
  ]

  -- Whatever happens, and whichever inserts fail: what is written, followed by the batch in memory,
  -- is exactly what was there before and the logs taken from the channel, each once and in order.
  pub run-held :
      (s : Worker w) (rounds : List (Received w × Bool))
      → held (run s rounds) ≡ held s ++ taken s rounds
  unfolding run taken
  run-held s [] = sym (append-nil (held s))
  run-held s ((r, succeeds) ∷ rounds) = elim (Bool-cases s.is_running) [
    | inl e ↦ simp e (
        run-held (round s r succeeds) rounds
        ∙ ap (λ (l : List (FieldLog w)). l ++ taken (round s r succeeds) rounds)
            (round-held s r succeeds)
        ∙ append_assoc (held s) (logs_in r) (taken (round s r succeeds) rounds))
    | inr e ↦ simp e (sym (append-nil (held s)))
  ]

  abbrev AllSucceed : List (Received w × Bool) → Type 0
  AllSucceed rounds = All (λ (p : Received w × Bool). p.1 ≡ true) rounds

  round-lt :
      (s : Worker w) (r : Received w)
      → length s.batch < batch_size_limit
      → length (round s r true).batch < batch_size_limit
  unfolding round flush_batch
  round-lt s (node_field_updated log) h = ground (arith, length-append s.batch (log ∷ []))
  round-lt s shutdown h = ground arith
  round-lt s other h = h
  round-lt s timeout h = ground arith
  round-lt s disconnected h = ground arith

  -- While every insert succeeds, the batch that is kept between two rounds is below its limit.
  pub run-lt :
      (s : Worker w) (rounds : List (Received w × Bool))
      → length s.batch < batch_size_limit
      → AllSucceed rounds
      → length (run s rounds).batch < batch_size_limit
  unfolding run
  run-lt s [] h a = h
  run-lt s ((r, b) ∷ rounds) h (e, a) = elim (Bool-cases s.is_running) [
    | inl on ↦ simp (on, e) (run-lt (round s r true) rounds (round-lt s r h) a)
    | inr off ↦ simp off h
  ]
