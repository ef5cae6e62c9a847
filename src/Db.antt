-- ===== src/Db.antt =====
-- src/db/mod.rs: the logging worker. A round of its loop is what `recv_timeout` returned, with the
-- outcome of the insert that the round may make: whether the database takes the batch.
pub mod Batches
use ferro_flow.Prelude.{
  ℕ, Bool, true, false, not, List, [], ◌∷◌, ◌++◌, length, ltb, is_empty, Result, ok, err,
  if◌then◌else◌,
}
use ferro_flow.Platform.{Platform}
use ferro_flow.Events.{FieldLog, EventKind, EventDispatcher, subscribe}

pub data Received (w : Platform) : Type 0 where
  node_field_updated : FieldLog w → Received w
  shutdown other timeout disconnected : Received w

-- `written` is the table, in the order of the inserts.
pub record Worker (w : Platform) : Type 0 where
  pub batch : List (FieldLog w)
  pub written : List (FieldLog w)
  pub is_running : Bool

abbrev pub batch_size_limit : ℕ
batch_size_limit = 100

module _ {w : Platform} where
  unfoldable pub new : Worker w
  new = record { batch = []; written = []; is_running = true }

  -- An insert that fails leaves the batch as it is.
  unfoldable pub flush_batch : Worker w → Bool → Worker w
  flush_batch s succeeds =
      if succeeds then record s { batch = []; written = s.written ++ s.batch } else s

  abbrev flush_if_any : Worker w → Bool → Worker w
  flush_if_any s succeeds = if is_empty s.batch then s else flush_batch s succeeds

  -- The body of the loop.
  unfoldable pub round : Worker w → Received w → Bool → Worker w
  unfolding flush_batch
  round s (node_field_updated log) succeeds =
      let s' : Worker w = record s { batch = s.batch ++ (log ∷ []) } in
      if ltb (length s'.batch) batch_size_limit then s' else flush_batch s' succeeds
  round s shutdown succeeds = record (flush_if_any s succeeds) { is_running = false }
  round s other succeeds = s
  round s timeout succeeds = flush_if_any s succeeds
  -- with nothing in the batch the loop goes on, also when the sender is gone
  round s disconnected succeeds =
      if is_empty s.batch then s else record (flush_batch s succeeds) { is_running = false }

  unfoldable pub run : Worker w → List (Received w × Bool) → Worker w
  unfolding round
  run s [] = s
  run s ((r, succeeds) ∷ rounds) =
      let rest = run (round s r succeeds) rounds in if s.is_running then rest else s

pub data DbError : Type 0 where
  not_connected : DbError

-- The listener of `spawn_logging_worker`, if the connection is established.
unfoldable pub spawn_logging_worker :
    {w : Platform} → Bool → EventDispatcher w → Result DbError (EventDispatcher w)
spawn_logging_worker false dispatcher = err not_connected
spawn_logging_worker true dispatcher = ok (
    subscribe dispatcher (EventKind.shutdown ∷ EventKind.node_field_updated ∷ [])
      "Database logging thread")
