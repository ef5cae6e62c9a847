-- ===== src/Sequence/Runner/Requests.antt =====
-- What the node manager makes of the parameters that a runner sets (`execute_actions` of
-- src/sequence/sequence_runner.rs): a request for each, or only a printed error. The manager is
-- shared with other threads: `managers k` is its state at the k-th write.
pub mod Aborts
pub mod Writes
use ferro_flow.Prelude.{ℕ, ◌+◌, List, [], ◌++◌, ◌∷◌, Result, ok, err}
use ferro_flow.Platform.{Platform}
use ferro_flow.Events.{Event}
use ferro_flow.Sequence.{ParamState}
use ferro_flow.Nodes.Manager.{NodeManager}
use ferro_flow.Nodes.Values.{AccessError}
use ferro_flow.Nodes.Command.{set_value}

module _ {w : Platform} where
  -- An error dispatched nothing.
  abbrev pub dispatched : Result AccessError (List (Event w)) → List (Event w)
  dispatched (ok events) = events
  dispatched (err e) = []

  unfoldable pub requests : (ℕ → NodeManager w) → ℕ → List (ParamState w.F64) → List (Event w)
  requests managers k [] = []
  requests managers k (p ∷ rest) =
      dispatched (set_value w (managers k) p.param (w.json_of_f64 p.value))
      ++ requests managers (k + 1) rest
