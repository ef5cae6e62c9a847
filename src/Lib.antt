-- ===== src/Lib.antt =====
-- FerroFlow: the server between a rocket test stand's CAN nodes, its operators and its database.
--
-- The program's parts, and the files that model them. Threads talk over the events of the dispatcher:
-- CAN frames become events, the node manager keeps the nodes' state by them, a sequence's thread sets
-- parameters through the node manager, and the logging worker stores what was measured.
--
-- Sequence (src/sequence/sequence_definition.rs): the data types. Sequence.Loading is load_from_path
--   and the deserializers of a step, a hold and a duration; Sequence.Hold is HoldCondition::evaluate.
-- Sequence.Validation (src/sequence/sequence_validation.rs): Sequence::validate with its parts.
-- Sequence.Builder (src/sequence/sequence_builder.rs): flatten_and_interpolate, interpolate_linear.
-- Sequence.Runner (src/sequence/sequence_runner.rs): execute_actions, wait_for_resume and the body of
--   the spawned thread (run_thread). Sequence.Runner.Control: run_sequence and control_sequence, and
--   the event loop of src/sequence/mod.rs; Sequence.Runner.Requests: the
--   writes of a run to the node manager.
-- Mapping (src/nodes/mapping.rs): the entries; Mapping.Ranges the logical rules, Mapping.Entry the
--   conversions of values, Mapping.Validation Mapping::validate, Mapping.Lookup the two lookups,
--   Mapping.Directory the loading of mapping files.
-- Nodes.CanNode (src/nodes/can_node.rs), Nodes.Manager and Nodes.Manager.Handlers (the state and the
--   handlers of src/nodes/node_manager.rs), Nodes.Values (its reads by field name), Nodes.Command
--   (src/nodes/node_manager/command.rs), Nodes.Heartbeat (the threads of src/nodes/mod.rs).
-- Events (src/events/mod.rs and FieldLog of src/db/models.rs): the dispatcher and its listeners.
-- Can (src/can/mod.rs): the send and the receive threads and how they are spawned.
-- Db (src/db/mod.rs): the loop of the logging worker and flush_batch.
-- Server (src/lib.rs, src/main.rs, src/config/mod.rs): the configuration, the state of the whole program
--   and its start; Server.Turns and Server.Steps the actions of the threads and the runs,
--   Server.Queues the channels between them, Server.Rules, Server.Conservation and Server.Posts
--   the ways to reason about all runs.
-- Vcan (src/bin/ferroflow-vcan.rs): the helper that creates and deletes virtual interfaces.
-- Prelude holds the shared helpers, Numbers the interface to f64, Platform the one to serde_json and
--   LiquidCAN, Messages LiquidCAN's messages, Examples the theorems at concrete inputs.
-- Conformance: the unit tests of these files, each a type that says what its assertions say, and proofs
--   that they hold; Conformance.Decimal has the numbers for them, thousandths.
--
-- How the code is modelled. A function that changes a state returns the new one, with the events that
-- it dispatched and its result. An error is a constructor for each message of the source; anyhow's
-- contexts are left out. A thread's loop is a recursion on the list of what its receive calls
-- returned, so no fuel is needed; every list is finite, and a thread whose list has ended waits. The
-- loop over the ticks of an interpolation is a recursion on their number. Instants and durations are
-- nanoseconds, natural numbers without a bound; the clock is a function from the number of readings.
-- f64 and f32 are types with operations (Numbers.Double): a theorem that needs a law of them has it as
-- a hypothesis (IsOrdered, IsShiftable, IsGrowing, HoldsIntegers, HasZero), and Numbers.Sample shows that the
-- laws can hold. What ip and modprobe do is the hypothesis Vcan.Commands.IsIp.
-- Maps are association lists. The heartbeat counter wraps at 32 bits, as in a release build. The
-- parse of files by serde, toml and config is an argument that stands for its result.
--
-- A run of the whole program is a list of actions, each of one thread, which takes at most one event
-- and dispatches what it has to before the next action: every order of the actions is a run. Two
-- actions do not overlap, so the interleaving inside a handler is not modelled. A thread that ends drops
-- its receiver: what waits in its channel is lost, and what is sent to it later, and the logger's batch.
--
-- Not modelled: the diesel schema and the database itself; the CAN sockets; LogicalRange::describe,
-- which formats a message; poisoned locks, panics of a thread but those of a sequence's, and the
-- overflow of an Instant.
pub mod Prelude
pub mod Numbers
pub mod Sequence
pub mod Platform
pub mod Mapping
pub mod Messages
pub mod Events
pub mod Nodes
pub mod Can
pub mod Db
pub mod Vcan
pub mod Server
pub mod Examples
pub mod Conformance
