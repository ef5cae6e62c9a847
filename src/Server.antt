-- ===== src/Server.antt =====
-- src/lib.rs, src/main.rs and src/config/mod.rs: the configuration, the state of the whole program,
-- and what `main` does up to the start of the threads. Which threads are there is known from the
-- phase that the main thread is in.
pub mod Queues
pub mod Turns
pub mod Steps
pub mod Rules
pub mod Posts
pub mod Listeners
pub mod Registering
pub mod Conservation
pub mod Logs
pub mod Frames
pub mod Startup
pub mod Launch
use ferro_flow.Prelude.{
  ℕ, String, Bool, true, false, List, [], ◌∷◌, ◌++◌, Option, none, some, Result, ok, err, ◌>>=◌,
  or_fail,
}
use ferro_flow.Prelude.Text.{append}
use ferro_flow.Platform.{Platform}
use ferro_flow.Events
use ferro_flow.Events.{EventDispatcher}
use ferro_flow.Mapping.{Mapping}
use ferro_flow.Mapping.Validation.{map_err}
use ferro_flow.Mapping.Directory.{MappingFile, LoadError, load_mapping_from_path}
use ferro_flow.Nodes.Manager
use ferro_flow.Nodes.Manager.{NodeManager}
use ferro_flow.Sequence.Runner.Control.{SequenceRunner}
use ferro_flow.Db.{Worker}

pub record Config : Type 0 where
  pub can_bus_interfaces : List String
  pub heartbeat_period : ℕ
  pub database_url : String
  pub mapping_path : String

-- What the main thread does next. `registering` is the call of `start_node_registration`; a failed
-- start leaves the scope's closure with an error, which nobody reads, and waits for the threads.
pub data Phase : Type 0 where
  spawning_can spawning_runner spawning_logger spawning_handler spawning_heartbeat registering
        started can_failed logger_failed :
      Phase

pub data RunnerThread (F : Type 0) : Type 0 where
  not_subscribed : RunnerThread F
  running stopped : SequenceRunner F → RunnerThread F

-- `frames` is what was written to the interfaces.
pub record Server (w : Platform) : Type 0 where
  pub phase : Phase
  pub dispatcher : EventDispatcher w
  pub manager : NodeManager w
  pub runner : RunnerThread w.F64
  pub worker : Option (Worker w)
  pub frames : List (String × w.Frame)
  pub has_beaten : Bool

pub data ServerError : Type 0 where
  not_deserialized : ServerError
  load_error : LoadError → ServerError

-- `config::load_config`, behind the `config` crate.
unfoldable pub load_config : Option Config → Result ServerError Config
load_config parsed = or_fail parsed not_deserialized

abbrev pub sender_name : String
sender_name = "CAN send thread"

abbrev pub runner_name : String
runner_name = "Sequence Runner thread"

abbrev pub logger_name : String
logger_name = "Database logging thread"

abbrev pub handler_name : String
handler_name = "Can message handler thread"

abbrev pub heartbeat_name : String
heartbeat_name = "Heartbeat thread"

abbrev pub receiver_name : String → String
receiver_name i = append "CAN recv thread (" (append i ")")

-- The threads that a phase has seen spawned.
abbrev pub has_sender : Phase → Bool
has_sender Phase.spawning_can = false
has_sender Phase.can_failed = false
has_sender _ = true

abbrev pub has_runner : Phase → Bool
has_runner Phase.spawning_runner = false
has_runner p = has_sender p

abbrev pub has_handler : Phase → Bool
has_handler Phase.spawning_heartbeat = true
has_handler Phase.registering = true
has_handler Phase.started = true
has_handler _ = false

abbrev pub has_heartbeat : Phase → Bool
has_heartbeat Phase.registering = true
has_heartbeat Phase.started = true
has_heartbeat _ = false

module _ {w : Platform} where
  unfoldable pub new : Mapping w.F64 w.TomlValue → Server w
  new mapping = record {
    phase = Phase.spawning_can;
    dispatcher = Events.new;
    manager = Manager.new mapping;
    runner = not_subscribed;
    worker = none;
    frames = [];
    has_beaten = false;
  }

  unfoldable pub run_with_config :
      Config
      → (String → Option (List (MappingFile w.F64 w.TomlValue)))
      → Result ServerError (Server w)
  unfolding new
  run_with_config config read_dir =
      map_err load_error (load_mapping_from_path ⦃d = w.double⦄ config.mapping_path read_dir)
      >>= λ mapping. ok (new mapping)

  -- `main`, up to the start of the threads.
  unfoldable pub main :
      Option Config
      → (String → Option (List (MappingFile w.F64 w.TomlValue)))
      → Result ServerError (Server w)
  unfolding load_config run_with_config
  main parsed read_dir = load_config parsed >>= λ config. run_with_config config read_dir
