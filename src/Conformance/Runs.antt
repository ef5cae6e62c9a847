-- ===== src/Conformance/Runs.antt =====
-- The unit tests of src/sequence/sequence_runner.rs, with the files of Plans and the mapping
-- tests/mapping/sequences.toml. The clock is read every half second, and a test's own sleeps and
-- joins are the messages that the thread meets.
use ferro_flow.Prelude.{
  ◌≡◌, refl, ℕ, ◌*◌, String, Bool, true, false, List, [], ◌∷◌, ◌++◌, map, Option, none, some,
  Result, ok, err, nat_eq, string_eq, length,
}
use ferro_flow.Prelude.Assoc.{lookup, insert, remove}
use ferro_flow.Prelude.Text.{contains_char}
use ferro_flow.Numbers.Sample.{Sample}
use ferro_flow.Platform.{CanDataType, CanDataValue}
use ferro_flow.Conformance.Decimal.{decimal, decimal_double}
use ferro_flow.Conformance.Literals.{Toml, entry, nodes}
use ferro_flow.Conformance.Nodes.{heard, receive_parameter_set}
use ferro_flow.Conformance.Plans.{SequenceFile, read, valid_set_param, valid_hold, abort_file}
use ferro_flow.Mapping.{parameter}
use ferro_flow.Mapping.Entry.{raw_value_from_mapped}
use ferro_flow.Mapping.Lookup.{get_mapping_for_name}
use ferro_flow.Messages.{CanMessageId}
use ferro_flow.Events.{Event, EventKind, dispatch_all, subscribe, kind_beq}
use ferro_flow.Events
use ferro_flow.Nodes.CanNode
use ferro_flow.Nodes.CanNode.{node_registration_complete}
use ferro_flow.Nodes.Manager
use ferro_flow.Nodes.Manager.{
  NodeManager, handle_node_info_announcement, handle_field_registration, settle_node,
}
use ferro_flow.Nodes.Values.{
  is_mapped_name, lookup_mapping, resolve_mapping_target, resolve_mapping_by_name,
}
use ferro_flow.Nodes.Command.{
  set_value, set_mapped_value, dispatch_parameter_set, json_value_to_f64,
}
use ferro_flow.Sequence.{Sequence}
use ferro_flow.Sequence.Builder.{flatten_and_interpolate}
use ferro_flow.Sequence.Hold.{should_hold}
use ferro_flow.Sequence.Loading.{LoadError, load_from_path, duration_from_f64, deserialize_step}
use ferro_flow.Sequence.Validation.{validate}
use ferro_flow.Sequence.Runner.{
  Message, command, timeout, SequenceCmd, resume, abort, Run, finished, run_thread, execute_actions,
  wait_for_action, wait_for_resume,
}
use ferro_flow.Sequence.Runner.Requests.{requests}
use ferro_flow.Sequence.Runner.Control
use ferro_flow.Sequence.Runner.Control.{
  SequenceHandle, SequenceRunner, RunnerError, run_sequence, control_sequence,
}

abbrev load_mapping : Toml
load_mapping = nodes "SequenceTestNode" (
    entry "servo1" parameter "servo1"
    ∷ entry "valve1" parameter "valve1"
    ∷ entry "abort" parameter "abort"
    ∷ [])

abbrev load_seq : SequenceFile → Result LoadError (Sequence Sample)
load_seq file = load_from_path (read file)

abbrev msg_id : CanMessageId
msg_id = record { sender_id = 5; receiver_id = 1 }

abbrev register_field : NodeManager decimal → ℕ × String → NodeManager decimal
register_field m (field_id, field_name) =
    (handle_field_registration m msg_id
      (record { field_id = field_id; field_type = CanDataType.uint8; field_name = field_name })
      false).manager

abbrev register_sequence_test_node : NodeManager decimal → NodeManager decimal
register_sequence_test_node m =
    let announced =
      (handle_node_info_announcement m msg_id (record {
        tel_count = 0;
        par_count = 3;
        firmware_hash = 0;
        liquid_hash = 0;
        device_name = "SequenceTestNode";
      })).manager in
    register_field (register_field (register_field announced (1, "servo1")) (2, "valve1"))
      (3, "abort")

abbrev node_manager : NodeManager decimal
node_manager = register_sequence_test_node (Manager.new load_mapping)

abbrev clock : ℕ → ℕ
clock k = k * 500_000_000

abbrev no_value : ℕ → String → Option Sample
no_value k field = none

-- What the sequence's thread is told: `timeouts` of its waits before the runner's command and after
-- it.
abbrev inbox_of : Option (SequenceHandle Sample) → List Message → List Message → List Message
inbox_of none before after = []
inbox_of (some handle) before after = before ++ (map command handle.controller ++ after)

abbrev run_of :
    Result LoadError (Sequence Sample)
    → Result LoadError (Sequence Sample)
    → List Message
    → Option (Run Sample)
run_of (ok seq) (ok abort_seq) inbox = some (run_thread clock no_value seq abort_seq inbox)
run_of (ok seq) (err e) inbox = none
run_of (err e) abort_seq inbox = none

-- A runner is given some commands.
abbrev control :
    Result RunnerError (SequenceRunner Sample) → List SequenceCmd → Option (SequenceHandle Sample)
control (err e) commands = none
control (ok r) [] = r.last_sequence_handle
control (ok r) (c ∷ rest) = control (ok (control_sequence r c)) rest

abbrev controlled :
    Result LoadError (Sequence Sample)
    → Result LoadError (Sequence Sample)
    → List SequenceCmd
    → Option (SequenceHandle Sample)
controlled (ok seq) (ok abort_seq) commands =
    control (run_sequence Control.new seq abort_seq) commands
controlled (ok seq) (err e) commands = none
controlled (err e) abort_seq commands = none

-- The run of a test: the messages before the commands, the commands, the messages after them.
abbrev joined : SequenceFile → List Message → List SequenceCmd → List Message → Option (Run Sample)
joined file before commands after =
    let seq = load_seq file in
    let abort_seq = load_seq abort_file in
    run_of seq abort_seq (inbox_of (controlled seq abort_seq commands) before after)

-- The thread ended with `Ok`, and its parameters went to the listener.
abbrev succeeded : Option (Run Sample) → Bool
succeeded none = false
succeeded (some r) = elim r.status [ finished ↦ true | _ ↦ false ]

abbrev sent_of : Option (Run Sample) → List (Event decimal)
sent_of none = []
sent_of (some r) = heard EventKind.send_can_message (requests (λ k. node_manager) 0 r.sent)

abbrev rest_of : List (Event decimal) → List (Event decimal)
rest_of [] = []
rest_of (e ∷ es) = es

-- Both waits time out.
abbrev completed : Option (Run Sample)
completed = joined valid_set_param (timeout ∷ timeout ∷ []) [] []

abbrev TestRunSequenceExecutionCompletes : Type 0
TestRunSequenceExecutionCompletes =
    (succeeded completed ≡ true)
    × (receive_parameter_set (sent_of completed) ≡ some (5, 1, CanDataValue.uint8 12))
    × (receive_parameter_set (rest_of (sent_of completed)) ≡ some (5, 2, CanDataValue.uint8 12))

-- The wait for the hold times out, and the hold is resumed.
abbrev TestRunSequenceHoldAndResumeCompletes : Type 0
TestRunSequenceHoldAndResumeCompletes =
    succeeded (joined valid_hold (timeout ∷ []) (resume ∷ []) []) ≡ true

-- Aborted in the wait for the first action.
abbrev aborted_run : Option (Run Sample)
aborted_run = joined valid_set_param [] (abort ∷ []) []

abbrev TestRunSequenceAbort : Type 0
TestRunSequenceAbort =
    (succeeded aborted_run ≡ true)
    × (receive_parameter_set (sent_of aborted_run) ≡ some (5, 3, CanDataValue.uint8 1))

-- The assertion at the end of `register_sequence_test_node`.
one_node_registered : length node_manager.can_nodes ≡ 1
unfolding handle_node_info_announcement handle_field_registration settle_node
    node_registration_complete lookup insert remove CanNode.new Manager.new
one_node_registered = refl

-- The three tests pass.
run_tests_pass :
    TestRunSequenceExecutionCompletes × TestRunSequenceHoldAndResumeCompletes × TestRunSequenceAbort
unfolding handle_node_info_announcement handle_field_registration settle_node
    node_registration_complete lookup insert remove CanNode.new Manager.new load_from_path
    duration_from_f64 deserialize_step validate run_sequence control_sequence Control.new run_thread
    flatten_and_interpolate requests set_value set_mapped_value dispatch_parameter_set
    json_value_to_f64 raw_value_from_mapped resolve_mapping_by_name resolve_mapping_target
    lookup_mapping is_mapped_name contains_char get_mapping_for_name Events.new subscribe
    dispatch_all kind_beq execute_actions wait_for_action wait_for_resume should_hold
run_tests_pass = ((refl, refl, refl), refl, (refl, refl))
