-- ===== src/Conformance/Nodes.antt =====
-- The mappings and nodes of the unit tests of src/nodes/node_manager.rs, and their listener. The
-- dispatcher of a test has one listener; what a call of the manager dispatched goes to it.
use ferro_flow.Prelude.{ℕ, String, List, [], ◌∷◌, Option, none, some, Result, ok, err, nat_eq}
use ferro_flow.Prelude.Assoc.{insert}
use ferro_flow.Numbers.Sample.{Sample}
use ferro_flow.Platform.{CanDataType, CanDataValue}
use ferro_flow.Conformance.Decimal.{decimal, whole, milli}
use ferro_flow.Conformance.Literals.{Toml, entry, with_value, with_rules, from, up_to, nodes}
use ferro_flow.Mapping.{telemetry, parameter}
use ferro_flow.Messages.{CanMessage}
use ferro_flow.Events.{Event, EventKind, EventDispatcher, EventListener, subscribe, dispatch_all}
use ferro_flow.Events
use ferro_flow.Nodes.CanNode.{CanNode, RegistrationInfo, FieldInfo, TelemetryGroupDefinition}
use ferro_flow.Nodes.CanNode
use ferro_flow.Nodes.Manager.{NodeManager}
use ferro_flow.Nodes.Manager

abbrev pub test_mapping : Toml
test_mapping = nodes "ECU" (
    with_value (milli 500) (whole 1) "bar" (
      with_rules (from (whole 100) "High" ∷ up_to (whole 100) "Normal" ∷ [])
        (entry "tank_pressure" telemetry "pressure_adc"))
    ∷ with_value (milli 500) (whole 10) "%" (entry "valve_opening" parameter "valve_raw")
    ∷ with_value (milli 500) (whole 10) "%" (entry "tank_temp" telemetry "temp_adc")
    ∷ [])

abbrev pub boolean_test_mapping : Toml
boolean_test_mapping = nodes "ECU" (entry "pump_enabled" parameter "pump_enable_raw" ∷ [])

abbrev ecu_info : ℕ → ℕ → RegistrationInfo
ecu_info telemetry_count parameter_count = record {
  telemetry_count = telemetry_count;
  parameter_count = parameter_count;
  firmware_hash = 0;
  protocol_hash = 0;
  device_name = "ECU";
}

abbrev field : CanDataType → String → FieldInfo
field data_type name = record { data_type = data_type; name = name }

abbrev insert_node : CanNode Sample → NodeManager decimal → NodeManager decimal
insert_node node m = record m { can_nodes = insert 5 node m.can_nodes }

-- The value came at time 0.
abbrev pub insert_test_node : NodeManager decimal → NodeManager decimal
insert_test_node m =
    insert_node
      (record (CanNode.new (ecu_info 1 1)) {
        telemetry_fields = insert 10 (field CanDataType.uint16 "pressure_adc") [];
        parameter_fields = insert 20 (field CanDataType.uint8 "valve_raw") [];
        values = insert 10 (0, CanDataValue.uint16 198) [];
      })
      m

abbrev pub insert_two_field_test_node : NodeManager decimal → NodeManager decimal
insert_two_field_test_node m =
    insert_node
      (record (CanNode.new (ecu_info 2 0)) {
        telemetry_fields =
            insert 11 (field CanDataType.uint32 "b") (insert 10 (field CanDataType.uint16 "a") []);
        telemetry_groups = insert 1 (record { fields = 10 ∷ 11 ∷ [] }) [];
      })
      m

abbrev pub insert_boolean_test_node : NodeManager decimal → NodeManager decimal
insert_boolean_test_node m =
    insert_node
      (record (CanNode.new (ecu_info 0 1)) {
        parameter_fields = insert 30 (field CanDataType.boolean "pump_enable_raw") [];
      })
      m

abbrev pub test_manager : NodeManager decimal
test_manager = insert_test_node (Manager.new test_mapping)

-- The channel of the one listener.
abbrev channel_of : List (EventListener decimal) → List (Event decimal)
channel_of [] = []
channel_of (l ∷ ls) = l.channel

abbrev pub heard : EventKind → List (Event decimal) → List (Event decimal)
heard kind events =
    channel_of (dispatch_all (subscribe Events.new (kind ∷ []) "test-listener") events).listeners

-- What the listener hears of a command; an error dispatched nothing.
abbrev pub heard_of : {E : Type 0} → Result E (List (Event decimal)) → List (Event decimal)
heard_of (ok events) = heard EventKind.send_can_message events
heard_of (err e) = heard EventKind.send_can_message []

-- `none` is the panic on another event, or on none.
abbrev pub receive_parameter_set : List (Event decimal) → Option (ℕ × ℕ × CanDataValue Sample)
receive_parameter_set (Event.send_can_message node_id (CanMessage.parameter_set_req p) ∷ rest) =
    some (node_id, p.parameter_id, p.value)
receive_parameter_set _ = none
