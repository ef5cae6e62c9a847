-- ===== src/Conformance/Writes.antt =====
-- The unit tests of src/nodes/node_manager.rs that request and write values. A listener that times
-- out has heard nothing.
use ferro_flow.Prelude.{
  ◌≡◌, refl, ℕ, true, false, List, [], ◌∷◌, some, err, pos, nat_eq, string_eq, Result,
}
use ferro_flow.Prelude.Assoc.{lookup, insert}
use ferro_flow.Prelude.Text.{contains_char, split_once}
use ferro_flow.Numbers.Sample.{Sample, nan}
use ferro_flow.Platform.{CanDataValue, Json}
use ferro_flow.Conformance.Decimal.{decimal, decimal_double, whole, milli, integer, float}
use ferro_flow.Conformance.Nodes.{
  test_manager, boolean_test_mapping, insert_boolean_test_node, heard_of, receive_parameter_set,
}
use ferro_flow.Messages.{CanMessage}
use ferro_flow.Events.{Event, dispatch_all, subscribe, kind_beq}
use ferro_flow.Events
use ferro_flow.Mapping.Entry.{out_of_range, not_integer, mapped_not_finite, raw_value_from_mapped}
use ferro_flow.Mapping.Lookup.{get_mapping_for_name, get_mapping_for_raw}
use ferro_flow.Nodes.CanNode
use ferro_flow.Nodes.Manager
use ferro_flow.Nodes.Manager.{NodeManager}
use ferro_flow.Nodes.Values.{
  AccessError, field_not_registered, not_writable, value_error, is_mapped_name, lookup_mapping,
  resolve_mapping_target, resolve_mapping_by_name,
}
use ferro_flow.Nodes.Command.{
  request_value, set_mapped_value, set_raw_value, set_value, dispatch_parameter_set,
  json_value_to_f64, json_value_to_can_data_value,
}

abbrev Sent : Type 0
Sent = Result AccessError (List (Event decimal))

-- The listener has got a request for one parameter.
abbrev Sets : Sent → ℕ → CanDataValue Sample → Type 0
Sets sent parameter_id value = receive_parameter_set (heard_of sent) ≡ some (5, parameter_id, value)

-- The command is refused, and the listener times out.
abbrev Refuses : Sent → AccessError → Type 0
Refuses sent error = (sent ≡ err error) × (heard_of sent ≡ [])

abbrev WritesMappedParameterValuesAsRawCanValues : Type 0
WritesMappedParameterValuesAsRawCanValues =
    Sets (set_mapped_value decimal test_manager "valve_opening" (whole 60)) 20
      (CanDataValue.uint8 100)

abbrev WritesRawParameterValues : Type 0
WritesRawParameterValues =
    Sets (set_raw_value decimal test_manager "valve_opening" (Json.number (integer (pos 42)))) 20
      (CanDataValue.uint8 42)

abbrev SetValueRoutesMappedAndRawNames : Type 0
SetValueRoutesMappedAndRawNames =
    Sets (set_value decimal test_manager "valve_opening" (Json.number (float (whole 60)))) 20
      (CanDataValue.uint8 100)
    × Sets (set_value decimal test_manager "ECU:valve_raw" (Json.number (integer (pos 42)))) 20
        (CanDataValue.uint8 42)

abbrev boolean_manager : NodeManager decimal
boolean_manager = insert_boolean_test_node (Manager.new boolean_test_mapping)

abbrev SetValueAcceptsBooleanMappedInput : Type 0
SetValueAcceptsBooleanMappedInput =
    Sets (set_value decimal boolean_manager "pump_enabled" (Json.bool true)) 30
      (CanDataValue.boolean true)
    × Sets (set_value decimal boolean_manager "pump_enabled" (Json.bool false)) 30
        (CanDataValue.boolean false)

abbrev RequestsFieldGetForMappedValues : Type 0
RequestsFieldGetForMappedValues =
    heard_of (request_value decimal test_manager "tank_pressure")
    ≡ Event.send_can_message 5 (CanMessage.field_get_req 10) ∷ []

abbrev SetValueRejectsTelemetryValues : Type 0
SetValueRejectsTelemetryValues =
    Refuses (set_mapped_value decimal test_manager "tank_pressure" (whole 10))
      (not_writable "tank_pressure")
    × Refuses (set_raw_value decimal test_manager "tank_pressure" (Json.number (integer (pos 1))))
        (not_writable "tank_pressure")

abbrev SetMappedValueRejectsNan : Type 0
SetMappedValueRejectsNan =
    Refuses (set_mapped_value decimal test_manager "valve_opening" nan)
      (value_error mapped_not_finite)

abbrev SetMappedValueRejectsOutOfRange : Type 0
SetMappedValueRejectsOutOfRange =
    Refuses (set_mapped_value decimal test_manager "valve_opening" (whole 1000))
      (value_error out_of_range)

abbrev SetMappedValueRejectsFractionalForIntegerType : Type 0
SetMappedValueRejectsFractionalForIntegerType =
    Refuses (set_mapped_value decimal test_manager "valve_opening" (milli 10_100))
      (value_error not_integer)

abbrev RequestValueErrorsWhenUnregistered : Type 0
RequestValueErrorsWhenUnregistered =
    Refuses (request_value decimal test_manager "tank_temp") (field_not_registered "tank_temp")

-- The tests of commands that are carried out pass.
write_tests_pass :
    WritesMappedParameterValuesAsRawCanValues × WritesRawParameterValues
    × SetValueRoutesMappedAndRawNames × SetValueAcceptsBooleanMappedInput
    × RequestsFieldGetForMappedValues
unfolding set_mapped_value set_raw_value set_value request_value dispatch_parameter_set
    json_value_to_f64 json_value_to_can_data_value raw_value_from_mapped resolve_mapping_by_name
    resolve_mapping_target lookup_mapping is_mapped_name contains_char split_once
    get_mapping_for_name get_mapping_for_raw lookup insert CanNode.new Manager.new Events.new
    subscribe dispatch_all kind_beq
write_tests_pass = (refl, refl, (refl, refl), (refl, refl), refl)

-- So do those of commands that are refused.
refusal_tests_pass :
    SetValueRejectsTelemetryValues × SetMappedValueRejectsNan × SetMappedValueRejectsOutOfRange
    × SetMappedValueRejectsFractionalForIntegerType × RequestValueErrorsWhenUnregistered
unfolding set_mapped_value set_raw_value request_value raw_value_from_mapped resolve_mapping_by_name
    resolve_mapping_target lookup_mapping is_mapped_name contains_char get_mapping_for_name lookup
    insert CanNode.new Manager.new Events.new subscribe dispatch_all kind_beq
refusal_tests_pass =
    (((refl, refl), (refl, refl)), (refl, refl), (refl, refl), (refl, refl), (refl, refl))
