-- ===== src/Conformance/Groups.antt =====
-- The unit tests of src/nodes/node_manager.rs on telemetry groups. The time of the update is 7; the
-- values are packed by the platform.
use ferro_flow.Prelude.{
  ◌≡◌, refl, ℕ, String, List, [], ◌∷◌, ◌++◌, Option, none, some, ok, err, pos, nat_eq,
}
use ferro_flow.Prelude.Assoc.{lookup, insert}
use ferro_flow.Numbers.Sample.{Sample}
use ferro_flow.Platform.{CanDataValue, Json}
use ferro_flow.Platform.Sample.{Packed}
use ferro_flow.Conformance.Decimal.{decimal, decimal_double, integer}
use ferro_flow.Conformance.Nodes.{insert_two_field_test_node, heard}
use ferro_flow.Messages.{CanMessageId}
use ferro_flow.Events.{Event, EventKind, FieldLog, dispatch_all, subscribe, kind_beq}
use ferro_flow.Events
use ferro_flow.Nodes.CanNode
use ferro_flow.Nodes.CanNode.{CanNode}
use ferro_flow.Nodes.Manager
use ferro_flow.Nodes.Manager.{NodeManager, Handled, unpack_failed}
use ferro_flow.Nodes.Manager.Handlers.{handle_telemetry_group_update, can_data_value_to_json}

abbrev manager : NodeManager decimal
manager = insert_two_field_test_node (Manager.new (record { mapping = [] }))

abbrev msg_id : CanMessageId
msg_id = record { sender_id = 5; receiver_id = 1 }

abbrev first_value : Packed
first_value = CanDataValue.uint16 0x1234 ∷ []

abbrev update : Packed → Handled decimal
update values =
    handle_telemetry_group_update manager 7 msg_id (record { group_id = 1; values = values })

abbrev updated : Handled decimal
updated = update (first_value ++ (CanDataValue.uint32 0x89abcdef ∷ []))

abbrev values_of : Option (CanNode Sample) → List (ℕ × (ℕ × CanDataValue Sample))
values_of none = []
values_of (some node) = node.values

-- The values of node 5 after the update.
abbrev stored : ℕ → Option (ℕ × CanDataValue Sample)
stored field_id = lookup field_id (values_of (lookup 5 updated.manager.can_nodes))

abbrev log : ℕ → String → ℕ → Event decimal
log field_id field_name value = Event.node_field_updated (record {
  timestamp = 7;
  node_id = 5;
  field_id = field_id;
  field_name = field_name;
  field_value = Json.number (integer (pos value));
})

abbrev TelemetryGroupUpdateWithMultipleFieldsPairsValuesCorrectly : Type 0
TelemetryGroupUpdateWithMultipleFieldsPairsValuesCorrectly =
    (updated.result ≡ ok tt)
    × (stored 10 ≡ some (7, CanDataValue.uint16 0x1234))
    × (stored 11 ≡ some (7, CanDataValue.uint32 0x89abcdef))
    × (heard EventKind.node_field_updated updated.events
        ≡ log 10 "a" 0x1234 ∷ log 11 "b" 0x89abcdef ∷ [])

abbrev TelemetryGroupUpdateUnpackedValueErrorMentionsNodeGroupField : Type 0
TelemetryGroupUpdateUnpackedValueErrorMentionsNodeGroupField =
    (update first_value).result ≡ err (unpack_failed 5 11)

-- Both tests pass.
group_tests_pass :
    TelemetryGroupUpdateWithMultipleFieldsPairsValuesCorrectly
    × TelemetryGroupUpdateUnpackedValueErrorMentionsNodeGroupField
unfolding handle_telemetry_group_update can_data_value_to_json lookup insert CanNode.new Manager.new
    Events.new subscribe dispatch_all kind_beq
group_tests_pass = ((refl, refl, refl, refl), refl)
