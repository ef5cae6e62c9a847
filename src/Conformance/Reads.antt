-- ===== src/Conformance/Reads.antt =====
-- The unit tests of src/nodes/node_manager.rs that read values.
use ferro_flow.Prelude.{◌≡◌, refl, ℕ, List, [], ◌∷◌, none, some, ok, err, nat_eq, string_eq}
use ferro_flow.Prelude.Assoc.{lookup, insert}
use ferro_flow.Prelude.Text.{contains_char, split_once}
use ferro_flow.Numbers.Sample.{Sample}
use ferro_flow.Platform.{CanDataValue}
use ferro_flow.Conformance.Decimal.{decimal, decimal_double, whole}
use ferro_flow.Conformance.Nodes.{test_manager}
use ferro_flow.Mapping.Ranges.{range_with_defaults, contains, matches, logical_value}
use ferro_flow.Mapping.Entry.{MappedValue, can_data_value_to_f64, mapped_value, not_decoded}
use ferro_flow.Mapping.Lookup.{get_mapping_for_name, get_mapping_for_raw}
use ferro_flow.Nodes.CanNode
use ferro_flow.Nodes.CanNode.{CanNode}
use ferro_flow.Nodes.Manager
use ferro_flow.Nodes.Manager.{NodeManager}
use ferro_flow.Nodes.Manager.Handlers.{set_value_of}
use ferro_flow.Nodes.Values.{
  no_mapping, field_not_registered, value_error, is_mapped_name, lookup_mapping,
  resolve_mapping_target, resolve_mapping_by_name, latest_raw_value, try_get_raw_value,
  try_get_mapped_value, try_get_logical_value, try_get_value, get_value, get_raw_value,
  get_mapped_value, get_logical_value,
}

abbrev bar_100 : MappedValue Sample
bar_100 = record { value = whole 100; unit = "bar" }

abbrev ReadsRawMappedAndLogicalValuesByMappingName : Type 0
ReadsRawMappedAndLogicalValuesByMappingName =
    (get_raw_value decimal test_manager "tank_pressure" ≡ some (CanDataValue.uint16 198))
    × (get_mapped_value decimal test_manager "tank_pressure" ≡ some bar_100)
    × (get_logical_value decimal test_manager "tank_pressure" ≡ some "High")
    × (try_get_mapped_value decimal test_manager "non_existent" ≡ err (no_mapping "non_existent"))
    × (try_get_logical_value decimal test_manager "non_existent" ≡ err (no_mapping "non_existent"))
    × (try_get_raw_value decimal test_manager "non_existent" ≡ err (no_mapping "non_existent"))
    × (try_get_mapped_value decimal test_manager "tank_temp"
        ≡ err (field_not_registered "tank_temp"))

abbrev TryGetMappedValueReturnsOkNoneWhenNoValueCached : Type 0
TryGetMappedValueReturnsOkNoneWhenNoValueCached =
    (try_get_raw_value decimal test_manager "valve_opening" ≡ ok none)
    × (try_get_mapped_value decimal test_manager "valve_opening" ≡ ok none)
    × (try_get_logical_value decimal test_manager "valve_opening" ≡ ok none)

abbrev GetValueReadsMappedNamesAsMappedAndRawNamesAsNumericRaw : Type 0
GetValueReadsMappedNamesAsMappedAndRawNamesAsNumericRaw =
    (try_get_value decimal test_manager "tank_pressure" ≡ ok (some bar_100))
    × (try_get_value decimal test_manager "ECU:pressure_adc"
        ≡ ok (some (record { value = whole 198; unit = "" })))
    × (try_get_value decimal test_manager "ECU:valve_raw" ≡ ok none)
    × (get_value decimal test_manager "non_existent" ≡ none)
    × (get_value decimal test_manager "ECU:missing_raw" ≡ none)

-- Node 5 gets a raw value for field 10.
abbrev set_raw : List (ℕ × CanNode Sample) → List (ℕ × CanNode Sample)
set_raw [] = []
set_raw ((id, node) ∷ rest) =
    (id, set_value_of 1 10 (CanDataValue.raw (1 ∷ 2 ∷ 3 ∷ [])) node) ∷ rest

abbrev raw_manager : NodeManager decimal
raw_manager = record test_manager { can_nodes = set_raw test_manager.can_nodes }

abbrev TryGetValueReportsRawValuesThatCannotBeConvertedToNumbers : Type 0
TryGetValueReportsRawValuesThatCannotBeConvertedToNumbers =
    (try_get_value decimal raw_manager "ECU:pressure_adc" ≡ err (value_error not_decoded))
    × (get_value decimal raw_manager "ECU:pressure_adc" ≡ none)

abbrev GetReturnsNoneOnMissingMappingOrUnregistered : Type 0
GetReturnsNoneOnMissingMappingOrUnregistered =
    (get_raw_value decimal test_manager "non_existent" ≡ none)
    × (get_mapped_value decimal test_manager "non_existent" ≡ none)
    × (get_logical_value decimal test_manager "non_existent" ≡ none)
    × (get_raw_value decimal test_manager "tank_temp" ≡ none)
    × (get_mapped_value decimal test_manager "tank_temp" ≡ none)
    × (get_logical_value decimal test_manager "tank_temp" ≡ none)

-- The tests that read from the node as it was inserted pass.
read_tests_pass :
    ReadsRawMappedAndLogicalValuesByMappingName × TryGetMappedValueReturnsOkNoneWhenNoValueCached
    × GetReturnsNoneOnMissingMappingOrUnregistered
unfolding get_raw_value get_mapped_value get_logical_value try_get_raw_value try_get_mapped_value
    try_get_logical_value resolve_mapping_by_name resolve_mapping_target lookup_mapping
    is_mapped_name contains_char get_mapping_for_name latest_raw_value lookup insert CanNode.new
    Manager.new mapped_value can_data_value_to_f64 logical_value matches contains
    range_with_defaults
read_tests_pass = (
  (refl, refl, refl, refl, refl, refl, refl),
  (refl, refl, refl),
  (refl, refl, refl, refl, refl, refl),
)

-- So do those of mapped and raw names.
value_tests_pass :
    GetValueReadsMappedNamesAsMappedAndRawNamesAsNumericRaw
    × TryGetValueReportsRawValuesThatCannotBeConvertedToNumbers
unfolding get_value try_get_value try_get_mapped_value try_get_raw_value resolve_mapping_by_name
    resolve_mapping_target lookup_mapping is_mapped_name contains_char split_once
    get_mapping_for_name get_mapping_for_raw latest_raw_value lookup insert CanNode.new Manager.new
    mapped_value can_data_value_to_f64
value_tests_pass = ((refl, refl, refl, refl, refl), (refl, refl))
