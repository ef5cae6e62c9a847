-- ===== src/Nodes/Command.antt =====
-- src/nodes/node_manager/command.rs: requests and writes. A command returns the events that it
-- dispatches, or an error and none.
pub mod Writes
use ferro_flow.Prelude.{
  ℕ, String, Bool, true, false, not, List, [], ◌∷◌, Option, none, some, Result, ok, err, ◌>>=◌,
  ◌>>◌, ensure, or_fail, ℤ, pos, pos_part, ℤ_beq, if◌then◌else◌,
}
use ferro_flow.Numbers.{Double}
use ferro_flow.Platform.{Platform, CanDataType, CanDataValue, Json}
use ferro_flow.Messages.{CanMessage, ParameterSetReqPayload}
use ferro_flow.Events.{Event}
use ferro_flow.Mapping.{MappingEntry, FieldType, telemetry, parameter}
use ferro_flow.Mapping.Entry.{fits_signed, fits_unsigned, wrap, raw_value_from_mapped}
use ferro_flow.Nodes.Manager.{NodeManager}
use ferro_flow.Nodes.Values.{
  AccessError, not_writable, expected_number, expected_integer, expected_boolean,
  integer_out_of_range, ResolvedMappingTarget, is_mapped_name, resolve_mapping_by_name,
  convert_error,
}

abbrev pub is_parameter : FieldType → Bool
is_parameter telemetry = false
is_parameter parameter = true

module _ (w : Platform) where
  open w use {F64, F32, Number, JsonRest, as_f64, as_i64, narrow}

  abbrev pub JsonValue : Type 0
  JsonValue = Json Number JsonRest

  abbrev d : Double F64
  d = w.double

  unfoldable pub request_value : NodeManager w → String → Result AccessError (List (Event w))
  request_value m field_name = do
    found ← resolve_mapping_by_name w m field_name
    ok (Event.send_can_message found.1.node_id (CanMessage.field_get_req found.1.field_id) ∷ [])

  unfoldable pub dispatch_parameter_set : ResolvedMappingTarget → CanDataValue F32 → List (Event w)
  dispatch_parameter_set target raw_value =
      Event.send_can_message target.node_id (
        CanMessage.parameter_set_req (record { parameter_id = target.field_id; value = raw_value }))
      ∷ []

  unfoldable pub json_value_to_f64 : JsonValue → Result AccessError F64
  json_value_to_f64 (Json.number n) = or_fail (as_f64 n) expected_number
  json_value_to_f64 (Json.bool b) = ok (if b then d.one else d.nought)
  json_value_to_f64 (Json.rest r) = err expected_number

  unfoldable pub json_value_as_i64 : JsonValue → Result AccessError ℤ
  json_value_as_i64 (Json.number n) = or_fail (as_i64 n) expected_integer
  json_value_as_i64 (Json.bool b) = ok (if b then pos 1 else pos 0)
  json_value_as_i64 (Json.rest r) = err expected_integer

  unfoldable pub json_value_to_integer : (ℤ → Bool) → JsonValue → Result AccessError ℤ
  unfolding json_value_as_i64
  json_value_to_integer fits value = do
    n ← json_value_as_i64 value
    ensure (fits n) integer_out_of_range
    ok n

  unfoldable pub json_value_as_bool : JsonValue → Result AccessError Bool
  json_value_as_bool (Json.bool b) = ok b
  json_value_as_bool (Json.number n) =
      or_fail (as_i64 n) expected_boolean >>= λ i. ok (not (ℤ_beq i (pos 0)))
  json_value_as_bool (Json.rest r) = err expected_boolean

  unfoldable pub json_value_to_can_data_value :
      JsonValue → CanDataType → Result AccessError (CanDataValue F32)
  unfolding json_value_to_integer json_value_as_bool json_value_to_f64
  json_value_to_can_data_value value CanDataType.float32 =
      wrap (λ x. CanDataValue.float32 (narrow x)) (json_value_to_f64 value)
  json_value_to_can_data_value value CanDataType.int32 =
      wrap CanDataValue.int32 (json_value_to_integer (fits_signed 0x8000_0000) value)
  json_value_to_can_data_value value CanDataType.int16 =
      wrap CanDataValue.int16 (json_value_to_integer (fits_signed 0x8000) value)
  json_value_to_can_data_value value CanDataType.int8 =
      wrap CanDataValue.int8 (json_value_to_integer (fits_signed 0x80) value)
  json_value_to_can_data_value value CanDataType.uint32 =
      wrap (λ n. CanDataValue.uint32 (pos_part n))
        (json_value_to_integer (fits_unsigned 0x1_0000_0000) value)
  json_value_to_can_data_value value CanDataType.uint16 =
      wrap (λ n. CanDataValue.uint16 (pos_part n))
        (json_value_to_integer (fits_unsigned 0x1_0000) value)
  json_value_to_can_data_value value CanDataType.uint8 =
      wrap (λ n. CanDataValue.uint8 (pos_part n))
        (json_value_to_integer (fits_unsigned 0x100) value)
  json_value_to_can_data_value value CanDataType.boolean =
      wrap CanDataValue.boolean (json_value_as_bool value)

  unfoldable pub set_mapped_value :
      NodeManager w → String → F64 → Result AccessError (List (Event w))
  unfolding dispatch_parameter_set
  set_mapped_value m field_name mapped = do
    found ← resolve_mapping_by_name w m field_name
    ensure (is_parameter found.0.mapping_entry.field_type) (not_writable field_name)
    raw_value ←
        convert_error (raw_value_from_mapped w found.0.mapping_entry mapped found.1.data_type)
    ok (dispatch_parameter_set found.1 raw_value)

  unfoldable pub set_raw_value :
      NodeManager w → String → JsonValue → Result AccessError (List (Event w))
  unfolding dispatch_parameter_set
  set_raw_value m field_name value = do
    found ← resolve_mapping_by_name w m field_name
    ensure (is_parameter found.0.mapping_entry.field_type) (not_writable field_name)
    raw_value ← json_value_to_can_data_value value found.1.data_type
    ok (dispatch_parameter_set found.1 raw_value)

  unfoldable pub set_value :
      NodeManager w → String → JsonValue → Result AccessError (List (Event w))
  unfolding is_mapped_name set_mapped_value set_raw_value
  set_value m field_name value =
      if is_mapped_name field_name
      then (json_value_to_f64 value >>= λ mapped. set_mapped_value m field_name mapped)
      else set_raw_value m field_name value
