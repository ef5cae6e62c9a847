-- ===== src/Messages.antt =====
-- The LiquidCAN messages and payloads, with the variants and fields that the source names.
use ferro_flow.Prelude.{ℕ, String, List}
use ferro_flow.Platform.{Platform, CanDataType, CanDataValue}

-- `CanMessageId`, by its two accessors.
pub record CanMessageId : Type 0 where
  pub sender_id : ℕ
  pub receiver_id : ℕ

-- The node ids with a meaning of their own are the crate's constants.
pub record NodeIds : Type 0 where
  pub invalid : ℕ
  pub broadcast : ℕ
  pub server : ℕ

pub record NodeInfoResPayload : Type 0 where
  pub tel_count : ℕ
  pub par_count : ℕ
  pub firmware_hash : ℕ
  pub liquid_hash : ℕ
  pub device_name : String

pub record FieldRegistrationPayload : Type 0 where
  pub field_id : ℕ
  pub field_type : CanDataType
  pub field_name : String

pub record TelemetryGroupDefinitionPayload : Type 0 where
  pub group_id : ℕ
  pub field_ids : List ℕ

pub record TelemetryGroupUpdatePayload (w : Platform) : Type 0 where
  pub group_id : ℕ
  pub values : w.Packed

pub record FieldGetResPayload (w : Platform) : Type 0 where
  pub field_id : ℕ
  pub value : CanDataValue w.F32

pub record ParameterSetReqPayload (w : Platform) : Type 0 where
  pub parameter_id : ℕ
  pub value : CanDataValue w.F32

pub data CanMessage (w : Platform) : Type 0 where
  node_info_req : CanMessage w
  node_info_announcement : NodeInfoResPayload → CanMessage w
  telemetry_value_registration parameter_registration : FieldRegistrationPayload → CanMessage w
  telemetry_group_definition : TelemetryGroupDefinitionPayload → CanMessage w
  telemetry_group_update : TelemetryGroupUpdatePayload w → CanMessage w
  field_get_req : ℕ → CanMessage w
  field_get_res : FieldGetResPayload w → CanMessage w
  heartbeat_req heartbeat_res : ℕ → CanMessage w
  parameter_set_req : ParameterSetReqPayload w → CanMessage w
  other : w.OtherMessage → CanMessage w
