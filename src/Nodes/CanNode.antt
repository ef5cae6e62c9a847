-- ===== src/Nodes/CanNode.antt =====
-- src/nodes/can_node.rs: a node with its fields, groups and values by their ids. Times are numbers,
-- and the locks of the heartbeats are not poisoned.
use ferro_flow.Prelude.{ℕ, ◌+◌, String, Bool, ◌&&◌, List, [], ◌∷◌, Option, none, length, nat_beq}
use ferro_flow.Platform.{CanDataType, CanDataValue}

pub record RegistrationInfo : Type 0 where
  pub telemetry_count : ℕ
  pub parameter_count : ℕ
  pub firmware_hash : ℕ
  pub protocol_hash : ℕ
  pub device_name : String

pub record FieldInfo : Type 0 where
  pub data_type : CanDataType
  pub name : String

pub record TelemetryGroupDefinition : Type 0 where
  pub fields : List ℕ

pub record CanNode (S : Type 0) : Type 0 where
  pub registration_info : RegistrationInfo
  pub telemetry_fields : List (ℕ × FieldInfo)
  pub parameter_fields : List (ℕ × FieldInfo)
  pub telemetry_groups : List (ℕ × TelemetryGroupDefinition)
  pub values : List (ℕ × (ℕ × CanDataValue S))
  pub latest_heartbeat_sent : Option (ℕ × ℕ)
  pub latest_heartbeat_received : Option (ℕ × ℕ)

-- `telemetry_groups.values().map(|group| group.fields.len()).sum()`
abbrev pub grouped_fields : List (ℕ × TelemetryGroupDefinition) → ℕ
grouped_fields [] = 0
grouped_fields ((id, group) ∷ rest) = length group.fields + grouped_fields rest

module _ {S : Type 0} where
  unfoldable pub new : RegistrationInfo → CanNode S
  new info = record {
    registration_info = info;
    telemetry_fields = [];
    parameter_fields = [];
    telemetry_groups = [];
    values = [];
    latest_heartbeat_sent = none;
    latest_heartbeat_received = none;
  }

  unfoldable pub node_registration_complete : CanNode S → Bool
  node_registration_complete node =
      let info = node.registration_info in
      nat_beq (length node.telemetry_fields) info.telemetry_count
      && nat_beq (length node.parameter_fields) info.parameter_count
      && nat_beq (grouped_fields node.telemetry_groups) info.telemetry_count
