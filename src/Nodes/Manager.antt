-- ===== src/Nodes/Manager.antt =====
-- The state of src/nodes/node_manager.rs and its message handlers. A handler returns the new state,
-- the events that it dispatched and its result; `now` is the reading of `Utc::now`. The maps from
-- ids are association lists. The mutex is not poisoned.
pub mod Handlers
pub mod Complete
pub mod Registration
use ferro_flow.Prelude.{
  ℕ, ◌+◌, String, Bool, true, false, List, [], ◌∷◌, ◌++◌, map, Option, none, some, Result, ok, err,
  ◌>>=◌, or_fail, nat_eq, pos, if◌then◌else◌,
}
use ferro_flow.Prelude.Assoc.{lookup, insert, remove}
use ferro_flow.Platform.{Platform, CanDataType, CanDataValue, Json}
use ferro_flow.Messages.{
  CanMessage, CanMessageId, NodeIds, NodeInfoResPayload, FieldRegistrationPayload,
  TelemetryGroupDefinitionPayload, TelemetryGroupUpdatePayload, FieldGetResPayload,
}
use ferro_flow.Events.{Event, FieldLog}
use ferro_flow.Mapping.{Mapping}
use ferro_flow.Nodes.CanNode
use ferro_flow.Nodes.CanNode.{
  CanNode, RegistrationInfo, FieldInfo, TelemetryGroupDefinition, node_registration_complete,
}

pub data NodeError : Type 0 where
  not_registering not_registered group_not_defined field_not_defined : ℕ → NodeError
  unpack_failed : ℕ → ℕ → NodeError
  convert_failed : ℕ → ℕ → NodeError
  unsupported_message : ℕ → NodeError

pub record NodeManager (w : Platform) : Type 0 where
  pub mapping : Mapping w.F64 w.TomlValue
  pub can_nodes : List (ℕ × CanNode w.F32)
  pub registering_nodes : List (ℕ × CanNode w.F32)

pub record Handled (w : Platform) : Type 0 where
  pub manager : NodeManager w
  pub events : List (Event w)
  pub result : Result NodeError (Unit {0})

abbrev pub add_field : {S : Type 0} → FieldRegistrationPayload → Bool → CanNode S → CanNode S
add_field reg is_telemetry node =
    let info : FieldInfo = record { data_type = reg.field_type; name = reg.field_name } in
    if is_telemetry
    then record node { telemetry_fields = insert reg.field_id info node.telemetry_fields }
    else record node { parameter_fields = insert reg.field_id info node.parameter_fields }

abbrev pub add_group : {S : Type 0} → TelemetryGroupDefinitionPayload → CanNode S → CanNode S
add_group definition node = record node {
  telemetry_groups =
      insert definition.group_id (record { fields = definition.field_ids }) node.telemetry_groups;
}

module _ {w : Platform} where
  unfoldable pub new : Mapping w.F64 w.TomlValue → NodeManager w
  new mapping = record { mapping = mapping; can_nodes = []; registering_nodes = [] }

  unfoldable pub start_node_registration : NodeIds → List (Event w)
  start_node_registration ids = Event.send_can_message ids.broadcast CanMessage.node_info_req ∷ []

  abbrev pub succeed : NodeManager w → List (Event w) → Handled w
  succeed m events = record { manager = m; events = events; result = ok tt }

  abbrev pub fail : NodeManager w → NodeError → Handled w
  fail m e = record { manager = m; events = []; result = err e }

  unfoldable pub handle_node_info_announcement :
      NodeManager w → CanMessageId → NodeInfoResPayload → Handled w
  handle_node_info_announcement m id res =
      let info : RegistrationInfo = record {
        telemetry_count = res.tel_count;
        parameter_count = res.par_count;
        firmware_hash = res.firmware_hash;
        protocol_hash = res.liquid_hash;
        device_name = res.device_name;
      } in
      let node = CanNode.new info in
      succeed
        (if node_registration_complete node
          then record m { can_nodes = insert id.sender_id node m.can_nodes }
          else record m { registering_nodes = insert id.sender_id node m.registering_nodes })
        []

  -- A registering node has changed: it stays, or moves to the registered ones if it is complete.
  unfoldable pub settle_node : NodeManager w → ℕ → CanNode w.F32 → NodeManager w
  settle_node m node_id node =
      if node_registration_complete node
      then record m {
        registering_nodes = remove node_id m.registering_nodes;
        can_nodes = insert node_id node m.can_nodes;
      }
      else record m { registering_nodes = insert node_id node m.registering_nodes }

  -- `if let Some(node) = registering_nodes.get_mut(&node_id)`
  abbrev pub while_registering :
      NodeManager w → ℕ → Option (CanNode w.F32) → (CanNode w.F32 → CanNode w.F32) → Handled w
  while_registering m node_id none change = fail m (not_registering node_id)
  while_registering m node_id (some node) change = succeed (settle_node m node_id (change node)) []

  unfoldable pub handle_field_registration :
      NodeManager w → CanMessageId → FieldRegistrationPayload → Bool → Handled w
  unfolding settle_node
  handle_field_registration m id reg is_telemetry =
      while_registering m id.sender_id (lookup id.sender_id m.registering_nodes)
        (add_field reg is_telemetry)

  unfoldable pub handle_telemetry_group_definition :
      NodeManager w → CanMessageId → TelemetryGroupDefinitionPayload → Handled w
  unfolding settle_node
  handle_telemetry_group_definition m id definition =
      while_registering m id.sender_id (lookup id.sender_id m.registering_nodes)
        (add_group definition)
