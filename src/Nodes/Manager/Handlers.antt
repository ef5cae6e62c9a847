-- ===== src/Nodes/Manager/Handlers.antt =====
-- The handlers of src/nodes/node_manager.rs for values and heartbeats, the dispatch over the
-- messages, and the heartbeat requests. The counter of a heartbeat is a `u32` and wraps, as in a
-- release build.
use ferro_flow.Prelude.{
  ℕ, ◌+◌, ◌%◌, ◌^◌, true, false, List, [], ◌∷◌, map, Option, none, some, Result, ok, err, ◌>>=◌,
  or_fail, or_else, nat_eq, pos,
}
use ferro_flow.Prelude.Assoc.{lookup, insert}
use ferro_flow.Platform.{Platform, CanDataType, CanDataValue, Json}
use ferro_flow.Messages.{CanMessage, CanMessageId, TelemetryGroupUpdatePayload, FieldGetResPayload}
use ferro_flow.Events.{Event}
use ferro_flow.Nodes.CanNode.{CanNode, FieldInfo}
use ferro_flow.Nodes.Manager.{
  NodeManager, NodeError, Handled, succeed, fail, not_registered, group_not_defined,
  field_not_defined, unpack_failed, convert_failed, unsupported_message,
  handle_node_info_announcement, handle_field_registration, handle_telemetry_group_definition,
}

abbrev pub set_value_of : {S : Type 0} → ℕ → ℕ → CanDataValue S → CanNode S → CanNode S
set_value_of now field_id value node = record node {
  values = insert field_id (now, value) node.values;
}

unfoldable pub can_data_value_to_json :
    (w : Platform) → CanDataValue w.F32 → Json w.Number w.JsonRest
can_data_value_to_json w (CanDataValue.float32 v) = w.json_of_f32 v
can_data_value_to_json w (CanDataValue.int32 n) = w.json_of_ℤ n
can_data_value_to_json w (CanDataValue.int16 n) = w.json_of_ℤ n
can_data_value_to_json w (CanDataValue.int8 n) = w.json_of_ℤ n
can_data_value_to_json w (CanDataValue.uint32 n) = w.json_of_ℤ (pos n)
can_data_value_to_json w (CanDataValue.uint16 n) = w.json_of_ℤ (pos n)
can_data_value_to_json w (CanDataValue.uint8 n) = w.json_of_ℤ (pos n)
can_data_value_to_json w (CanDataValue.boolean b) = Json.bool b
can_data_value_to_json w (CanDataValue.raw items) = w.json_of_list items

-- `field_ids.iter().map(..).collect::<Result<Vec<_>>>()`
unfoldable pub field_infos : List (ℕ × FieldInfo) → List ℕ → Result NodeError (List (ℕ × FieldInfo))
field_infos fields [] = ok []
field_infos fields (id ∷ ids) = do
  info ← or_fail (lookup id fields) (field_not_defined id)
  rest ← field_infos fields ids
  ok ((id, info) ∷ rest)

abbrev pub types_of : List (ℕ × FieldInfo) → List CanDataType
types_of fields = map (λ (f : ℕ × FieldInfo). f.1.data_type) fields

-- The fields of a group, or the refusal of the update.
abbrev pub group_fields : {S : Type 0} → CanNode S → ℕ → Result NodeError (List (ℕ × FieldInfo))
group_fields node group_id = do
  group ← or_fail (lookup group_id node.telemetry_groups) (group_not_defined group_id)
  field_infos node.telemetry_fields group.fields

-- A field's definition, the telemetry fields first.
abbrev pub field_info_of : {S : Type 0} → CanNode S → ℕ → Option FieldInfo
field_info_of node id = or_else (lookup id node.telemetry_fields) (lookup id node.parameter_fields)

unfoldable pub next_heartbeat : Option (ℕ × ℕ) → ℕ
next_heartbeat none = 0
next_heartbeat (some (at, counter)) = (counter + 1) % 2 ^ 32

-- The node after some values were written, with the events and the result so far.
pub record Written (w : Platform) : Type 0 where
  pub node : CanNode w.F32
  pub events : List (Event w)
  pub result : Result NodeError (Unit {0})

module _ {w : Platform} where
  abbrev pub log_of : ℕ → ℕ → ℕ → FieldInfo → CanDataValue w.F32 → Event w
  log_of now node_id field_id info value = Event.node_field_updated (record {
    timestamp = now;
    node_id = node_id;
    field_id = field_id;
    field_name = info.name;
    field_value = can_data_value_to_json w value;
  })

  -- The loop over the fields of a group with their unpacked values: it ends at the first value that
  -- failed to unpack, and what was written before that stays.
  unfoldable pub write_values :
      (now node_id : ℕ)
      → CanNode w.F32
      → List (ℕ × FieldInfo)
      → List (Option (CanDataValue w.F32))
      → Written w
  write_values now node_id node [] values = record { node = node; events = []; result = ok tt }
  write_values now node_id node (f ∷ fields) [] = record {
    node = node;
    events = [];
    result = ok tt;
  }
  write_values now node_id node ((id, info) ∷ fields) (none ∷ values) = record {
    node = node;
    events = [];
    result = err (unpack_failed node_id id);
  }
  write_values now node_id node ((id, info) ∷ fields) (some value ∷ values) =
      let r = write_values now node_id (set_value_of now id value node) fields values in
      record r { events = log_of now node_id id info value ∷ r.events }

  -- The values are written into the node's own map, which is shared.
  abbrev pub store_written : NodeManager w → ℕ → Written w → Handled w
  store_written m node_id r = record {
    manager = record m { can_nodes = insert node_id r.node m.can_nodes };
    events = r.events;
    result = r.result;
  }

  abbrev pub update_fields :
      NodeManager w
      → (now node_id : ℕ) → CanNode w.F32
      → w.Packed
      → Result NodeError (List (ℕ × FieldInfo))
      → Handled w
  update_fields m now node_id node packed (err e) = fail m e
  update_fields m now node_id node packed (ok fields) =
      store_written m node_id
        (write_values now node_id node fields (w.unpack packed (types_of fields)))

  abbrev pub on_node :
      NodeManager w → ℕ → Option (CanNode w.F32) → (CanNode w.F32 → Handled w) → Handled w
  on_node m node_id none f = fail m (not_registered node_id)
  on_node m node_id (some node) f = f node

  unfoldable pub handle_telemetry_group_update :
      NodeManager w → (now : ℕ) → CanMessageId → TelemetryGroupUpdatePayload w → Handled w
  unfolding field_infos write_values
  handle_telemetry_group_update m now id update =
      on_node m id.sender_id (lookup id.sender_id m.can_nodes) λ node.
        update_fields m now id.sender_id node update.values (group_fields node update.group_id)

  abbrev pub store_field :
      NodeManager w
      → (now node_id field_id : ℕ) → CanNode w.F32
      → FieldInfo
      → Option (CanDataValue w.F32)
      → Handled w
  store_field m now node_id field_id node info none = fail m (convert_failed node_id field_id)
  store_field m now node_id field_id node info (some value) =
      succeed
        (record m { can_nodes = insert node_id (set_value_of now field_id value node) m.can_nodes })
        (log_of now node_id field_id info value ∷ [])

  abbrev pub on_field : NodeManager w → ℕ → Option FieldInfo → (FieldInfo → Handled w) → Handled w
  on_field m id none f = fail m (field_not_defined id)
  on_field m id (some info) f = f info

  unfoldable pub handle_field_get_res :
      NodeManager w → (now : ℕ) → CanMessageId → FieldGetResPayload w → Handled w
  handle_field_get_res m now id res =
      on_node m id.sender_id (lookup id.sender_id m.can_nodes) λ node.
        on_field m res.field_id (field_info_of node res.field_id) λ info.
          store_field m now id.sender_id res.field_id node info
            (w.convert_from_raw res.value info.data_type)

  unfoldable pub handle_heartbeat_res :
      NodeManager w → (now : ℕ) → CanMessageId → (counter : ℕ) → Handled w
  handle_heartbeat_res m now id counter =
      on_node m id.sender_id (lookup id.sender_id m.can_nodes) λ node.
        succeed
          (record m {
            can_nodes =
                insert id.sender_id
                  (record node { latest_heartbeat_received = some (now, counter) }) m.can_nodes;
          })
          []

  unfoldable pub handle_can_message_from_node :
      NodeManager w → (now : ℕ) → CanMessageId → CanMessage w → Handled w
  unfolding handle_node_info_announcement handle_field_registration
      handle_telemetry_group_definition handle_telemetry_group_update handle_field_get_res
      handle_heartbeat_res
  handle_can_message_from_node m now id (CanMessage.node_info_announcement p) =
      handle_node_info_announcement m id p
  handle_can_message_from_node m now id (CanMessage.telemetry_value_registration p) =
      handle_field_registration m id p true
  handle_can_message_from_node m now id (CanMessage.parameter_registration p) =
      handle_field_registration m id p false
  handle_can_message_from_node m now id (CanMessage.telemetry_group_definition p) =
      handle_telemetry_group_definition m id p
  handle_can_message_from_node m now id (CanMessage.telemetry_group_update p) =
      handle_telemetry_group_update m now id p
  handle_can_message_from_node m now id (CanMessage.field_get_res p) =
      handle_field_get_res m now id p
  handle_can_message_from_node m now id (CanMessage.heartbeat_res c) =
      handle_heartbeat_res m now id c
  handle_can_message_from_node m now id _ = fail m (unsupported_message id.sender_id)

  -- The loop over all registered nodes; `now` is taken once for each.
  unfoldable pub heartbeat_requests :
      (ℕ → ℕ) → List (ℕ × CanNode w.F32) → List (ℕ × CanNode w.F32) × List (Event w)
  unfolding next_heartbeat
  heartbeat_requests now [] = ([], [])
  heartbeat_requests now ((node_id, node) ∷ rest) =
      let counter = next_heartbeat node.latest_heartbeat_sent in
      let (nodes, events) = heartbeat_requests now rest in
      (
        (node_id, record node { latest_heartbeat_sent = some (now node_id, counter) }) ∷ nodes,
        Event.send_can_message node_id (CanMessage.heartbeat_req counter) ∷ events,
      )

  unfoldable pub dispatch_heartbeat_requests : NodeManager w → (ℕ → ℕ) → Handled w
  unfolding heartbeat_requests
  dispatch_heartbeat_requests m now =
      let (nodes, events) = heartbeat_requests now m.can_nodes in
      succeed (record m { can_nodes = nodes }) events
