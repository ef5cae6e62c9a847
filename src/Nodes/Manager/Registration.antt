-- ===== src/Nodes/Manager/Registration.antt =====
-- Registration: the registered nodes are exactly the complete ones, through every message.
use ferro_flow.Prelude.{
  ℕ, List, Option, none, some, Result, ok, err, nat_eq, Bool-cases, Option-cases, inl, inr,
}
use ferro_flow.Prelude.Assoc.{lookup, insert, Values, Values-insert, Values-remove, Values-lookup}
use ferro_flow.Platform.{Platform, CanDataValue}
use ferro_flow.Messages.{CanMessage, CanMessageId, NodeInfoResPayload}
use ferro_flow.Nodes.CanNode.{CanNode, FieldInfo, RegistrationInfo, node_registration_complete}
use ferro_flow.Nodes.CanNode
use ferro_flow.Mapping.{Mapping}
use ferro_flow.Nodes.Manager.{
  new, NodeManager, NodeError, Handled, settle_node, while_registering,
  handle_node_info_announcement, handle_field_registration, handle_telemetry_group_definition,
}
use ferro_flow.Nodes.Manager.Complete.{
  IsComplete, IsIncomplete, write_values-complete, set_value_of-complete, received-complete,
  heartbeat_requests-Values,
}
use ferro_flow.Nodes.Manager.Handlers.{
  update_fields, on_node, on_field, field_info_of, store_field, handle_telemetry_group_update,
  handle_field_get_res, handle_heartbeat_res, handle_can_message_from_node,
  dispatch_heartbeat_requests,
}

-- Every registered node is complete, and no registering one is.
pub record IsConsistent {w : Platform} (m : NodeManager w) : Type 0 where
  pub registered : Values IsComplete m.can_nodes
  pub registering : Values IsIncomplete m.registering_nodes

module _ {w : Platform} where
  settle_node-IsConsistent :
      (m : NodeManager w) (node_id : ℕ) (node : CanNode w.F32)
      → IsConsistent m
      → IsConsistent (settle_node m node_id node)
  unfolding settle_node
  settle_node-IsConsistent m node_id node v = elim (Bool-cases (node_registration_complete node)) [
    | inl e ↦ rw e (record {
      registered = Values-insert IsComplete node_id node m.can_nodes e v.registered;
      registering = Values-remove IsIncomplete node_id m.registering_nodes v.registering;
    })
    | inr e ↦ rw e (record {
      registered = v.registered;
      registering = Values-insert IsIncomplete node_id node m.registering_nodes e v.registering;
    })
  ]

  while_registering-IsConsistent :
      (m : NodeManager w) (node_id : ℕ) (o : Option (CanNode w.F32))
      (change : CanNode w.F32 → CanNode w.F32)
      → IsConsistent m
      → IsConsistent (while_registering m node_id o change).manager
  while_registering-IsConsistent m node_id none change v = v
  while_registering-IsConsistent m node_id (some node) change v =
      settle_node-IsConsistent m node_id (change node) v

  announcement-IsConsistent :
      (m : NodeManager w) (id : CanMessageId) (p : NodeInfoResPayload)
      → IsConsistent m
      → IsConsistent (handle_node_info_announcement m id p).manager
  unfolding handle_node_info_announcement
  announcement-IsConsistent m id p v =
      let info : RegistrationInfo = record {
        telemetry_count = p.tel_count;
        parameter_count = p.par_count;
        firmware_hash = p.firmware_hash;
        protocol_hash = p.liquid_hash;
        device_name = p.device_name;
      } in
      let node : CanNode w.F32 = CanNode.new info in
      elim (Bool-cases (node_registration_complete node)) [
        | inl e ↦ rw e (record {
          registered = Values-insert IsComplete id.sender_id node m.can_nodes e v.registered;
          registering = v.registering;
        })
        | inr e ↦ rw e (record {
          registered = v.registered;
          registering =
              Values-insert IsIncomplete id.sender_id node m.registering_nodes e v.registering;
        })
      ]

  store-IsConsistent :
      (m : NodeManager w) (node_id : ℕ) (node : CanNode w.F32)
      → IsComplete node
      → IsConsistent m
      → IsConsistent (record m { can_nodes = insert node_id node m.can_nodes })
  store-IsConsistent m node_id node c v = record {
    registered = Values-insert IsComplete node_id node m.can_nodes c v.registered;
    registering = v.registering;
  }

  on_node-IsConsistent :
      (m : NodeManager w) (node_id : ℕ) (f : CanNode w.F32 → Handled w)
      → IsConsistent m
      → ((node : CanNode w.F32) → IsComplete node → IsConsistent (f node).manager)
      → IsConsistent (on_node m node_id (lookup node_id m.can_nodes) f).manager
  on_node-IsConsistent m node_id f v h = elim (Option-cases (lookup node_id m.can_nodes)) [
    | inl e ↦ rw e v
    | inr (node, e) ↦ rw e (h node (Values-lookup IsComplete node_id m.can_nodes v.registered e))
  ]

  update-IsConsistent :
      (m : NodeManager w) (now node_id : ℕ) (node : CanNode w.F32) (packed : w.Packed)
      (r : Result NodeError (List (ℕ × FieldInfo)))
      → IsComplete node
      → IsConsistent m
      → IsConsistent (update_fields m now node_id node packed r).manager
  update-IsConsistent m now node_id node packed (err e) c v = v
  update-IsConsistent m now node_id node packed (ok fields) c v =
      store-IsConsistent m node_id _ (write_values-complete w now node_id node fields _ c) v

  store_field-IsConsistent :
      (m : NodeManager w) (now node_id field_id : ℕ) (node : CanNode w.F32) (info : FieldInfo)
      (o : Option (CanDataValue w.F32))
      → IsComplete node
      → IsConsistent m
      → IsConsistent (store_field m now node_id field_id node info o).manager
  store_field-IsConsistent m now node_id field_id node info none c v = v
  store_field-IsConsistent m now node_id field_id node info (some value) c v =
      store-IsConsistent m node_id _ (set_value_of-complete now field_id value node c) v

  on_field-IsConsistent :
      (m : NodeManager w) (id : ℕ) (o : Option FieldInfo) (f : FieldInfo → Handled w)
      → IsConsistent m
      → ((info : FieldInfo) → IsConsistent (f info).manager)
      → IsConsistent (on_field m id o f).manager
  on_field-IsConsistent m id none f v h = v
  on_field-IsConsistent m id (some info) f v h = h info

  -- If the registered nodes are complete and the registering ones are not, they are so after every
  -- message from a node, accepted or refused.
  handle_can_message_from_node-IsConsistent :
      (m : NodeManager w) (now : ℕ) (id : CanMessageId) (message : CanMessage w)
      → IsConsistent m
      → IsConsistent (handle_can_message_from_node m now id message).manager
  unfolding handle_can_message_from_node handle_field_registration handle_telemetry_group_definition
      handle_telemetry_group_update handle_field_get_res handle_heartbeat_res
  handle_can_message_from_node-IsConsistent m now id (CanMessage.node_info_announcement p) v =
      announcement-IsConsistent m id p v
  handle_can_message_from_node-IsConsistent m now id (CanMessage.telemetry_value_registration p) v =
      while_registering-IsConsistent m id.sender_id _ _ v
  handle_can_message_from_node-IsConsistent m now id (CanMessage.parameter_registration p) v =
      while_registering-IsConsistent m id.sender_id _ _ v
  handle_can_message_from_node-IsConsistent m now id (CanMessage.telemetry_group_definition p) v =
      while_registering-IsConsistent m id.sender_id _ _ v
  handle_can_message_from_node-IsConsistent m now id (CanMessage.telemetry_group_update p) v =
      on_node-IsConsistent m id.sender_id _ v
        λ node c. update-IsConsistent m now id.sender_id node p.values _ c v
  handle_can_message_from_node-IsConsistent m now id (CanMessage.field_get_res p) v =
      on_node-IsConsistent m id.sender_id _ v λ node c.
        on_field-IsConsistent m p.field_id (field_info_of node p.field_id)
          (λ info.
            store_field m now id.sender_id p.field_id node info
              (w.convert_from_raw p.value info.data_type))
          v
          λ info.
            store_field-IsConsistent m now id.sender_id p.field_id node info
              (w.convert_from_raw p.value info.data_type) c v
  handle_can_message_from_node-IsConsistent m now id (CanMessage.heartbeat_res n) v =
      on_node-IsConsistent m id.sender_id _ v
        λ node c. store-IsConsistent m id.sender_id _ (received-complete (some (now, n)) node c) v
  handle_can_message_from_node-IsConsistent m now id CanMessage.node_info_req v = v
  handle_can_message_from_node-IsConsistent m now id (CanMessage.field_get_req _) v = v
  handle_can_message_from_node-IsConsistent m now id (CanMessage.heartbeat_req _) v = v
  handle_can_message_from_node-IsConsistent m now id (CanMessage.parameter_set_req _) v = v
  handle_can_message_from_node-IsConsistent m now id (CanMessage.other _) v = v

  dispatch-IsConsistent :
      (m : NodeManager w) (now : ℕ → ℕ)
      → IsConsistent m
      → IsConsistent (dispatch_heartbeat_requests m now).manager
  unfolding dispatch_heartbeat_requests
  dispatch-IsConsistent m now v = record {
    registered = heartbeat_requests-Values w now m.can_nodes v.registered;
    registering = v.registering;
  }

-- The states that the two threads reach from an empty manager, in any order of their steps.
pub data Reached {w : Platform} : NodeManager w → Type 1 where
  start : (mapping : Mapping w.F64 w.TomlValue) → Reached (new mapping)
  message :
      {m : NodeManager w} (now : ℕ) (id : CanMessageId) (msg : CanMessage w)
      → Reached m
      → Reached (handle_can_message_from_node m now id msg).manager
  heartbeat :
      {m : NodeManager w} (now : ℕ → ℕ)
      → Reached m
      → Reached (dispatch_heartbeat_requests m now).manager

-- In every state that is reached from the empty one by messages and rounds of heartbeats, in any
-- order, each registered node has as many telemetry fields, parameters and grouped fields as it
-- announced, and no registering node has.
pub Reached-IsConsistent : {w : Platform} {m : NodeManager w} → Reached m → IsConsistent m
unfolding new
Reached-IsConsistent (start mapping) = record { registered = tt; registering = tt }
Reached-IsConsistent (message {m} now id msg r) =
    handle_can_message_from_node-IsConsistent m now id msg (Reached-IsConsistent r)
Reached-IsConsistent (heartbeat {m} now r) = dispatch-IsConsistent m now (Reached-IsConsistent r)
