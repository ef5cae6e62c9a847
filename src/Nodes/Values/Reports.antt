-- ===== src/Nodes/Values/Reports.antt =====
-- What is read by name (src/nodes/node_manager.rs, `try_get_raw_value` and `try_get_mapped_value`)
-- once a node has reported a value (`handle_field_get_res`).
use ferro_flow.Prelude.{
  ℕ, ◌≡◌, ap, ◌∙◌, String, ◌&&◌, Option, some, ok, ◌==◌, nat_eq, ◌>>=◌, if◌then◌else◌,
}
use ferro_flow.Prelude.Assoc.{lookup}
use ferro_flow.Platform.{Platform, CanDataValue}
use ferro_flow.Messages.{CanMessageId, FieldGetResPayload}
use ferro_flow.Mapping.Entry.{mapped_value}
use ferro_flow.Nodes.CanNode.{CanNode, FieldInfo}
use ferro_flow.Nodes.Manager.{NodeManager}
use ferro_flow.Nodes.Manager.Handlers.{field_info_of, handle_field_get_res}
use ferro_flow.Nodes.Values.{
  ResolvedMappingTarget, latest_raw_value, resolve_mapping_by_name, try_get_raw_value,
  try_get_mapped_value, on_value,
}
use ferro_flow.Nodes.Values.Updates.{bind-agree, Stores, handle_field_get_res-Stores}

module _ (w : Platform) where
  -- The reported value for the field that reported it, else the latest value.
  abbrev pub reported :
      NodeManager w
      → CanMessageId
      → FieldGetResPayload w
      → CanDataValue w.F32
      → ResolvedMappingTarget
      → Option (CanDataValue w.F32)
  reported m id res value t =
      if id.sender_id == t.node_id && res.field_id == t.field_id
      then some value
      else latest_raw_value w m t

  -- What every read by a field name returns in the state `after` the report.
  pub record IsReported (m : NodeManager w) (id : CanMessageId) (res : FieldGetResPayload w)
      (after : NodeManager w) : Type 0 where
    pub node : CanNode w.F32
    pub info : FieldInfo
    pub value : CanDataValue w.F32
    pub registered : lookup id.sender_id m.can_nodes ≡ some node
    pub defined : field_info_of node res.field_id ≡ some info
    pub converted : w.convert_from_raw res.value info.data_type ≡ some value
    pub same_names :
        (name : String) → resolve_mapping_by_name w after name ≡ resolve_mapping_by_name w m name
    pub raw :
        (name : String)
        → try_get_raw_value w after name
          ≡ (resolve_mapping_by_name w m name >>= λ found. ok (reported m id res value found.1))
    pub mapped :
        (name : String)
        → try_get_mapped_value w after name ≡ (
            resolve_mapping_by_name w m name >>= λ found.
            on_value w (reported m id res value found.1) (mapped_value w found.0.mapping_entry))

  Stores-IsReported :
      (m : NodeManager w) (id : CanMessageId) (res : FieldGetResPayload w) (after : NodeManager w)
      → Stores w m id res after
      → IsReported m id res after
  unfolding try_get_raw_value try_get_mapped_value
  Stores-IsReported m id res after s = record {
    node = s.node;
    info = s.info;
    value = s.value;
    registered = s.registered;
    defined = s.defined;
    same_names = s.same_names;
    converted = s.converted;
    raw = λ name.
        ap (λ r. r >>= λ found. ok (latest_raw_value w after found.1)) (s.same_names name)
        ∙ bind-agree _ _ _ (λ found. ap ok (s.latest found.1));
    mapped = λ name.
        ap
          (λ r. r >>= λ found.
            on_value w (latest_raw_value w after found.1) (mapped_value w found.0.mapping_entry))
          (s.same_names name)
        ∙ bind-agree _ _ _ (λ found.
          ap (λ v. on_value w v (mapped_value w found.0.mapping_entry)) (s.latest found.1));
  }

  -- After a field response that was accepted, its sender is registered and has the field; and for
  -- every field name: the name resolves as before; the raw read returns the reported value,
  -- converted to the type that the sender registered for the field, if the name is one of
  -- the field that reported it, and else what it returned before; the mapped read is the conversion
  -- of the same value by the entry.
  pub handle_field_get_res-IsReported :
      (m : NodeManager w) (now : ℕ) (id : CanMessageId) (res : FieldGetResPayload w)
      → (handle_field_get_res m now id res).result ≡ ok tt
      → IsReported m id res (handle_field_get_res m now id res).manager
  handle_field_get_res-IsReported m now id res h =
      Stores-IsReported m id res _ (handle_field_get_res-Stores w m now id res h)
