-- ===== src/Nodes/Values/Updates.antt =====
-- A value that a node reports is the value that is read.
use ferro_flow.Prelude.{
  ℕ, ◌≡◌, refl, ap, ◌∙◌, Bool, true, false, ◌&&◌, Option, none, some, ok, ◌==◌, nat_eq, Bool-cases,
  inl, inr, arith, subst, String, List, [], ◌∷◌, or_else, or_fail, find_map, string_eq, ◌>>=◌,
  Result, err, if◌then◌else◌,
}
use ferro_flow.Prelude.Assoc.{lookup, insert, lookup-insert}
use ferro_flow.Platform.{Platform, CanDataValue}
use ferro_flow.Messages.{CanMessageId, FieldGetResPayload}
use ferro_flow.Nodes.CanNode.{CanNode, FieldInfo}
use ferro_flow.Nodes.Manager.{NodeManager}
use ferro_flow.Nodes.Manager.Handlers.{
  set_value_of, on_node, on_field, store_field, field_info_of, handle_field_get_res,
}
use ferro_flow.Mapping.{FieldType, telemetry, parameter}
use ferro_flow.Nodes.Values.{
  ResolvedMappingTarget, without_time, value_at, latest_raw_value, field_not_registered, find_field,
  fields_of, target_at, target_in, lookup_mapping, resolve_mapping_target, resolve_mapping_by_name,
}
use ferro_flow.Nodes.Values.Resolution.{some-injective}

pub bind-agree :
    {E A B : Type 0} (r : Result E A) (f g : A → Result E B)
    → ((a : A) → f a ≡ g a)
    → (r >>= f) ≡ (r >>= g)
bind-agree (ok a) f g h = h a
bind-agree (err e) f g h = refl

-- A value that `f` takes for the old one leaves its first result as it is.
find_map-insert :
    {V B : Type 0} (f : ℕ × V → Option B) (k : ℕ) (old new : V) (map : List (ℕ × V))
    → lookup k map ≡ some old
    → f (k, new) ≡ f (k, old)
    → find_map f (insert k new map) ≡ find_map f map
unfolding lookup insert
find_map-insert f k old new [] there same = absurd (ground arith)
find_map-insert f k old new ((j, v) ∷ rest) there same = elim (Bool-cases (j == k)) [
  | inl e ↦
      let key : j ≡ k = (nat_eq.same_iff j k).0 e in
      let value : v ≡ old = some-injective (rw e at there) in rw (e, key, value, same) refl
  | inr e ↦ rw e (ap (or_else (f (j, v))) (find_map-insert f k old new rest (rw e at there) same))
]

module _ (w : Platform) where
  pub value_at-insert :
      (now field_id asked : ℕ) (value : CanDataValue w.F32) (node : CanNode w.F32)
      → value_at w asked (some (set_value_of now field_id value node))
        ≡ (if field_id == asked then some value else value_at w asked (some node))
  value_at-insert now field_id asked value node =
      ap without_time (lookup-insert field_id asked (now, value) node.values)
      ∙ without_time_if (field_id == asked)
    where
      without_time_if :
          (b : Bool)
          → without_time (if b then some (now, value) else lookup asked node.values)
            ≡ (if b then some value else without_time (lookup asked node.values))
      without_time_if true = refl
      without_time_if false = refl

  latest-insert :
      (m : NodeManager w) (now node_id field_id : ℕ) (value : CanDataValue w.F32)
      (node : CanNode w.F32) (t : ResolvedMappingTarget)
      → lookup node_id m.can_nodes ≡ some node
      → latest_raw_value w
          (record m {
            can_nodes = insert node_id (set_value_of now field_id value node) m.can_nodes;
          })
          t
        ≡ (if node_id == t.node_id && field_id == t.field_id
            then some value
            else latest_raw_value w m t)
  unfolding latest_raw_value
  latest-insert m now node_id field_id value node t h = elim (Bool-cases (node_id == t.node_id)) [
    | inl e ↦
        let same : node_id ≡ t.node_id = (nat_eq.same_iff node_id t.node_id).0 e in
        let there : lookup t.node_id m.can_nodes ≡ some node =
          subst (λ n. lookup n m.can_nodes ≡ some node) same h in
        rw
          (
            lookup-insert node_id t.node_id (set_value_of now field_id value node) m.can_nodes,
            e,
            there,
          )
          (value_at-insert now field_id t.field_id value node)
    | inr e ↦
        rw (lookup-insert node_id t.node_id (set_value_of now field_id value node) m.can_nodes, e)
  ]

  fields_of-set_value :
      (t : FieldType) (now field_id : ℕ) (value : CanDataValue w.F32) (node : CanNode w.F32)
      → fields_of t (set_value_of now field_id value node) ≡ fields_of t node
  fields_of-set_value telemetry now field_id value node = refl
  fields_of-set_value parameter now field_id value node = refl

  -- A value changes nothing of what a name resolves to.
  resolve-insert :
      (m : NodeManager w) (now node_id field_id : ℕ) (value : CanDataValue w.F32)
      (node : CanNode w.F32)
      → lookup node_id m.can_nodes ≡ some node
      → (name : String)
      → resolve_mapping_by_name w
          (record m {
            can_nodes = insert node_id (set_value_of now field_id value node) m.can_nodes;
          })
          name
        ≡ resolve_mapping_by_name w m name
  unfolding resolve_mapping_by_name resolve_mapping_target lookup_mapping
  resolve-insert m now node_id field_id value node there name = bind-agree _ _ _ λ found.
      ap (λ o. or_fail o (field_not_registered name) >>= λ target. ok (found, target))
        (find_map-insert (target_in w found) node_id node (set_value_of now field_id value node)
          m.can_nodes there
          (ap
            (λ fields.
              if node.registration_info.device_name == found.node_name
              then target_at node_id (find_field found.mapping_entry.raw_field fields)
              else none)
            (fields_of-set_value found.mapping_entry.field_type now field_id value node)))

  -- What the handler leaves behind if it succeeds.
  pub record Stores (m : NodeManager w) (id : CanMessageId) (res : FieldGetResPayload w)
      (after : NodeManager w) : Type 0 where
    pub node : CanNode w.F32
    pub info : FieldInfo
    pub value : CanDataValue w.F32
    pub registered : lookup id.sender_id m.can_nodes ≡ some node
    pub defined : field_info_of node res.field_id ≡ some info
    pub converted : w.convert_from_raw res.value info.data_type ≡ some value
    pub same_names :
        (name : String) → resolve_mapping_by_name w after name ≡ resolve_mapping_by_name w m name
    pub latest :
        (t : ResolvedMappingTarget)
        → latest_raw_value w after t ≡ (
            if id.sender_id == t.node_id && res.field_id == t.field_id
            then some value
            else latest_raw_value w m t)

  store_field-Stores :
      (m : NodeManager w) (now : ℕ) (id : CanMessageId) (res : FieldGetResPayload w)
      (node : CanNode w.F32) (info : FieldInfo) (o : Option (CanDataValue w.F32))
      → lookup id.sender_id m.can_nodes ≡ some node
      → field_info_of node res.field_id ≡ some info
      → w.convert_from_raw res.value info.data_type ≡ o
      → (store_field m now id.sender_id res.field_id node info o).result ≡ ok tt
      → Stores m id res (store_field m now id.sender_id res.field_id node info o).manager
  store_field-Stores m now id res node info none there f e h = absurd (ground arith)
  store_field-Stores m now id res node info (some value) there f e h = record {
    node = node;
    info = info;
    value = value;
    registered = there;
    defined = f;
    converted = e;
    same_names = resolve-insert m now id.sender_id res.field_id value node there;
    latest = λ t. latest-insert m now id.sender_id res.field_id value node t there;
  }

  on_field-Stores :
      (m : NodeManager w) (now : ℕ) (id : CanMessageId) (res : FieldGetResPayload w)
      (node : CanNode w.F32) (o : Option FieldInfo)
      → let act = λ (info : FieldInfo).
        store_field m now id.sender_id res.field_id node info
          (w.convert_from_raw res.value info.data_type) in
        lookup id.sender_id m.can_nodes ≡ some node
        → field_info_of node res.field_id ≡ o
        → (on_field m res.field_id o act).result ≡ ok tt
        → Stores m id res (on_field m res.field_id o act).manager
  on_field-Stores m now id res node none there f h = absurd (ground arith)
  on_field-Stores m now id res node (some info) there f h =
      store_field-Stores m now id res node info (w.convert_from_raw res.value info.data_type) there
        f refl h

  on_node-Stores :
      (m : NodeManager w) (now : ℕ) (id : CanMessageId) (res : FieldGetResPayload w)
      (o : Option (CanNode w.F32))
      → let act = λ (node : CanNode w.F32).
        on_field m res.field_id (field_info_of node res.field_id) λ (info : FieldInfo).
          store_field m now id.sender_id res.field_id node info
            (w.convert_from_raw res.value info.data_type) in
        lookup id.sender_id m.can_nodes ≡ o
        → (on_node m id.sender_id o act).result ≡ ok tt
        → Stores m id res (on_node m id.sender_id o act).manager
  on_node-Stores m now id res none there h = absurd (ground arith)
  on_node-Stores m now id res (some node) there h =
      on_field-Stores m now id res node (field_info_of node res.field_id) there refl h

  -- After a field response that was accepted, the latest raw value of that node's field is the
  -- response's value, converted to the field's type, and every other latest raw value is as before.
  pub handle_field_get_res-Stores :
      (m : NodeManager w) (now : ℕ) (id : CanMessageId) (res : FieldGetResPayload w)
      → (handle_field_get_res m now id res).result ≡ ok tt
      → Stores m id res (handle_field_get_res m now id res).manager
  unfolding handle_field_get_res
  handle_field_get_res-Stores m now id res h =
      on_node-Stores m now id res (lookup id.sender_id m.can_nodes) refl h
