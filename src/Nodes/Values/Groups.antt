-- ===== src/Nodes/Values/Groups.antt =====
-- The values that a node reports in a telemetry group are the values that are read.
use ferro_flow.Prelude.{
  ℕ, suc, ◌≡◌, ◌⊎◌, refl, ap, ◌∙◌, Bool, true, false, List, [], ◌∷◌, map, Option, none, some,
  or_else, Result, ok, err, ◌==◌, nat_eq, Bool-cases, inl, inr, arith, subst, length, if◌then◌else◌,
  ◌++◌, ◌>>=◌, or_fail, Option-cases,
}
use ferro_flow.Prelude.Assoc.{lookup, insert, lookup-insert}
use ferro_flow.Platform.{Platform, CanDataValue}
use ferro_flow.Messages.{CanMessageId, TelemetryGroupUpdatePayload}
use ferro_flow.Events.{Event}
use ferro_flow.Nodes.CanNode.{CanNode, FieldInfo, TelemetryGroupDefinition}
use ferro_flow.Nodes.Manager.{NodeManager, NodeError, Handled, group_not_defined}
use ferro_flow.Nodes.Manager.Handlers.{
  set_value_of, log_of, types_of, field_infos, group_fields, write_values, update_fields, on_node,
  handle_telemetry_group_update,
}
use ferro_flow.Nodes.Values.{ResolvedMappingTarget, value_at, latest_raw_value}
use ferro_flow.Nodes.Values.Updates.{value_at-insert}

ignored-err :
    {E A B : Type 0} (f : A → B) (r : Result E A) {e : E}
    → (r >>= λ a. ok (f a)) ≡ err e
    → (x : E) × (r ≡ err x)
ignored-err f (ok a) h = absurd (ground arith)
ignored-err f (err x) h = (x, refl)

pub record Reading (w : Platform) : Type 0 where
  pub field_id : ℕ
  pub info : FieldInfo
  pub value : CanDataValue w.F32

or_else_if :
    {A : Type 0} (o next : Option A) (b : Bool) (a : A)
    → or_else o (if b then some a else next) ≡ or_else (or_else o (if b then some a else none)) next
or_else_if none next true a = refl
or_else_if none next false a = refl
or_else_if (some x) next b a = refl

-- One of the fields is not there.
abbrev pub HasUnknown : List (ℕ × FieldInfo) → List ℕ → Type 0
HasUnknown fields ids =
    (before rest : List ℕ) × (id : ℕ) × (ids ≡ before ++ (id ∷ rest)) × (lookup id fields ≡ none)

field_infos-HasUnknown :
    (fields : List (ℕ × FieldInfo)) (ids : List ℕ) {e : NodeError}
    → field_infos fields ids ≡ err e
    → HasUnknown fields ids
unfolding field_infos
field_infos-HasUnknown fields [] h = absurd (ground arith)
field_infos-HasUnknown fields (id ∷ ids) h = elim (Option-cases (lookup id fields)) [
  | inl q ↦ ([], ids, id, refl, q)
  | inr (info, q) ↦
      let (x, f) = ignored-err _ (field_infos fields ids) (rw q at h) in
      let (before, rest, j, e, there) = field_infos-HasUnknown fields ids f in
      (id ∷ before, rest, j, ap (◌∷◌ id) e, there)
]

module _ (w : Platform) where
  -- The fields with their values, up to the first value that could not be unpacked.
  abbrev pub readings_of :
      List (ℕ × FieldInfo) → List (Option (CanDataValue w.F32)) → List (Reading w)
  readings_of [] values = []
  readings_of (f ∷ fields) [] = []
  readings_of (f ∷ fields) (none ∷ values) = []
  readings_of ((id, info) ∷ fields) (some value ∷ values) =
      record { field_id = id; info = info; value = value } ∷ readings_of fields values

  -- The last one of a field.
  abbrev pub last_value : ℕ → List (Reading w) → Option (CanDataValue w.F32)
  last_value id [] = none
  last_value id (r ∷ rs) =
      or_else (last_value id rs) (if r.field_id == id then some r.value else none)

  abbrev pub report : ℕ → ℕ → Reading w → Event w
  report now node_id r = log_of now node_id r.field_id r.info r.value

  module _ (now node_id : ℕ) where
    write_values-value :
        (fields : List (ℕ × FieldInfo)) (values : List (Option (CanDataValue w.F32)))
        (node : CanNode w.F32) (asked : ℕ)
        → value_at w asked (some (write_values {w = w} now node_id node fields values).node)
          ≡ or_else (last_value asked (readings_of fields values)) (value_at w asked (some node))
    unfolding write_values
    write_values-value [] values node asked = refl
    write_values-value (f ∷ fields) [] node asked = refl
    write_values-value (f ∷ fields) (none ∷ values) node asked = refl
    write_values-value ((id, info) ∷ fields) (some value ∷ values) node asked =
        write_values-value fields values (set_value_of now id value node) asked
        ∙ ap (or_else (last_value asked (readings_of fields values)))
            (value_at-insert w now id asked value node)
        ∙ or_else_if (last_value asked (readings_of fields values)) (value_at w asked (some node))
            (id == asked) value

    write_values-events :
        (fields : List (ℕ × FieldInfo)) (values : List (Option (CanDataValue w.F32)))
        (node : CanNode w.F32)
        → (write_values {w = w} now node_id node fields values).events
          ≡ map (report now node_id) (readings_of fields values)
    unfolding write_values
    write_values-events [] values node = refl
    write_values-events (f ∷ fields) [] node = refl
    write_values-events (f ∷ fields) (none ∷ values) node = refl
    write_values-events ((id, info) ∷ fields) (some value ∷ values) node =
        ap (◌∷◌ (log_of now node_id id info value))
          (write_values-events fields values (set_value_of now id value node))

    write_values-all :
        (fields : List (ℕ × FieldInfo)) (values : List (Option (CanDataValue w.F32)))
        (node : CanNode w.F32)
        → (write_values {w = w} now node_id node fields values).result ≡ ok tt
        → (length (readings_of fields values) ≡ length fields)
          ⊎ (length (readings_of fields values) ≡ length values)
    unfolding write_values
    write_values-all [] values node h = inl refl
    write_values-all (f ∷ fields) [] node h = inr refl
    write_values-all (f ∷ fields) (none ∷ values) node h = absurd (ground arith)
    write_values-all ((id, info) ∷ fields) (some value ∷ values) node h =
        elim (write_values-all fields values (set_value_of now id value node) h) [
          | inl e ↦ inl (ap suc e)
          | inr e ↦ inr (ap suc e)
        ]

  abbrev pub group_readings :
      TelemetryGroupUpdatePayload w → List (ℕ × FieldInfo) → List (Reading w)
  group_readings update fields = readings_of fields (w.unpack update.values (types_of fields))

  -- What an update leaves behind that finds its node, its group and the group's fields.
  pub record IsUpdate (m : NodeManager w) (now : ℕ) (id : CanMessageId)
      (update : TelemetryGroupUpdatePayload w) (after : Handled w) : Type 0 where
    pub node : CanNode w.F32
    pub fields : List (ℕ × FieldInfo)
    pub registered : lookup id.sender_id m.can_nodes ≡ some node
    pub grouped : group_fields node update.group_id ≡ ok fields
    pub latest :
        (t : ResolvedMappingTarget)
        → latest_raw_value w after.manager t ≡ (
            if id.sender_id == t.node_id
            then or_else
                (last_value t.field_id (group_readings update fields))
                (latest_raw_value w m t)
            else latest_raw_value w m t)
    pub reported : after.events ≡ map (report now id.sender_id) (group_readings update fields)
    pub complete :
        after.result ≡ ok tt
        → (length (group_readings update fields) ≡ length fields)
          ⊎ (length (group_readings update fields)
              ≡ length (w.unpack update.values (types_of fields)))

  latest-store :
      (m : NodeManager w) (node_id : ℕ) (node node' : CanNode w.F32) (t : ResolvedMappingTarget)
      (o : Option (CanDataValue w.F32))
      → lookup node_id m.can_nodes ≡ some node
      → value_at w t.field_id (some node') ≡ or_else o (value_at w t.field_id (some node))
      → latest_raw_value w (record m { can_nodes = insert node_id node' m.can_nodes }) t ≡ (
          if node_id == t.node_id
          then or_else o (latest_raw_value w m t)
          else latest_raw_value w m t)
  unfolding latest_raw_value
  latest-store m node_id node node' t o h q = elim (Bool-cases (node_id == t.node_id)) [
    | inl e ↦
        let there : lookup t.node_id m.can_nodes ≡ some node =
          subst (λ n. lookup n m.can_nodes ≡ some node) ((nat_eq.same_iff node_id t.node_id).0 e)
            h in
        rw (lookup-insert node_id t.node_id node' m.can_nodes, e, there) q
    | inr e ↦ rw (lookup-insert node_id t.node_id node' m.can_nodes, e)
  ]

  -- The group is not registered, or one of its fields is not.
  abbrev pub IsUnknown : CanNode w.F32 → ℕ → Type 0
  IsUnknown node group_id =
      (lookup group_id node.telemetry_groups ≡ none)
      ⊎ ((group : TelemetryGroupDefinition) × (lookup group_id node.telemetry_groups ≡ some group)
          × HasUnknown node.telemetry_fields group.fields)

  group_fields-IsUnknown :
      (node : CanNode w.F32) (group_id : ℕ) (o : Option TelemetryGroupDefinition) {e : NodeError}
      → lookup group_id node.telemetry_groups ≡ o
      → (or_fail o (group_not_defined group_id) >>= λ group.
          field_infos node.telemetry_fields group.fields)
        ≡ err e
      → IsUnknown node group_id
  group_fields-IsUnknown node group_id none q h = inl q
  group_fields-IsUnknown node group_id (some group) q h =
      inr (group, q, field_infos-HasUnknown node.telemetry_fields group.fields h)

  -- A refused update: its sender, its group or a field of the group is not registered.
  pub record IsRefused (m : NodeManager w) (id : CanMessageId)
      (update : TelemetryGroupUpdatePayload w) (after : Handled w) : Type 0 where
    pub reason :
        (lookup id.sender_id m.can_nodes ≡ none)
        ⊎ ((node : CanNode w.F32) × (lookup id.sender_id m.can_nodes ≡ some node)
            × IsUnknown node update.group_id)
    pub same : after.manager ≡ m
    pub silent : after.events ≡ []
    pub failed : after.result ≡ ok tt → ⊥

  update_fields-cases :
      (m : NodeManager w) (now : ℕ) (id : CanMessageId) (update : TelemetryGroupUpdatePayload w)
      (node : CanNode w.F32) (r : Result NodeError (List (ℕ × FieldInfo)))
      → lookup id.sender_id m.can_nodes ≡ some node
      → group_fields node update.group_id ≡ r
      → IsUpdate m now id update (update_fields m now id.sender_id node update.values r)
        ⊎ IsRefused m id update (update_fields m now id.sender_id node update.values r)
  update_fields-cases m now id update node (err e) there g = inr (record {
    reason = inr (
      node,
      there,
      group_fields-IsUnknown node update.group_id (lookup update.group_id node.telemetry_groups)
          refl g,
    );
    same = refl;
    silent = refl;
    failed = λ q. ground arith;
  })
  update_fields-cases m now id update node (ok fields) there g =
      let values = w.unpack update.values (types_of fields) in
      inl (record {
        node = node;
        fields = fields;
        registered = there;
        grouped = g;
        latest = λ t.
            latest-store m id.sender_id node _ t (last_value t.field_id (readings_of fields values))
              there (write_values-value now id.sender_id fields values node t.field_id);
        reported = write_values-events now id.sender_id fields values node;
        complete = write_values-all now id.sender_id fields values node;
      })

  on_node-cases :
      (m : NodeManager w) (now : ℕ) (id : CanMessageId) (update : TelemetryGroupUpdatePayload w)
      (o : Option (CanNode w.F32))
      → lookup id.sender_id m.can_nodes ≡ o
      → let after = on_node m id.sender_id o λ node.
        update_fields m now id.sender_id node update.values (group_fields node update.group_id) in
        IsUpdate m now id update after ⊎ IsRefused m id update after
  on_node-cases m now id update none there =
      inr (record { reason = inl there; same = refl; silent = refl; failed = λ q. ground arith })
  on_node-cases m now id update (some node) there =
      update_fields-cases m now id update node (group_fields node update.group_id) there refl

  -- A group update is refused, changes nothing and reports nothing only if its node is not
  -- registered, or its group, or a field of its group. Any other one has readings: the group's fields with their unpacked values, up to the
  -- first value that could not be unpacked; if the update is accepted, all its fields or all its
  -- values are read. For each reading one log is dispatched, in their order; the latest raw value
  -- of that node's field is its last reading, and every other latest raw value is as before.
  pub handle_telemetry_group_update-cases :
      (m : NodeManager w) (now : ℕ) (id : CanMessageId) (update : TelemetryGroupUpdatePayload w)
      → IsUpdate m now id update (handle_telemetry_group_update m now id update)
        ⊎ IsRefused m id update (handle_telemetry_group_update m now id update)
  unfolding handle_telemetry_group_update
  handle_telemetry_group_update-cases m now id update =
      on_node-cases m now id update (lookup id.sender_id m.can_nodes) refl
