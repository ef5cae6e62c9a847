-- ===== src/Nodes/Values.antt =====
-- Reading values in src/nodes/node_manager.rs: from a field name over the mapping to the node's
-- latest value. A name with a colon is a raw one, `node_name:raw_field_name`.
pub mod Resolution
pub mod Names
pub mod Reports
pub mod Updates
pub mod Groups
use ferro_flow.Prelude.{
  ℕ, String, Bool, true, false, not, List, [], ◌∷◌, Option, none, some, Result, ok, err, ◌>>=◌,
  or_fail, to_option, find, find_map, ◌==◌, string_eq, nat_eq, if◌then◌else◌,
}
use ferro_flow.Prelude.Text.{contains_char, split_once}
use ferro_flow.Prelude.Assoc.{lookup}
use ferro_flow.Numbers.{Double}
use ferro_flow.Platform.{Platform, CanDataType, CanDataValue}
use ferro_flow.Mapping.{MappingEntry, FieldType, telemetry, parameter}
use ferro_flow.Mapping.Entry.{ValueError, MappedValue, mapped_value, can_data_value_to_f64}
use ferro_flow.Mapping.Ranges.{logical_value}
use ferro_flow.Mapping.Lookup.{MappingLookupResult, get_mapping_for_name, get_mapping_for_raw}
use ferro_flow.Nodes.CanNode.{CanNode, FieldInfo}
use ferro_flow.Nodes.Manager.{NodeManager}

pub data AccessError : Type 0 where
  no_mapping field_not_registered not_writable : String → AccessError
  no_separator : AccessError
  value_error : ValueError → AccessError
  expected_number expected_integer expected_boolean integer_out_of_range : AccessError

pub record ResolvedMappingTarget : Type 0 where
  pub node_id : ℕ
  pub field_id : ℕ
  pub data_type : CanDataType

unfoldable pub is_mapped_name : String → Bool
is_mapped_name field_name = not (contains_char b':' field_name)

abbrev pub convert_error : {A : Type 0} → Result ValueError A → Result AccessError A
convert_error (ok a) = ok a
convert_error (err e) = err (value_error e)

abbrev pub find_field : String → List (ℕ × FieldInfo) → Option (ℕ × FieldInfo)
find_field name fields = find (λ (f : ℕ × FieldInfo). f.1.name == name) fields

abbrev pub fields_of : {S : Type 0} → FieldType → CanNode S → List (ℕ × FieldInfo)
fields_of telemetry node = node.telemetry_fields
fields_of parameter node = node.parameter_fields

abbrev pub target_at : ℕ → Option (ℕ × FieldInfo) → Option ResolvedMappingTarget
target_at node_id none = none
target_at node_id (some (id, info)) =
    some (record { node_id = node_id; field_id = id; data_type = info.data_type })

-- A value is stored with the time at which it came.
abbrev pub without_time : {A : Type 0} → Option (ℕ × A) → Option A
without_time none = none
without_time (some (at, value)) = some value

module _ (w : Platform) where
  open w use {F64, F32, TomlValue}

  abbrev pub Found : Type 0
  Found = MappingLookupResult F64 TomlValue

  abbrev pub target_in : Found → ℕ × CanNode F32 → Option ResolvedMappingTarget
  target_in found (node_id, node) =
      if node.registration_info.device_name == found.node_name
      then target_at node_id
          (find_field found.mapping_entry.raw_field (fields_of found.mapping_entry.field_type node))
      else none

  unfoldable pub resolve_mapping_target : NodeManager w → Found → Option ResolvedMappingTarget
  resolve_mapping_target m found = find_map (target_in found) m.can_nodes

  abbrev pub lookup_raw :
      NodeManager w → String → Option (String × String) → Result AccessError Found
  lookup_raw m field_name none = err no_separator
  lookup_raw m field_name (some (node_name, raw_field_name)) =
      or_fail (get_mapping_for_raw m.mapping node_name raw_field_name) (no_mapping field_name)

  -- `no_separator` stands for the panic of `split_once(':').unwrap()`.
  unfoldable pub lookup_mapping : NodeManager w → String → Result AccessError Found
  unfolding is_mapped_name
  lookup_mapping m field_name =
      if is_mapped_name field_name
      then or_fail (get_mapping_for_name m.mapping field_name) (no_mapping field_name)
      else lookup_raw m field_name (split_once b':' field_name)

  unfoldable pub resolve_mapping_by_name :
      NodeManager w → String → Result AccessError (Found × ResolvedMappingTarget)
  unfolding resolve_mapping_target lookup_mapping
  resolve_mapping_by_name m field_name = do
    found ← lookup_mapping m field_name
    target ← or_fail (resolve_mapping_target m found) (field_not_registered field_name)
    ok (found, target)

  abbrev pub value_at : ℕ → Option (CanNode F32) → Option (CanDataValue F32)
  value_at field_id none = none
  value_at field_id (some node) = without_time (lookup field_id node.values)

  unfoldable pub latest_raw_value :
      NodeManager w → ResolvedMappingTarget → Option (CanDataValue F32)
  latest_raw_value m target = value_at target.field_id (lookup target.node_id m.can_nodes)

  unfoldable pub try_get_raw_value :
      NodeManager w → String → Result AccessError (Option (CanDataValue F32))
  unfolding resolve_mapping_by_name latest_raw_value
  try_get_raw_value m field_name = do
    found ← resolve_mapping_by_name m field_name
    ok (latest_raw_value m found.1)

  -- A value is converted if it is there.
  abbrev pub on_value :
      {A : Type 0}
      → Option (CanDataValue F32)
      → (CanDataValue F32 → Result ValueError A)
      → Result AccessError (Option A)
  on_value none f = ok none
  on_value (some v) f = do a ← convert_error (f v); ok (some a)

  unfoldable pub try_get_mapped_value :
      NodeManager w → String → Result AccessError (Option (MappedValue F64))
  unfolding resolve_mapping_by_name latest_raw_value
  try_get_mapped_value m field_name = do
    found ← resolve_mapping_by_name m field_name
    on_value (latest_raw_value m found.1) (mapped_value w found.0.mapping_entry)

  -- "a converted raw value has no unit"
  abbrev pub without_unit : CanDataValue F32 → Result ValueError (MappedValue F64)
  without_unit v = do n ← can_data_value_to_f64 w v; ok (record { value = n; unit = "" })

  unfoldable pub try_get_value :
      NodeManager w → String → Result AccessError (Option (MappedValue F64))
  unfolding is_mapped_name try_get_mapped_value try_get_raw_value
  try_get_value m field_name =
      if is_mapped_name field_name
      then try_get_mapped_value m field_name
      else (try_get_raw_value m field_name >>= λ v. on_value v without_unit)

  abbrev flatten : {A : Type 0} → Option (Option A) → Option A
  flatten none = none
  flatten (some o) = o

  unfoldable pub get_value : NodeManager w → String → Option (MappedValue F64)
  get_value m field_name = flatten (to_option (try_get_value m field_name))

  unfoldable pub get_raw_value : NodeManager w → String → Option (CanDataValue F32)
  get_raw_value m field_name = flatten (to_option (try_get_raw_value m field_name))

  unfoldable pub get_mapped_value : NodeManager w → String → Option (MappedValue F64)
  get_mapped_value m field_name = flatten (to_option (try_get_mapped_value m field_name))

  abbrev pub logical_of :
      Result AccessError Found → Option (MappedValue F64) → Result AccessError (Option TomlValue)
  logical_of found none = ok none
  logical_of (err e) (some v) = err e
  logical_of (ok found) (some v) = ok (logical_value ⦃d = w.double⦄ found.mapping_entry v.value)

  unfoldable pub try_get_logical_value :
      NodeManager w → String → Result AccessError (Option TomlValue)
  try_get_logical_value m field_name = do
    mapped ← try_get_mapped_value m field_name
    logical_of (lookup_mapping m field_name) mapped

  unfoldable pub get_logical_value : NodeManager w → String → Option TomlValue
  get_logical_value m field_name = flatten (to_option (try_get_logical_value m field_name))
