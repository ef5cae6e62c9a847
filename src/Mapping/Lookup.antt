-- ===== src/Mapping/Lookup.antt =====
-- The lookups of src/nodes/mapping.rs: by the mapped name over all nodes, and by node and raw
-- field.
pub mod Found
use ferro_flow.Prelude.{
  String, Bool, List, [], ◌∷◌, ◌++◌, map, Option, none, some, find, find_map, ◌==◌, string_eq,
}
use ferro_flow.Prelude.Assoc.{lookup}
use ferro_flow.Mapping.{Mapping, MappingEntry}

pub record MappingLookupResult (F V : Type 0) : Type 0 where
  pub node_name : String
  pub mapping_entry : MappingEntry F V

module _ {F V : Type 0} where
  abbrev pub result_at : String → Option (MappingEntry F V) → Option (MappingLookupResult F V)
  result_at node none = none
  result_at node (some entry) = some (record { node_name = node; mapping_entry = entry })

  abbrev pub name_in_node :
      String → String × List (MappingEntry F V) → Option (MappingLookupResult F V)
  name_in_node name (node, fields) =
      result_at node (find (λ (entry : MappingEntry F V). entry.name == name) fields)

  unfoldable pub get_mapping_for_name : Mapping F V → String → Option (MappingLookupResult F V)
  get_mapping_for_name m name = find_map (name_in_node name) m.mapping

  abbrev pub raw_in_node :
      String → String → Option (List (MappingEntry F V)) → Option (MappingLookupResult F V)
  raw_in_node node field none = none
  raw_in_node node field (some fields) =
      result_at node (find (λ (entry : MappingEntry F V). entry.raw_field == field) fields)

  unfoldable pub get_mapping_for_raw :
      Mapping F V → String → String → Option (MappingLookupResult F V)
  get_mapping_for_raw m node field = raw_in_node node field (lookup node m.mapping)
