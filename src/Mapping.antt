-- ===== src/Mapping.antt =====
-- The data of src/nodes/mapping.rs: the entries of the mapping files, by node. `F` is `f64`, `V`
-- the `toml::Value`s of the logical rules. A `BTreeMap` is its list of keys and values in key
-- order.
pub mod Ranges
pub mod Entry
pub mod Validation
pub mod Lookup
pub mod Directory
use ferro_flow.Prelude.{String, Bool, List}

pub data FieldType : Type 0 where
  telemetry parameter : FieldType

pub record ValueParams (F : Type 0) : Type 0 where
  pub slope : F
  pub offset : F
  pub unit : String

pub record LogicalRange (F : Type 0) : Type 0 where
  pub min : F
  pub max : F
  pub min_inclusive : Bool
  pub max_inclusive : Bool

pub record LogicalRule (F V : Type 0) : Type 0 where
  pub range : LogicalRange F
  pub value : V

pub record MappingEntry (F V : Type 0) : Type 0 where
  pub name : String
  pub field_type : FieldType
  pub raw_field : String
  pub value : ValueParams F
  pub logical : List (LogicalRule F V)

pub record Mapping (F V : Type 0) : Type 0 where
  pub mapping : List (String × List (MappingEntry F V))
