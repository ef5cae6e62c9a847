-- ===== src/Platform.antt =====
-- What the node manager takes from outside the repository: the number types, `serde_json`, and the
-- LiquidCAN crate (a git submodule). The variants and fields are those that the source names; all
-- else is a parameter, the record `Platform`.
pub mod Sample
use ferro_flow.Prelude.{ℕ, String, Bool, List, Option, ℤ}
use ferro_flow.Numbers.{Double}

pub data CanDataType : Type 0 where
  float32 int32 int16 int8 uint32 uint16 uint8 boolean : CanDataType

-- The constructors of `CanDataValue`; `S` is `f32`.
pub data CanDataValue (S : Type 0) : Type 0 where
  float32 : S → CanDataValue S
  int32 int16 int8 : ℤ → CanDataValue S
  uint32 uint16 uint8 : ℕ → CanDataValue S
  boolean : Bool → CanDataValue S
  raw : List ℕ → CanDataValue S

-- `serde_json::Value`: the variants that the source matches on, and the others, `R`.
pub data Json (N R : Type 0) : Type 0 where
  bool : Bool → Json N R
  number : N → Json N R
  rest : R → Json N R

pub record Platform : Type 1 where
  pub F64 : Type 0
  pub F32 : Type 0
  pub Number : Type 0  -- serde_json::Number
  pub JsonRest : Type 0
  pub TomlValue : Type 0
  pub Packed : Type 0  -- the packed values of a telemetry group
  pub Frame : Type 0  -- a CAN frame
  pub OtherMessage : Type 0  -- the messages that the source does not name
  pub double : Double F64
  pub widen : F32 → F64  -- `as f64`
  pub narrow : F64 → F32  -- `as f32`
  pub as_f64 : Number → Option F64
  pub as_i64 : Number → Option ℤ
  pub json_of_f32 : F32 → Json Number JsonRest
  pub json_of_f64 : F64 → Json Number JsonRest
  pub json_of_ℤ : ℤ → Json Number JsonRest
  pub json_of_list : List ℕ → Json Number JsonRest
  pub unpack : Packed → List CanDataType → List (Option (CanDataValue F32))
  pub convert_from_raw : CanDataValue F32 → CanDataType → Option (CanDataValue F32)
