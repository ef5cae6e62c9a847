-- ===== src/Sequence.antt =====
-- The data of src/sequence/sequence_definition.rs: a sequence of steps whose actions set parameters
-- or hold. Timestamps and values are `f64`s, the type `F`; the interval is a `Duration` in
-- nanoseconds.
pub mod Loading
pub mod Hold
pub mod Validation
pub mod Builder
pub mod Runner
use ferro_flow.Prelude.{ℕ, String, List, Option}

pub data InterpolationMode : Type 0 where
  none linear : InterpolationMode

pub data FieldComparison : Type 0 where
  equal not_eq less less_eq greater greater_eq : FieldComparison

pub record ParamState (F : Type 0) : Type 0 where
  pub param : String
  pub value : F

pub record HoldCondition (F : Type 0) : Type 0 where
  pub field : String
  pub comparison : FieldComparison
  pub value : F

pub data HoldMode (F : Type 0) : Type 0 where
  always : HoldMode F
  conditional : List (HoldCondition F) → HoldMode F

pub data Action (F : Type 0) : Type 0 where
  hold : HoldMode F → Action F
  set_param : ParamState F → Action F

pub record TimedAction (F : Type 0) : Type 0 where
  pub timestamp : F
  pub action : Action F

pub record Step (F : Type 0) : Type 0 where
  pub name : String
  pub description : Option String
  pub timestamp : F
  pub actions : List (TimedAction F)

pub record Globals (F : Type 0) : Type 0 where
  pub start_time : F
  pub end_time : F
  pub interpolation_interval : ℕ
  pub interpolations : List (String × InterpolationMode)

pub record Sequence (F : Type 0) : Type 0 where
  pub name : String
  pub globals : Globals F
  pub steps : List (Step F)
