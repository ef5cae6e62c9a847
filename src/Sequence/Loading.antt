-- ===== src/Sequence/Loading.antt =====
-- Deserializing and loading in src/sequence/sequence_definition.rs. serde's parse of the file is
-- not modelled: what it hands over are the raw forms below.
pub mod Checked
use ferro_flow.Prelude.{
  ℕ, ◌+◌, String, Bool, not, List, [], ◌∷◌, map, Option, none, some, Result, ok, err, ◌>>=◌, ◌>>◌,
  ensure, or_fail, if◌then◌else◌,
}
use ferro_flow.Prelude.Text.{eq_ignore_ascii_case}
use ferro_flow.Numbers.{Double}
use ferro_flow.Sequence.{
  Sequence, Step, TimedAction, Action, HoldMode, HoldCondition, ParamState, hold, set_param,
}
use ferro_flow.Sequence.Validation.{ValidationError, validate}

pub data LoadError : Type 0 where
  infinite_or_nan negative_duration duration_panic hold_or_set_params not_deserialized : LoadError
  unknown_variant : String → LoadError
  invalid : ValidationError → LoadError

pub record RawParamState (F : Type 0) : Type 0 where
  pub relative_timestamp : F
  pub param : String
  pub value : F

pub data RawHoldMode (F : Type 0) : Type 0 where
  always : String → RawHoldMode F
  conditional : List (HoldCondition F) → RawHoldMode F

pub record RawStep (F : Type 0) : Type 0 where
  pub name : String
  pub description : Option String
  pub timestamp : F
  pub set_params : Option (List (RawParamState F))
  pub hold : Option (HoldMode F)

module _ {F : Type 0} ⦃d : Double F⦄ where
  -- A number of seconds; `duration_panic` where `Duration::from_secs_f64` panics on the overflow.
  unfoldable pub duration_from_f64 : F → Result LoadError ℕ
  duration_from_f64 secs = do
    ensure (d.is_finite secs) infinite_or_nan
    ensure (not (d.is_sign_negative secs)) negative_duration
    or_fail (d.duration_from_secs secs) duration_panic

  unfoldable pub deserialize_hold_mode : RawHoldMode F → Result LoadError (HoldMode F)
  deserialize_hold_mode (RawHoldMode.always s) =
      if eq_ignore_ascii_case s "always" then ok HoldMode.always else err (unknown_variant s)
  deserialize_hold_mode (RawHoldMode.conditional c) = ok (HoldMode.conditional c)

  -- "offset relative timestamps to global timestamps"
  abbrev pub absolute : F → RawParamState F → TimedAction F
  absolute start p = record {
    timestamp = d.add start p.relative_timestamp;
    action = set_param (record { param = p.param; value = p.value });
  }

  unfoldable pub step_actions :
      F
      → Option (HoldMode F)
      → Option (List (RawParamState F))
      → Result LoadError (List (TimedAction F))
  step_actions start (some mode) none = ok (record { timestamp = start; action = hold mode } ∷ [])
  step_actions start none (some params) = ok (map (absolute start) params)
  step_actions start (some mode) (some params) = err hold_or_set_params
  step_actions start none none = err hold_or_set_params

  unfoldable pub deserialize_step : RawStep F → Result LoadError (Step F)
  unfolding step_actions
  deserialize_step raw = do
    actions ← step_actions raw.timestamp raw.hold raw.set_params
    ok (record {
      name = raw.name;
      description = raw.description;
      timestamp = raw.timestamp;
      actions = actions;
    })

  abbrev checked : Result ValidationError (Unit {0}) → Sequence F → Result LoadError (Sequence F)
  checked (ok u) seq = ok seq
  checked (err e) seq = err (invalid e)

  -- `none` is a file that `config` does not read or deserialize.
  unfoldable pub load_from_path : Option (Sequence F) → Result LoadError (Sequence F)
  load_from_path file = do seq ← or_fail file not_deserialized; checked (validate seq) seq
