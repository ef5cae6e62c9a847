-- ===== src/Mapping/Entry.antt =====
-- The value conversions of src/nodes/mapping.rs: a raw CAN value to a mapped number and back.
pub mod Types
pub mod Roundtrip
use ferro_flow.Prelude.{
  ℕ, ◌-◌, String, Bool, true, false, not, ◌&&◌, Result, ok, err, ◌>>=◌, ◌>>◌, ensure, ℤ, pos,
  negsuc, pos_part, leb_ℤ, if◌then◌else◌,
}
use ferro_flow.Numbers.{Double, le, lt, eq}
use ferro_flow.Platform.{Platform, CanDataType, CanDataValue}
use ferro_flow.Mapping.{MappingEntry}

pub data ValueError : Type 0 where
  not_decoded mapped_not_finite zero_slope raw_not_finite not_boolean not_integer out_of_range :
      ValueError

pub record MappedValue (F : Type 0) : Type 0 where
  pub value : F
  pub unit : String

-- `T::try_from` of an integer: the types by half their size, or their size.
abbrev pub fits_signed : ℕ → ℤ → Bool
fits_signed half n = leb_ℤ (negsuc (half - 1)) n && leb_ℤ n (pos (half - 1))

abbrev pub fits_unsigned : ℕ → ℤ → Bool
fits_unsigned size n = leb_ℤ (pos 0) n && leb_ℤ n (pos (size - 1))

-- Results mapped over, `Ok(C(f(x)?))`.
abbrev pub wrap : {E A B : Type 0} → (A → B) → Result E A → Result E B
wrap f (ok a) = ok (f a)
wrap f (err e) = err e

module _ (w : Platform) where
  open w use {F64, F32, widen, narrow}

  instance abbrev pub d : Double F64
  d = w.double

  unfoldable pub can_data_value_to_f64 : CanDataValue F32 → Result ValueError F64
  can_data_value_to_f64 (CanDataValue.float32 v) = ok (widen v)
  can_data_value_to_f64 (CanDataValue.int32 n) = ok (d.of_ℤ n)
  can_data_value_to_f64 (CanDataValue.int16 n) = ok (d.of_ℤ n)
  can_data_value_to_f64 (CanDataValue.int8 n) = ok (d.of_ℤ n)
  can_data_value_to_f64 (CanDataValue.uint32 n) = ok (d.of_ℤ (pos n))
  can_data_value_to_f64 (CanDataValue.uint16 n) = ok (d.of_ℤ (pos n))
  can_data_value_to_f64 (CanDataValue.uint8 n) = ok (d.of_ℤ (pos n))
  can_data_value_to_f64 (CanDataValue.boolean b) = ok (if b then d.one else d.nought)
  can_data_value_to_f64 (CanDataValue.raw bytes) = err not_decoded

  unfoldable pub checked_integer : (ℤ → Bool) → F64 → Result ValueError ℤ
  checked_integer fits value = do
    let rounded = d.round value
    ensure (d.le (d.abs (d.sub value rounded)) d.nano) not_integer
    ensure (fits (d.to_i128 rounded)) out_of_range
    ok (d.to_i128 rounded)

  unfoldable pub boolean_from_f64 : F64 → Result ValueError (CanDataValue F32)
  boolean_from_f64 value =
      if lt (d.abs (d.sub value d.nought)) d.epsilon
      then ok (CanDataValue.boolean false)
      else if lt (d.abs (d.sub value d.one)) d.epsilon
      then ok (CanDataValue.boolean true)
      else err not_boolean

  unfoldable pub typed_value : F64 → CanDataType → Result ValueError (CanDataValue F32)
  unfolding checked_integer boolean_from_f64
  typed_value value CanDataType.float32 = ok (CanDataValue.float32 (narrow value))
  typed_value value CanDataType.int32 =
      wrap CanDataValue.int32 (checked_integer (fits_signed 0x8000_0000) value)
  typed_value value CanDataType.int16 =
      wrap CanDataValue.int16 (checked_integer (fits_signed 0x8000) value)
  typed_value value CanDataType.int8 =
      wrap CanDataValue.int8 (checked_integer (fits_signed 0x80) value)
  typed_value value CanDataType.uint32 =
      wrap (λ n. CanDataValue.uint32 (pos_part n))
        (checked_integer (fits_unsigned 0x1_0000_0000) value)
  typed_value value CanDataType.uint16 =
      wrap (λ n. CanDataValue.uint16 (pos_part n)) (checked_integer (fits_unsigned 0x1_0000) value)
  typed_value value CanDataType.uint8 =
      wrap (λ n. CanDataValue.uint8 (pos_part n)) (checked_integer (fits_unsigned 0x100) value)
  typed_value value CanDataType.boolean = boolean_from_f64 value

  unfoldable pub can_data_value_from_f64 : F64 → CanDataType → Result ValueError (CanDataValue F32)
  unfolding typed_value
  can_data_value_from_f64 value data_type = do
    ensure (d.is_finite value) raw_not_finite
    typed_value value data_type

  module _ {V : Type 0} where
    -- `mapped = raw * slope + offset`
    unfoldable pub mapped_value :
        MappingEntry F64 V → CanDataValue F32 → Result ValueError (MappedValue F64)
    mapped_value entry raw_value = do
      n ← can_data_value_to_f64 raw_value
      ok (record {
        value = d.add (d.mul n entry.value.slope) entry.value.offset;
        unit = entry.value.unit;
      })

    unfoldable pub raw_value_from_mapped :
        MappingEntry F64 V → F64 → CanDataType → Result ValueError (CanDataValue F32)
    unfolding can_data_value_from_f64
    raw_value_from_mapped entry mapped data_type = do
      ensure (d.is_finite mapped) mapped_not_finite
      ensure (not (eq entry.value.slope d.nought)) zero_slope
      can_data_value_from_f64 (d.div (d.sub mapped entry.value.offset) entry.value.slope) data_type
