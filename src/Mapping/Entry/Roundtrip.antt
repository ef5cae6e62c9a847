-- ===== src/Mapping/Entry/Roundtrip.antt =====
-- A raw value that is mapped and written back is the value again, where the arithmetic is exact.
use ferro_flow.Prelude.{
  ℕ, ◌^◌, ◌<◌, ◌≤◌, ◌≡◌, refl, ap, subst, Bool, true, false, ok, ℤ, pos, negsuc, pos_part, arith,
}
use ferro_flow.Numbers.{le, lt, eq}
use ferro_flow.Platform.{Platform, CanDataType, CanDataValue}
use ferro_flow.Mapping.{MappingEntry}
use ferro_flow.Mapping.Entry.{
  MappedValue, fits_signed, fits_unsigned, wrap, checked_integer, can_data_value_to_f64,
  boolean_from_f64, typed_value, can_data_value_from_f64, mapped_value, raw_value_from_mapped,
}
use ferro_flow.Mapping.Entry.Types.{HasType, IsSigned, ok-injective}

-- What the conversions rely on: an `f64` holds each integer below 2^53 and each `f32` exactly, and
-- tells 0 from 1.
pub record HoldsIntegers (w : Platform) : Type 0 where
  pub of_ℤ_finite : (n : ℤ) → IsSigned (2 ^ 53) n → w.double.is_finite (w.double.of_ℤ n) ≡ true
  pub round_of_ℤ :
      (n : ℤ) → IsSigned (2 ^ 53) n → w.double.round (w.double.of_ℤ n) ≡ w.double.of_ℤ n
  pub to_of_ℤ : (n : ℤ) → IsSigned (2 ^ 53) n → w.double.to_i128 (w.double.of_ℤ n) ≡ n
  pub sub_self :
      (n : ℤ)
      → IsSigned (2 ^ 53) n
      → w.double.le (w.double.abs (w.double.sub (w.double.of_ℤ n) (w.double.of_ℤ n))) w.double.nano
        ≡ true
  pub narrow_widen : (x : w.F32) → w.narrow (w.widen x) ≡ x
  pub nought_is_nought :
      lt ⦃d = w.double⦄
        (w.double.abs (w.double.sub w.double.nought w.double.nought))
        w.double.epsilon
      ≡ true
  pub one_is_not_nought :
      lt ⦃d = w.double⦄ (w.double.abs (w.double.sub w.double.one w.double.nought)) w.double.epsilon
      ≡ false
  pub one_is_one :
      lt ⦃d = w.double⦄ (w.double.abs (w.double.sub w.double.one w.double.one)) w.double.epsilon
      ≡ true

fits_of_IsSigned : (half : ℕ) (n : ℤ) → 0 < half → IsSigned half n → fits_signed half n ≡ true
fits_of_IsSigned half (pos n) p h = ground arith
fits_of_IsSigned half (negsuc n) p h = ground arith

fits_of_lt : (size n : ℕ) → n < size → fits_unsigned size (pos n) ≡ true
fits_of_lt size n h = ground arith

IsSigned-mono : (a b : ℕ) (n : ℤ) → a ≤ b → IsSigned a n → IsSigned b n
IsSigned-mono a b n le h = omega arith

module _ (w : Platform) (exact : HoldsIntegers w) where
  checked_integer-of_ℤ :
      (fits : ℤ → Bool) (n : ℤ)
      → IsSigned (2 ^ 53) n
      → fits n ≡ true
      → checked_integer w fits (w.double.of_ℤ n) ≡ ok n
  unfolding checked_integer
  checked_integer-of_ℤ fits n small f =
      rw (exact.round_of_ℤ n small, exact.sub_self n small, exact.to_of_ℤ n small, f)

  wrapped-of_ℤ :
      {B : Type 0} (make : ℤ → B) (fits : ℤ → Bool) (n : ℤ)
      → IsSigned (2 ^ 53) n
      → fits n ≡ true
      → wrap make (checked_integer w fits (w.double.of_ℤ n)) ≡ ok (make n)
  wrapped-of_ℤ make fits n small f = ap (wrap make) (checked_integer-of_ℤ fits n small f)

  signed-of_ℤ :
      {B : Type 0} (make : ℤ → B) (half : ℕ) (n : ℤ)
      → 0 < half
      → half ≤ 2 ^ 53
      → IsSigned half n
      → wrap make (checked_integer w (fits_signed half) (w.double.of_ℤ n)) ≡ ok (make n)
  signed-of_ℤ make half n p small h =
      wrapped-of_ℤ make (fits_signed half) n (IsSigned-mono half (2 ^ 53) n small h)
        (fits_of_IsSigned half n p h)

  unsigned-of_ℤ :
      {B : Type 0} (make : ℤ → B) (size n : ℕ)
      → size ≤ 2 ^ 53
      → n < size
      → wrap make (checked_integer w (fits_unsigned size) (w.double.of_ℤ (pos n)))
        ≡ ok (make (pos n))
  unsigned-of_ℤ make size n small h =
      wrapped-of_ℤ make (fits_unsigned size) (pos n) (omega arith, omega arith)
        (fits_of_lt size n h)

  abbrev Back : CanDataType → CanDataValue w.F32 → w.F64 → Type 0
  Back t v x = typed_value w x t ≡ ok v

  -- The conversion back, on the number that the value stands for.
  typed_value-can_data_value_to_f64 :
      (v : CanDataValue w.F32) (t : CanDataType) (x : w.F64)
      → HasType v t
      → can_data_value_to_f64 w v ≡ ok x
      → typed_value w x t ≡ ok v
  unfolding typed_value can_data_value_to_f64 boolean_from_f64
  typed_value-can_data_value_to_f64 (CanDataValue.float32 v) CanDataType.float32 x h e =
      subst (Back CanDataType.float32 (CanDataValue.float32 v)) (ok-injective e)
        (ap (λ y. ok (CanDataValue.float32 y)) (exact.narrow_widen v))
  typed_value-can_data_value_to_f64 (CanDataValue.int32 n) CanDataType.int32 x h e =
      subst (Back CanDataType.int32 (CanDataValue.int32 n)) (ok-injective e)
        (signed-of_ℤ CanDataValue.int32 0x8000_0000 n (omega arith) (omega arith) h)
  typed_value-can_data_value_to_f64 (CanDataValue.int16 n) CanDataType.int16 x h e =
      subst (Back CanDataType.int16 (CanDataValue.int16 n)) (ok-injective e)
        (signed-of_ℤ CanDataValue.int16 0x8000 n (omega arith) (omega arith) h)
  typed_value-can_data_value_to_f64 (CanDataValue.int8 n) CanDataType.int8 x h e =
      subst (Back CanDataType.int8 (CanDataValue.int8 n)) (ok-injective e)
        (signed-of_ℤ CanDataValue.int8 0x80 n (omega arith) (omega arith) h)
  typed_value-can_data_value_to_f64 (CanDataValue.uint32 n) CanDataType.uint32 x h e =
      subst (Back CanDataType.uint32 (CanDataValue.uint32 n)) (ok-injective e)
        (unsigned-of_ℤ (λ i. CanDataValue.uint32 (pos_part i)) 0x1_0000_0000 n (omega arith) h)
  typed_value-can_data_value_to_f64 (CanDataValue.uint16 n) CanDataType.uint16 x h e =
      subst (Back CanDataType.uint16 (CanDataValue.uint16 n)) (ok-injective e)
        (unsigned-of_ℤ (λ i. CanDataValue.uint16 (pos_part i)) 0x1_0000 n (omega arith) h)
  typed_value-can_data_value_to_f64 (CanDataValue.uint8 n) CanDataType.uint8 x h e =
      subst (Back CanDataType.uint8 (CanDataValue.uint8 n)) (ok-injective e)
        (unsigned-of_ℤ (λ i. CanDataValue.uint8 (pos_part i)) 0x100 n (omega arith) h)
  typed_value-can_data_value_to_f64 (CanDataValue.boolean true) CanDataType.boolean x h e =
      subst (Back CanDataType.boolean (CanDataValue.boolean true)) (ok-injective e)
        (rw (exact.one_is_not_nought, exact.one_is_one))
  typed_value-can_data_value_to_f64 (CanDataValue.boolean false) CanDataType.boolean x h e =
      subst (Back CanDataType.boolean (CanDataValue.boolean false)) (ok-injective e)
        (rw exact.nought_is_nought)
  typed_value-can_data_value_to_f64 _ _ x h e = absurd h

  -- Where the arithmetic of the entry is exact at the value's number.
  pub record IsExactAt {V : Type 0} (entry : MappingEntry w.F64 V) (x : w.F64) : Type 0 where
    pub slope : eq ⦃d = w.double⦄ entry.value.slope w.double.nought ≡ false
    pub raw_finite : w.double.is_finite x ≡ true
    pub mapped_finite :
        w.double.is_finite (w.double.add (w.double.mul x entry.value.slope) entry.value.offset)
        ≡ true
    pub undone :
        w.double.div
          (w.double.sub
            (w.double.add (w.double.mul x entry.value.slope) entry.value.offset)
            entry.value.offset)
          entry.value.slope
        ≡ x

  -- Let `f64` hold the integers below 2^53 and every `f32`, and tell 0 from 1. A raw value of the
  -- registered type, mapped by an entry with a slope that is not zero and exact arithmetic at the
  -- value, comes back as the same raw value when the mapped value is written.
  pub raw_value_from_mapped-mapped_value :
      {V : Type 0} (entry : MappingEntry w.F64 V) (v : CanDataValue w.F32) (t : CanDataType)
      (x : w.F64)
      → HasType v t
      → can_data_value_to_f64 w v ≡ ok x
      → IsExactAt entry x
      → (mapped : MappedValue w.F64) × (mapped_value w entry v ≡ ok mapped)
        × (mapped.unit ≡ entry.value.unit)
        × (raw_value_from_mapped w entry mapped.value t ≡ ok v)
  unfolding mapped_value raw_value_from_mapped can_data_value_from_f64
  raw_value_from_mapped-mapped_value entry v t x h e at_x = (
    record {
      value = w.double.add (w.double.mul x entry.value.slope) entry.value.offset;
      unit = entry.value.unit;
    },
    rw e,
    refl,
    rw (at_x.mapped_finite, at_x.slope, at_x.undone, at_x.raw_finite)
        (typed_value-can_data_value_to_f64 v t x h e),
  )
