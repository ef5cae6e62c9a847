-- ===== src/Mapping/Entry/Types.antt =====
-- A value that is written has the type that the node registered, and lies in its range.
use ferro_flow.Prelude.{
  ℕ, ◌<◌, ◌≤◌, ◌≡◌, refl, Bool, true, false, Result, ok, err, ℤ, pos, negsuc, pos_part, neg_part,
  arith, subst, ◌⊎◌, inl, inr,
}
use ferro_flow.Numbers.{Double, eq}
use ferro_flow.Platform.{Platform, CanDataType, CanDataValue}
use ferro_flow.Mapping.{MappingEntry}
use ferro_flow.Mapping.Entry.{
  mapped_not_finite, zero_slope, fits_signed, fits_unsigned, wrap, checked_integer,
  boolean_from_f64, typed_value, can_data_value_from_f64, raw_value_from_mapped,
}

abbrev pub IsSigned : ℕ → ℤ → Type 0
IsSigned half n = (neg_part n ≤ half) × (pos_part n < half)

-- A value has its data type, and fits it.
abbrev pub HasType : {S : Type 0} → CanDataValue S → CanDataType → Type 0
HasType (CanDataValue.float32 v) CanDataType.float32 = Unit
HasType (CanDataValue.int32 n) CanDataType.int32 = IsSigned 0x8000_0000 n
HasType (CanDataValue.int16 n) CanDataType.int16 = IsSigned 0x8000 n
HasType (CanDataValue.int8 n) CanDataType.int8 = IsSigned 0x80 n
HasType (CanDataValue.uint32 n) CanDataType.uint32 = n < 0x1_0000_0000
HasType (CanDataValue.uint16 n) CanDataType.uint16 = n < 0x1_0000
HasType (CanDataValue.uint8 n) CanDataType.uint8 = n < 0x100
HasType (CanDataValue.boolean b) CanDataType.boolean = Unit
HasType _ _ = ⊥

pub fits_signed-IsSigned :
    (half : ℕ) (n : ℤ) → 0 < half → fits_signed half n ≡ true → IsSigned half n
fits_signed-IsSigned half (pos n) p h = ground arith
fits_signed-IsSigned half (negsuc n) p h = ground arith

pub fits_unsigned-lt :
    (size : ℕ) (n : ℤ) → 0 < size → fits_unsigned size n ≡ true → pos_part n < size
fits_unsigned-lt size (pos n) p h = ground arith
fits_unsigned-lt size (negsuc n) p h = ground arith

pub ok-injective : {E A : Type 0} {a b : A} → ◌≡◌ {A = Result E A} (ok a) (ok b) → a ≡ b
ok-injective h = ground arith

pub wrap-eq-ok :
    {E A B : Type 0} (f : A → B) (r : Result E A) {b : B}
    → wrap f r ≡ ok b
    → (a : A) × (r ≡ ok a) × (b ≡ f a)
wrap-eq-ok f (ok a) h = (a, refl, ground arith)
wrap-eq-ok f (err e) h = absurd (ground arith)

-- From a checked integer to the type of the value made of it.
pub wrap-HasType :
    {E S : Type 0} (fits : ℤ → Bool) (make : ℤ → CanDataValue S) (t : CanDataType) (r : Result E ℤ)
    {v : CanDataValue S}
    → ((n : ℤ) → r ≡ ok n → fits n ≡ true)
    → ((n : ℤ) → fits n ≡ true → HasType (make n) t)
    → wrap make r ≡ ok v
    → HasType v t
wrap-HasType fits make t r checks makes h =
    let (n, e, q) = wrap-eq-ok make r h in rw q (makes n (checks n e))

module _ (w : Platform) where
  open w use {F64, F32}

  instance abbrev d : Double F64
  d = w.double

  checked_integer-fits :
      (fits : ℤ → Bool) (value : F64) (n : ℤ) → checked_integer w fits value ≡ ok n → fits n ≡ true
  unfolding checked_integer
  checked_integer-fits fits value n h = ground arith

  signed-HasType :
      (half : ℕ) (make : ℤ → CanDataValue F32) (t : CanDataType) (value : F64)
      {v : CanDataValue F32}
      → 0 < half
      → ((n : ℤ) → IsSigned half n → HasType (make n) t)
      → wrap make (checked_integer w (fits_signed half) value) ≡ ok v
      → HasType v t
  signed-HasType half make t value p makes h =
      wrap-HasType (fits_signed half) make t _ (checked_integer-fits (fits_signed half) value)
        (λ n f. makes n (fits_signed-IsSigned half n p f)) h

  unsigned-HasType :
      (size : ℕ) (make : ℤ → CanDataValue F32) (t : CanDataType) (value : F64)
      {v : CanDataValue F32}
      → 0 < size
      → ((n : ℤ) → pos_part n < size → HasType (make n) t)
      → wrap make (checked_integer w (fits_unsigned size) value) ≡ ok v
      → HasType v t
  unsigned-HasType size make t value p makes h =
      wrap-HasType (fits_unsigned size) make t _ (checked_integer-fits (fits_unsigned size) value)
        (λ n f. makes n (fits_unsigned-lt size n p f)) h

  boolean_from_f64-eq-ok :
      (value : F64) {v : CanDataValue F32}
      → boolean_from_f64 w value ≡ ok v
      → (v ≡ CanDataValue.boolean true) ⊎ (v ≡ CanDataValue.boolean false)
  unfolding boolean_from_f64
  boolean_from_f64-eq-ok value h = ground arith

  abbrev Has : CanDataType → CanDataValue F32 → Type 0
  Has t v = HasType v t

  typed_value-HasType :
      (value : F64) (t : CanDataType) {v : CanDataValue F32}
      → typed_value w value t ≡ ok v
      → HasType v t
  unfolding typed_value
  typed_value-HasType value CanDataType.float32 h =
      subst (Has CanDataType.float32) (ok-injective h) tt
  typed_value-HasType value CanDataType.int32 h =
      signed-HasType 0x8000_0000 CanDataValue.int32 _ value (omega arith) (λ n f. f) h
  typed_value-HasType value CanDataType.int16 h =
      signed-HasType 0x8000 CanDataValue.int16 _ value (omega arith) (λ n f. f) h
  typed_value-HasType value CanDataType.int8 h =
      signed-HasType 0x80 CanDataValue.int8 _ value (omega arith) (λ n f. f) h
  typed_value-HasType value CanDataType.uint32 h =
      unsigned-HasType 0x1_0000_0000 _ _ value (omega arith) (λ n f. f) h
  typed_value-HasType value CanDataType.uint16 h =
      unsigned-HasType 0x1_0000 _ _ value (omega arith) (λ n f. f) h
  typed_value-HasType value CanDataType.uint8 h =
      unsigned-HasType 0x100 _ _ value (omega arith) (λ n f. f) h
  typed_value-HasType value CanDataType.boolean h = elim (boolean_from_f64-eq-ok value h) [
    | inl e ↦ rw e tt
    | inr e ↦ rw e tt
  ]

  -- A mapped value that is written back comes out as a value of the requested data type, in the
  -- range of that type. The write is refused if the value is no finite number, or the slope is
  -- zero.
  pub raw_value_from_mapped-HasType :
      {V : Type 0} (entry : MappingEntry F64 V) (mapped : F64) (t : CanDataType)
      → ((v : CanDataValue F32) → raw_value_from_mapped w entry mapped t ≡ ok v → HasType v t)
        × (w.double.is_finite mapped ≡ false
            → raw_value_from_mapped w entry mapped t ≡ err mapped_not_finite)
        × (w.double.is_finite mapped ≡ true
            → eq entry.value.slope w.double.nought ≡ true
            → raw_value_from_mapped w entry mapped t ≡ err zero_slope)
  unfolding raw_value_from_mapped can_data_value_from_f64
  raw_value_from_mapped-HasType entry mapped t =
      let value = w.double.div (w.double.sub mapped entry.value.offset) entry.value.slope in
      (λ v h. typed_value-HasType value t (ground arith), λ h. rw h, λ h k. rw (h, k))
