-- ===== src/Examples/Conversions.antt =====
-- A raw value there and back.
use ferro_flow.Prelude.{◌≡◌, refl, true, ok, ℤ, pos, negsuc, arith}
use ferro_flow.Numbers.Sample.{Sample, fin, sample_double}
use ferro_flow.Platform.{CanDataType, CanDataValue}
use ferro_flow.Platform.Sample.{sample}
use ferro_flow.Mapping.Entry.{
  MappedValue, can_data_value_to_f64, mapped_value, raw_value_from_mapped,
}
use ferro_flow.Mapping.Entry.Roundtrip.{HoldsIntegers, raw_value_from_mapped-mapped_value}
use ferro_flow.Examples.Mappings.{valve}

sample-sub_self :
    (n : ℤ)
    → sample_double.le (sample_double.abs (sample_double.sub (fin n) (fin n))) sample_double.nano
      ≡ true
sample-sub_self (pos n) = ground arith
sample-sub_self (negsuc n) = ground arith

sample-HoldsIntegers : HoldsIntegers sample
sample-HoldsIntegers = record {
  of_ℤ_finite = λ n h. refl;
  round_of_ℤ = λ n h. refl;
  to_of_ℤ = λ n h. refl;
  sub_self = λ n h. sample-sub_self n;
  narrow_widen = λ x. refl;
  nought_is_nought = refl;
  one_is_not_nought = refl;
  one_is_one = refl;
}

-- 45 raw are 91 degrees.
forty_five : can_data_value_to_f64 sample (CanDataValue.uint8 45) ≡ ok (fin (pos 45))
unfolding can_data_value_to_f64
forty_five = refl

raw_value_from_mapped-mapped_value_example :
    (mapped : MappedValue Sample) × (mapped_value sample valve (CanDataValue.uint8 45) ≡ ok mapped)
    × (mapped.unit ≡ valve.value.unit)
    × (raw_value_from_mapped sample valve mapped.value CanDataType.uint8
        ≡ ok (CanDataValue.uint8 45))
raw_value_from_mapped-mapped_value_example =
    raw_value_from_mapped-mapped_value sample sample-HoldsIntegers valve (CanDataValue.uint8 45)
      CanDataType.uint8 (fin (pos 45)) (omega arith) forty_five
      (record { slope = refl; raw_finite = refl; mapped_finite = refl; undone = refl })
