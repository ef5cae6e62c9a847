-- ===== src/Conformance/Values.antt =====
-- The unit tests of src/nodes/mapping.rs that look entries up and convert values. The assertion
-- `(a - b).abs() < tolerance` is `near a b`.
use ferro_flow.Prelude.{
  ◌≡◌, refl, ℕ, String, Bool, true, false, [], ◌∷◌, Option, none, some, ok, err, ℤ, ◌*◌, Result,
}
use ferro_flow.Prelude.Assoc.{lookup}
use ferro_flow.Numbers.{lt}
use ferro_flow.Numbers.Sample.{Sample, nan, pos_inf, fin, sub_ℕ}
use ferro_flow.Platform.{CanDataType, CanDataValue}
use ferro_flow.Conformance.Decimal.{decimal, decimal_double, whole, milli}
use ferro_flow.Conformance.Literals.{Entry, Toml, entry, with_value, with_rules, rule, from, up_to}
use ferro_flow.Mapping.{telemetry, parameter}
use ferro_flow.Mapping.Ranges.{range_with_defaults, contains, matches, logical_value}
use ferro_flow.Mapping.Entry.{
  ValueError, MappedValue, can_data_value_to_f64, mapped_value, raw_value_from_mapped, not_decoded,
  not_integer, not_boolean, out_of_range, mapped_not_finite,
}
use ferro_flow.Mapping.Lookup.{MappingLookupResult, get_mapping_for_name, get_mapping_for_raw}

abbrev one_entry : Entry → Toml
one_entry e = record { mapping = ("ECU", e ∷ []) ∷ [] }

abbrev in_ecu : Entry → Option (MappingLookupResult Sample String)
in_ecu e = some (record { node_name = "ECU"; mapping_entry = e })

abbrev mapped : Sample → String → Result ValueError (MappedValue Sample)
mapped value unit = ok (record { value = value; unit = unit })

abbrev near : Sample → Sample → Bool
near a b = lt (decimal_double.abs (decimal_double.sub a b)) decimal_double.epsilon

-- The mapped value is near a number.
abbrev is_near : Result ValueError (MappedValue Sample) → Sample → Bool
is_near (ok v) expected = near v.value expected
is_near (err e) expected = false

abbrev below : ℕ → Sample
below n = fin (sub_ℕ 0 (n * 1000))

abbrev negative : ℕ → ℤ
negative n = sub_ℕ 0 n

abbrev tank_pressure : Entry
tank_pressure = with_value (milli 500) (whole 1) "bar" (
    with_rules (from (whole 100) "High" ∷ up_to (whole 100) "Normal" ∷ [])
      (entry "tank_pressure" telemetry "pressure_adc"))

abbrev ParsesAndAppliesMappingSchema : Type 0
ParsesAndAppliesMappingSchema =
    (get_mapping_for_name (one_entry tank_pressure) "tank_pressure" ≡ in_ecu tank_pressure)
    × (mapped_value decimal tank_pressure (CanDataValue.uint16 198) ≡ mapped (whole 100) "bar")
    × (logical_value tank_pressure (whole 100) ≡ some "High")

abbrev two_fields : Toml
two_fields = record {
  mapping =
      (
        "ECU",
        entry "tank_pressure" telemetry "pressure_adc"
            ∷ entry "valve_opening" parameter "valve_raw"
            ∷ [],
      )
      ∷ [];
}

abbrev LooksUpMappingByRawFieldAndType : Type 0
LooksUpMappingByRawFieldAndType =
    (get_mapping_for_raw two_fields "ECU" "pressure_adc"
      ≡ in_ecu (entry "tank_pressure" telemetry "pressure_adc"))
    × (get_mapping_for_raw two_fields "ECU" "valve_raw"
        ≡ in_ecu (entry "valve_opening" parameter "valve_raw"))

abbrev LogicalValueReturnsNoneWhenValueInGap : Type 0
LogicalValueReturnsNoneWhenValueInGap =
    logical_value
      (with_rules
        (rule (some (whole 0)) (some (whole 10)) none none "Low"
          ∷ rule (some (whole 20)) (some (whole 30)) none none "High"
          ∷ [])
        (entry "x" telemetry "f"))
      (whole 15)
    ≡ none

abbrev LogicalRangeInclusiveExclusiveBoundaries : Type 0
LogicalRangeInclusiveExclusiveBoundaries =
    logical_value
      (with_rules (up_to (whole 10) "Low" ∷ from (whole 10) "High" ∷ []) (entry "x" telemetry "f"))
      (whole 10)
    ≡ some "High"

abbrev plain : Entry
plain = entry "x" telemetry "f"

abbrev ConvertsTo : CanDataValue Sample → Sample → Type 0
ConvertsTo value expected = is_near (mapped_value decimal plain value) expected ≡ true

abbrev MappedValueConvertsAllCanTypesToF64 : Type 0
MappedValueConvertsAllCanTypesToF64 =
    ConvertsTo (CanDataValue.int8 (negative 5)) (below 5)
    × ConvertsTo (CanDataValue.int16 (negative 300)) (below 300)
    × ConvertsTo (CanDataValue.int32 (negative 100_000)) (below 100_000)
    × ConvertsTo (CanDataValue.uint8 250) (whole 250)
    × ConvertsTo (CanDataValue.uint16 50_000) (whole 50_000)
    × ConvertsTo (CanDataValue.uint32 1_000_000) (whole 1_000_000)
    × ConvertsTo (CanDataValue.float32 (milli 1500)) (milli 1500)
    × ConvertsTo (CanDataValue.boolean true) (whole 1)
    × ConvertsTo (CanDataValue.boolean false) (whole 0)

abbrev MappedValueRejectsRaw : Type 0
MappedValueRejectsRaw =
    mapped_value decimal plain (CanDataValue.raw (1 ∷ 2 ∷ 3 ∷ [])) ≡ err not_decoded

abbrev from_mapped : Sample → CanDataType → Result ValueError (CanDataValue Sample)
from_mapped value data_type =
    raw_value_from_mapped decimal (entry "x" parameter "f") value data_type

abbrev RawValueFromMappedRejectsOutOfRangeIntegers : Type 0
RawValueFromMappedRejectsOutOfRangeIntegers =
    from_mapped (whole 9999) CanDataType.uint8 ≡ err out_of_range

abbrev RawValueFromMappedBooleanAcceptsOnly0Or1 : Type 0
RawValueFromMappedBooleanAcceptsOnly0Or1 =
    (from_mapped (whole 0) CanDataType.boolean ≡ ok (CanDataValue.boolean false))
    × (from_mapped (whole 1) CanDataType.boolean ≡ ok (CanDataValue.boolean true))
    × (from_mapped (milli 500) CanDataType.boolean ≡ err not_boolean)

abbrev RawValueFromMappedRejectsNanOrInf : Type 0
RawValueFromMappedRejectsNanOrInf =
    (from_mapped nan CanDataType.uint8 ≡ err mapped_not_finite)
    × (from_mapped pos_inf CanDataType.uint8 ≡ err mapped_not_finite)

abbrev ConvertsMappedValueBackToRawParameterType : Type 0
ConvertsMappedValueBackToRawParameterType =
    raw_value_from_mapped decimal
      (with_value (milli 500) (whole 10) "%" (entry "valve_opening" parameter "valve_raw"))
      (whole 60) CanDataType.uint8
    ≡ ok (CanDataValue.uint8 100)

abbrev RejectsFractionalRawValuesForIntegerParameters : Type 0
RejectsFractionalRawValuesForIntegerParameters =
    raw_value_from_mapped decimal (entry "valve_opening" parameter "valve_raw") (milli 10_200)
      CanDataType.uint8
    ≡ err not_integer

-- The tests of the lookups and the logical rules pass.
lookup_tests_pass :
    ParsesAndAppliesMappingSchema × LooksUpMappingByRawFieldAndType
    × LogicalValueReturnsNoneWhenValueInGap × LogicalRangeInclusiveExclusiveBoundaries
unfolding get_mapping_for_name get_mapping_for_raw lookup mapped_value can_data_value_to_f64
    logical_value matches contains range_with_defaults
lookup_tests_pass = ((refl, refl, refl), (refl, refl), refl, refl)

-- So do those of the values that a raw value maps to.
mapped_value_tests_pass : MappedValueConvertsAllCanTypesToF64 × MappedValueRejectsRaw
unfolding mapped_value can_data_value_to_f64
mapped_value_tests_pass = ((refl, refl, refl, refl, refl, refl, refl, refl, refl), refl)

-- And those of the way back.
raw_value_tests_pass :
    RawValueFromMappedRejectsOutOfRangeIntegers × RawValueFromMappedBooleanAcceptsOnly0Or1
    × RawValueFromMappedRejectsNanOrInf × ConvertsMappedValueBackToRawParameterType
    × RejectsFractionalRawValuesForIntegerParameters
unfolding raw_value_from_mapped
raw_value_tests_pass = (refl, (refl, refl, refl), (refl, refl), refl, refl)
