-- ===== src/Conformance/Validation.antt =====
-- The unit tests of src/nodes/mapping.rs that load a mapping and validate it.
use ferro_flow.Prelude.{◌≡◌, refl, true, false, [], ◌∷◌, none, some, Result, ok, err}
use ferro_flow.Prelude.Text.{contains_char, is_blank, is_whitespace}
use ferro_flow.Numbers.Sample.{nan, pos_inf}
use ferro_flow.Conformance.Decimal.{decimal_double, whole}
use ferro_flow.Conformance.Literals.{Entry, Toml, entry, with_value, with_rules, rule, from, up_to}
use ferro_flow.Mapping.{telemetry}
use ferro_flow.Mapping.Ranges.{
  range_with_defaults, is_non_empty, intersection, validate_logical_rules, empty_range, overlaps,
}
use ferro_flow.Mapping.Validation.{
  EntryError, MappingError, validate, validate_entry, validate_field, member,
}
use ferro_flow.Mapping.Directory.{LoadError, parse_mapping}

-- The parser of the tests: a literal parses, and is validated.
abbrev parsed : Toml → Result LoadError Toml
parsed m = parse_mapping (some m)

abbrev one_entry : Entry → Toml
one_entry e = record { mapping = ("ECU", e ∷ []) ∷ [] }

abbrev Rejects : Entry → EntryError → Type 0
Rejects e error =
    parsed (one_entry e)
    ≡ err (LoadError.invalid_mapping (MappingError.invalid_entry "ECU" e.name error))

abbrev Accepts : Entry → Type 0
Accepts e = parsed (one_entry e) ≡ ok (one_entry e)

abbrev RejectsEmptyNodeName : Type 0
RejectsEmptyNodeName =
    parsed (record { mapping = ("   ", entry "x" telemetry "f" ∷ []) ∷ [] })
    ≡ err (LoadError.invalid_mapping MappingError.empty_node_name)

abbrev RejectsEmptyMappingName : Type 0
RejectsEmptyMappingName = Rejects (entry "" telemetry "field") EntryError.empty_name

abbrev RejectsEmptyRawField : Type 0
RejectsEmptyRawField = Rejects (entry "x" telemetry "") EntryError.empty_raw_field

abbrev RejectsZeroSlope : Type 0
RejectsZeroSlope =
    Rejects (with_value (whole 0) (whole 0) "" (entry "x" telemetry "f")) EntryError.zero_slope

abbrev RejectsNonFiniteSlope : Type 0
RejectsNonFiniteSlope =
    validate (one_entry (with_value pos_inf (whole 0) "" (entry "x" telemetry "f")))
    ≡ err (MappingError.invalid_entry "ECU" "x" EntryError.slope_not_finite)

abbrev RejectsNonFiniteOffset : Type 0
RejectsNonFiniteOffset =
    validate (one_entry (with_value (whole 1) nan "" (entry "x" telemetry "f")))
    ≡ err (MappingError.invalid_entry "ECU" "x" EntryError.offset_not_finite)

abbrev RejectsDuplicateMappingNameAcrossNodes : Type 0
RejectsDuplicateMappingNameAcrossNodes =
    parsed (record {
      mapping =
          ("NodeA", entry "dup" telemetry "a" ∷ [])
          ∷ ("NodeB", entry "dup" telemetry "b" ∷ [])
          ∷ [];
    })
    ≡ err (LoadError.invalid_mapping (MappingError.duplicate_name "NodeB" "dup"))

abbrev RejectsDuplicateMappingNames : Type 0
RejectsDuplicateMappingNames =
    parsed (record {
      mapping =
          (
            "node1",
            entry "duplicate" telemetry "field1" ∷ entry "duplicate" telemetry "field2" ∷ [],
          )
          ∷ [];
    })
    ≡ err (LoadError.invalid_mapping (MappingError.duplicate_name "node1" "duplicate"))

abbrev RejectsOverlapDueToInclusiveBoundary : Type 0
RejectsOverlapDueToInclusiveBoundary =
    Rejects
      (with_rules
        (rule none (some (whole 10)) none (some true) "Low"
          ∷ rule (some (whole 10)) none (some true) none "High"
          ∷ [])
        (entry "x" telemetry "f"))
      (EntryError.logical_rules (overlaps 2 1))

abbrev AcceptsSinglePointRangeWhenBothInclusive : Type 0
AcceptsSinglePointRangeWhenBothInclusive = Accepts (
    with_rules (rule (some (whole 10)) (some (whole 10)) (some true) (some true) "Ten" ∷ [])
      (entry "x" telemetry "f"))

abbrev RejectsSinglePointRangeWhenAnyExclusive : Type 0
RejectsSinglePointRangeWhenAnyExclusive =
    Rejects
      (with_rules (rule (some (whole 10)) (some (whole 10)) (some true) (some false) "Ten" ∷ [])
        (entry "x" telemetry "f"))
      (EntryError.logical_rules (empty_range 1))

abbrev RejectsOverlappingLogicalRules : Type 0
RejectsOverlappingLogicalRules =
    Rejects
      (with_rules
        (up_to (whole 100) "Low" ∷ up_to (whole 50) "Very low" ∷ from (whole 100) "High" ∷ [])
        (entry "temperature" telemetry "temperature"))
      (EntryError.logical_rules (overlaps 2 1))

abbrev AcceptsAdjacentRanges : Type 0
AcceptsAdjacentRanges = Accepts (
    with_rules (up_to (whole 10) "Cold" ∷ from (whole 10) "Hot" ∷ [])
      (entry "temperature" telemetry "temperature"))

-- The tests of single entries and names pass.
validation_tests_pass :
    RejectsEmptyNodeName × RejectsEmptyMappingName × RejectsEmptyRawField × RejectsZeroSlope
    × RejectsNonFiniteSlope × RejectsNonFiniteOffset × RejectsDuplicateMappingNameAcrossNodes
    × RejectsDuplicateMappingNames
unfolding parse_mapping validate validate_field validate_entry is_blank is_whitespace member
    contains_char validate_logical_rules
validation_tests_pass = (refl, refl, refl, refl, refl, refl, refl, refl)

-- So do those of the logical rules.
rule_tests_pass :
    RejectsOverlapDueToInclusiveBoundary × AcceptsSinglePointRangeWhenBothInclusive
    × RejectsSinglePointRangeWhenAnyExclusive × RejectsOverlappingLogicalRules
    × AcceptsAdjacentRanges
unfolding parse_mapping validate validate_field validate_entry is_blank is_whitespace member
    contains_char validate_logical_rules range_with_defaults is_non_empty intersection
rule_tests_pass = (refl, refl, refl, refl, refl)
