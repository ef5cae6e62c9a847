-- ===== src/Conformance/Files.antt =====
-- The unit tests of src/nodes/mapping.rs that read files: a file is what it parses to, and a
-- directory its files. The literals are the files under tests/mapping.
use ferro_flow.Prelude.{
  ◌≡◌, refl, String, Bool, true, false, ◌==◌, string_eq, if◌then◌else◌, List, [], ◌∷◌, Option, none,
  some, ok, err, Result,
}
use ferro_flow.Prelude.Text.{contains_char, is_blank, is_whitespace, str_ltb}
use ferro_flow.Numbers.Sample.{Sample}
use ferro_flow.Conformance.Decimal.{decimal_double, whole, milli}
use ferro_flow.Conformance.Literals.{
  Entry, Toml, entry, with_value, with_rules, rule, from, up_to, nodes,
}
use ferro_flow.Mapping.{LogicalRule, telemetry, parameter}
use ferro_flow.Mapping.Ranges.{
  range_with_defaults, is_non_empty, intersection, validate_logical_rules,
}
use ferro_flow.Mapping.Validation.{MappingError, validate, validate_entry, validate_field, member}
use ferro_flow.Mapping.Lookup.{get_mapping_for_name}
use ferro_flow.Mapping.Directory.{
  LoadError, MappingFile, parse_mapping, load_mapping_file, merge, extend_entry,
  load_mapping_directory, load_mapping_from_path, load_mapping_from_file, not_readable,
  no_toml_files,
}

abbrev toml_file : String → Toml → MappingFile Sample String
toml_file path content = record { path = path; is_toml_file = true; content = some (some content) }

abbrev states : List (LogicalRule Sample String)
states =
    from (whole 100) "High"
    ∷ rule (some (whole 50)) (some (whole 100)) none none "Normal"
    ∷ up_to (whole 50) "Low"
    ∷ []

-- tests/mapping/example1.toml
abbrev example1 : Toml
example1 = nodes "node1" (
    with_value (milli 500) (whole 1) "mAh"
      (with_rules states (entry "Example Mapping 1" telemetry "field1"))
    ∷ with_value (milli 500) (whole 1) "mAh"
        (with_rules states (entry "Example Mapping 2" parameter "field2"))
    ∷ [])

-- tests/mapping/split/engine.toml
abbrev throttle_state : Entry
throttle_state =
    with_value (milli 250) (whole 0) "%"
      (with_rules states (entry "throttle_state" parameter "throttle_raw"))

-- tests/mapping/split/fuel.toml
abbrev fuel_level : Entry
fuel_level = with_value (milli 500) (whole 1) "mAh" (entry "fuel_level" telemetry "level_adc")

-- What the tests have on the disk.
abbrev disk : String → Option (Option Toml)
disk path = if path == "tests/mapping/example1.toml" then some (some example1) else none

-- The listing of a directory has its own order.
abbrev split : List (MappingFile Sample String)
split =
    toml_file "tests/mapping/split/fuel.toml" (nodes "FuelECU" (fuel_level ∷ []))
    ∷ toml_file "tests/mapping/split/engine.toml" (nodes "EngineECU" (throttle_state ∷ []))
    ∷ []

abbrev duplicates : List (MappingFile Sample String)
duplicates =
    toml_file "duplicate_raw/a.toml" (nodes "ECU" (entry "first" telemetry "pressure" ∷ []))
    ∷ toml_file "duplicate_raw/b.toml" (nodes "ECU" (entry "second" telemetry "pressure" ∷ []))
    ∷ []

abbrev directories : String → Option (List (MappingFile Sample String))
directories path =
    if path == "tests/mapping/split"
    then some split
    else if path == "duplicate_raw"
    then some duplicates
    else if path == "empty"
    then some []
    else none

abbrev no_nodes : Result LoadError Toml
no_nodes = ok (record { mapping = [] })

abbrev LoadMappingFromFileEmptyPathReturnsDefault : Type 0
LoadMappingFromFileEmptyPathReturnsDefault = load_mapping_from_file "" disk ≡ no_nodes

abbrev LoadMappingFromPathEmptyPathReturnsDefault : Type 0
LoadMappingFromPathEmptyPathReturnsDefault = load_mapping_from_path "" directories ≡ no_nodes

abbrev LoadMappingFromFileMissingFileErrorsWithContext : Type 0
LoadMappingFromFileMissingFileErrorsWithContext =
    load_mapping_from_file "missing.toml" disk ≡ err not_readable

abbrev LoadMappingFromPathMissingDirErrorsWithContext : Type 0
LoadMappingFromPathMissingDirErrorsWithContext =
    load_mapping_from_path "missing" directories ≡ err not_readable

abbrev RejectsDuplicateRawFieldsAcrossMappingFiles : Type 0
RejectsDuplicateRawFieldsAcrossMappingFiles =
    load_mapping_from_path "duplicate_raw" directories
    ≡ err (LoadError.invalid_mapping (MappingError.duplicate_raw_field "ECU" "pressure"))

-- The name is found in what was loaded.
abbrev has_name : Result LoadError Toml → String → Bool
has_name (err e) name = false
has_name (ok m) name = elim (get_mapping_for_name m name) [ none ↦ false | some _ ↦ true ]

abbrev LoadsMappingDirectory : Type 0
LoadsMappingDirectory =
    let loaded = load_mapping_from_path "tests/mapping/split" directories in
    (has_name loaded "fuel_level" ≡ true) × (has_name loaded "throttle_state" ≡ true)

abbrev RejectsEmptyMappingDirectory : Type 0
RejectsEmptyMappingDirectory = load_mapping_from_path "empty" directories ≡ err no_toml_files

abbrev CheckedInExampleMappingIsValid : Type 0
CheckedInExampleMappingIsValid =
    load_mapping_from_file "tests/mapping/example1.toml" disk ≡ ok example1

-- The tests of single files pass.
file_tests_pass :
    LoadMappingFromFileEmptyPathReturnsDefault × LoadMappingFromFileMissingFileErrorsWithContext
    × CheckedInExampleMappingIsValid
unfolding load_mapping_from_file load_mapping_file parse_mapping validate validate_field
    validate_entry is_blank is_whitespace member contains_char validate_logical_rules
    range_with_defaults is_non_empty intersection
file_tests_pass = (refl, refl, refl)

-- So do those of directories.
directory_tests_pass :
    LoadMappingFromPathEmptyPathReturnsDefault × LoadMappingFromPathMissingDirErrorsWithContext
    × RejectsDuplicateRawFieldsAcrossMappingFiles × LoadsMappingDirectory
    × RejectsEmptyMappingDirectory
unfolding load_mapping_from_path load_mapping_directory merge extend_entry load_mapping_file
    parse_mapping validate validate_field validate_entry is_blank is_whitespace member contains_char
    validate_logical_rules range_with_defaults is_non_empty intersection get_mapping_for_name
    str_ltb
directory_tests_pass = (refl, refl, refl, (refl, refl), refl)
