-- ===== src/Examples/Mappings.antt =====
-- Ranges, rules and lookups of one small mapping.
use ferro_flow.Prelude.{
  none, In, keep, ◌↔◌, ◌≡◌, ◌≢◌, refl, String, Bool, true, false, ◌&&◌, List, [], ◌∷◌, Option, some,
  ok, err, All, Pairs, inl, inr, pos,
}
use ferro_flow.Prelude.Text.{contains_char, is_blank, is_whitespace}
use ferro_flow.Numbers.Sample.{Sample, fin, pos_inf, neg_inf, sample_double, Sample-IsOrdered}
use ferro_flow.Platform.{CanDataType, CanDataValue}
use ferro_flow.Platform.Sample.{sample}
use ferro_flow.Mapping.{Mapping, MappingEntry, LogicalRange, LogicalRule, telemetry, parameter}
use ferro_flow.Mapping.Ranges.{
  contains, is_non_empty, intersection, validate_logical_rules, matches, logical_value,
  compare_panic,
}
use ferro_flow.Mapping.Ranges.Laws.{holds, intersection_lem}
use ferro_flow.Mapping.Ranges.Partition.{
  AreDisjoint, validate_logical_rules-AreDisjoint, logical_value_unique,
}
use ferro_flow.Mapping.Entry.{mapped_not_finite, zero_slope, raw_value_from_mapped}
use ferro_flow.Mapping.Entry.Types.{HasType, raw_value_from_mapped-HasType}
use ferro_flow.Mapping.Validation.{validate, validate_field, validate_entry, member}
use ferro_flow.Mapping.Validation.Seen.{Differ, entries, validate-Differ}
use ferro_flow.Mapping.Directory.{
  MappingFile, load_mapping_directory, load_mapping_file, parse_mapping, merge, extend_entry,
}
use ferro_flow.Mapping.Directory.Merge.{file_entries, load_mapping_directory-entries}
use ferro_flow.Mapping.Lookup.{MappingLookupResult, get_mapping_for_name, get_mapping_for_raw}
use ferro_flow.Mapping.Lookup.Found.{validate-get_mapping}

-- Below 5, and from 5 on.
abbrev low : LogicalRange Sample
low = record { min = neg_inf; max = fin (pos 5); min_inclusive = true; max_inclusive = false }

abbrev high : LogicalRange Sample
high = record { min = fin (pos 5); max = pos_inf; min_inclusive = true; max_inclusive = false }

abbrev closed : LogicalRule Sample String
closed = record { range = low; value = "closed" }

abbrev opened : LogicalRule Sample String
opened = record { range = high; value = "open" }

abbrev pub valve : MappingEntry Sample String
valve = record {
  name = "valve";
  field_type = parameter;
  raw_field = "v1";
  value = record { slope = fin (pos 2); offset = fin (pos 1); unit = "deg" };
  logical = closed ∷ opened ∷ [];
}

abbrev pub pressure : MappingEntry Sample String
pressure = record {
  name = "pressure";
  field_type = telemetry;
  raw_field = "p1";
  value = record { slope = fin (pos 1); offset = fin (pos 0); unit = "bar" };
  logical = [];
}

abbrev pub stand : Mapping Sample String
stand = record { mapping = ("ecu", valve ∷ pressure ∷ []) ∷ [] }

intersection_lem_example :
    (result : Option (LogicalRange Sample)) × (intersection low high ≡ some result)
    × ((v : Sample) → holds result v ≡ (contains low v && contains high v))
intersection_lem_example = intersection_lem Sample-IsOrdered low high (refl, refl) (refl, refl)

validate_logical_rules-AreDisjoint_example :
    (validate_logical_rules valve ≢ err compare_panic)
    × (validate_logical_rules valve ≡ ok tt
        → Pairs (λ (s t : LogicalRule Sample String). AreDisjoint t.range s.range) valve.logical)
validate_logical_rules-AreDisjoint_example =
    validate_logical_rules-AreDisjoint Sample-IsOrdered valve

valve-valid : validate_logical_rules valve ≡ ok tt
unfolding validate_logical_rules is_non_empty intersection
valve-valid = refl

opened-matches : matches opened (fin (pos 7)) ≡ true
unfolding matches
opened-matches = refl

logical_value_unique_example : logical_value valve (fin (pos 7)) ≡ some "open"
logical_value_unique_example =
    logical_value_unique Sample-IsOrdered valve opened (fin (pos 7)) valve-valid (inr (inl refl))
      opened-matches

raw_value_from_mapped-HasType_example :
    ((v : CanDataValue Sample)
      → raw_value_from_mapped sample valve (fin (pos 91)) CanDataType.uint8 ≡ ok v
      → HasType v CanDataType.uint8)
    × (◌≡◌ {A = Bool} true false
        → raw_value_from_mapped sample valve (fin (pos 91)) CanDataType.uint8
          ≡ err mapped_not_finite)
    × (◌≡◌ {A = Bool} true true
        → ◌≡◌ {A = Bool} false true
        → raw_value_from_mapped sample valve (fin (pos 91)) CanDataType.uint8 ≡ err zero_slope)
raw_value_from_mapped-HasType_example =
    raw_value_from_mapped-HasType sample valve (fin (pos 91)) CanDataType.uint8

pub stand-valid : validate stand ≡ ok tt
unfolding validate validate_field validate_entry is_blank validate_logical_rules is_non_empty
    intersection is_whitespace member contains_char
stand-valid = refl

validate-Differ_example :
    All (λ (n : String × List (MappingEntry Sample String)). is_blank n.0 ≡ false) stand.mapping
    × All
        (λ (p : String × MappingEntry Sample String). validate_entry p.1 ≡ ok tt)
        (entries stand.mapping)
    × Pairs Differ (entries stand.mapping)
validate-Differ_example = validate-Differ stand stand-valid

validate-get_mapping_example :
    let result : MappingLookupResult Sample String = record {
      node_name = "ecu";
      mapping_entry = pressure;
    } in
    (get_mapping_for_name stand "pressure" ≡ some result)
    × (get_mapping_for_raw stand "ecu" "p1" ≡ some result)
validate-get_mapping_example =
    validate-get_mapping stand "ecu" pressure (tt, tt) stand-valid (inr (inl refl))

-- A directory with one mapping file and a note.
abbrev files : List (MappingFile Sample String)
files =
    record { path = "stand.toml"; is_toml_file = true; content = some (some stand) }
    ∷ record { path = "note.txt"; is_toml_file = false; content = none }
    ∷ []

files-loaded : load_mapping_directory (some files) ≡ ok stand
unfolding load_mapping_directory load_mapping_file parse_mapping merge extend_entry validate
    validate_field validate_entry is_blank validate_logical_rules is_non_empty intersection
    is_whitespace member contains_char
files-loaded = refl

load_mapping_directory-entries_example :
    (validate stand ≡ ok tt)
    × ((p : String × MappingEntry Sample String)
        → In p (entries stand.mapping)
          ↔ In p (file_entries (keep (λ (f : MappingFile Sample String). f.is_toml_file) files)))
load_mapping_directory-entries_example = load_mapping_directory-entries files files-loaded
