-- ===== src/Conformance/Literals.antt =====
-- How the unit tests write mappings down: TOML literals, with the defaults of the fields left out.
use ferro_flow.Prelude.{String, Bool, List, [], ◌∷◌, Option, none, some}
use ferro_flow.Numbers.Sample.{Sample}
use ferro_flow.Conformance.Decimal.{decimal_double, whole}
use ferro_flow.Mapping.{FieldType, Mapping, MappingEntry, LogicalRule, ValueParams}
use ferro_flow.Mapping.Ranges.{range_with_defaults}

abbrev pub Entry : Type 0
Entry = MappingEntry Sample String

abbrev pub Toml : Type 0
Toml = Mapping Sample String

abbrev pub params : Sample → Sample → String → ValueParams Sample
params slope offset unit = record { slope = slope; offset = offset; unit = unit }

abbrev pub default_params : ValueParams Sample
default_params = params (whole 1) (whole 0) ""

abbrev pub entry : String → FieldType → String → Entry
entry name field_type raw_field = record {
  name = name;
  field_type = field_type;
  raw_field = raw_field;
  value = default_params;
  logical = [];
}

abbrev pub with_value : Sample → Sample → String → Entry → Entry
with_value slope offset unit e = record e { value = params slope offset unit }

abbrev pub with_rules : List (LogicalRule Sample String) → Entry → Entry
with_rules rules e = record e { logical = rules }

abbrev pub rule :
    Option Sample → Option Sample → Option Bool → Option Bool → String → LogicalRule Sample String
rule min max min_inclusive max_inclusive value = record {
  range = range_with_defaults min max min_inclusive max_inclusive;
  value = value;
}

abbrev pub from : Sample → String → LogicalRule Sample String
from min value = rule (some min) none none none value

abbrev pub up_to : Sample → String → LogicalRule Sample String
up_to max value = rule none (some max) none none value

-- A mapping with one node.
abbrev pub nodes : String → List Entry → Toml
nodes node entries = record { mapping = (node, entries) ∷ [] }
