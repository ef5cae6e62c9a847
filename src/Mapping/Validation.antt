-- ===== src/Mapping/Validation.antt =====
-- `Mapping::validate` and `MappingEntry::validate` of src/nodes/mapping.rs. The two `HashSet`s of
-- the names and the raw fields seen so far are lists.
pub mod Seen
use ferro_flow.Prelude.{
  String, Bool, true, false, not, ◌&&◌, ◌||◌, List, [], ◌∷◌, Result, ok, err, ◌>>=◌, ◌>>◌, ensure,
  Eq, ◌==◌, string_eq, pair_eq, if◌then◌else◌,
}
use ferro_flow.Prelude.Text.{is_blank, contains_char}
use ferro_flow.Numbers.{Double, eq}
use ferro_flow.Mapping.{Mapping, MappingEntry}
use ferro_flow.Mapping.Ranges.{RuleError, validate_logical_rules}

pub data EntryError : Type 0 where
  empty_name name_with_colon empty_raw_field slope_not_finite zero_slope offset_not_finite :
      EntryError
  logical_rules : RuleError → EntryError

pub data MappingError : Type 0 where
  empty_node_name : MappingError
  invalid_entry : String → String → EntryError → MappingError
  duplicate_raw_field duplicate_name : String → String → MappingError

-- `with_context`
abbrev pub map_err : {E E' A : Type 0} → (E → E') → Result E A → Result E' A
map_err f (ok a) = ok a
map_err f (err e) = err (f e)

-- `HashSet::contains`
unfoldable pub member : {A : Type 0} ⦃e : Eq A⦄ → A → List A → Bool
member a [] = false
member a (b ∷ bs) = b == a || member a bs

pub record SeenNames : Type 0 where
  pub names : List String
  pub raw_fields : List (String × String)

module _ {F V : Type 0} ⦃d : Double F⦄ where
  unfoldable pub validate_entry : MappingEntry F V → Result EntryError (Unit {0})
  validate_entry entry = do
    ensure (not (is_blank entry.name)) empty_name
    ensure (not (contains_char b':' entry.name)) name_with_colon
    ensure (not (is_blank entry.raw_field)) empty_raw_field
    ensure (d.is_finite entry.value.slope) slope_not_finite
    ensure (not (eq entry.value.slope d.nought)) zero_slope
    ensure (d.is_finite entry.value.offset) offset_not_finite
    map_err logical_rules (validate_logical_rules entry)

  -- The raw id goes in first; an insert that finds its value there ends the check.
  abbrev pub add_names : String → MappingEntry F V → SeenNames → SeenNames
  add_names node entry seen = record {
    names = entry.name ∷ seen.names;
    raw_fields = (node, entry.raw_field) ∷ seen.raw_fields;
  }

  -- The body of the inner loop.
  unfoldable pub validate_field :
      String → MappingEntry F V → SeenNames → Result MappingError SeenNames
  validate_field node entry seen = do
    map_err (invalid_entry node entry.name) (validate_entry entry)
    ensure (not (member (node, entry.raw_field) seen.raw_fields))
        (duplicate_raw_field node entry.raw_field)
    ensure (not (member entry.name seen.names)) (duplicate_name node entry.name)
    ok (add_names node entry seen)

  unfoldable pub validate_fields :
      String → List (MappingEntry F V) → SeenNames → Result MappingError SeenNames
  unfolding validate_field
  validate_fields node [] seen = ok seen
  validate_fields node (entry ∷ rest) seen = do
    seen' ← validate_field node entry seen
    validate_fields node rest seen'

  unfoldable pub validate_nodes :
      List (String × List (MappingEntry F V)) → SeenNames → Result MappingError (Unit {0})
  unfolding validate_fields
  validate_nodes [] seen = ok tt
  validate_nodes ((node, fields) ∷ rest) seen = do
    ensure (not (is_blank node)) empty_node_name
    seen' ← validate_fields node fields seen
    validate_nodes rest seen'

  unfoldable pub validate : Mapping F V → Result MappingError (Unit {0})
  unfolding validate_nodes
  validate m = validate_nodes m.mapping (record { names = []; raw_fields = [] })
