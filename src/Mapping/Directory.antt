-- ===== src/Mapping/Directory.antt =====
-- Loading a directory of mapping files (src/nodes/mapping.rs). Reading files and parsing TOML are
-- not modelled: a file is its path, whether it is one with the extension `toml`, and, if it
-- can be read, the mapping that its text parses to, if it does.
pub mod Merge
use ferro_flow.Prelude.{
  String, Bool, not, List, [], ◌∷◌, ◌++◌, Option, Result, ok, ◌>>=◌, ◌>>◌, ensure, or_fail,
  is_empty, keep, ◌==◌, string_eq, if◌then◌else◌,
}
use ferro_flow.Prelude.Text.{str_ltb}
use ferro_flow.Numbers.{Double}
use ferro_flow.Mapping.{Mapping, MappingEntry}
use ferro_flow.Mapping.Validation.{MappingError, validate, map_err}

pub data LoadError : Type 0 where
  not_readable not_parsed no_toml_files : LoadError
  invalid_mapping : MappingError → LoadError

pub record MappingFile (F V : Type 0) : Type 0 where
  pub path : String
  pub is_toml_file : Bool
  pub content : Option (Option (Mapping F V))  -- the text as parsed, if it can be read

module _ {F V : Type 0} where
  -- `entries.sort()`, by the paths.
  unfoldable pub insert_sorted : MappingFile F V → List (MappingFile F V) → List (MappingFile F V)
  insert_sorted f [] = f ∷ []
  insert_sorted f (g ∷ gs) = if str_ltb g.path f.path then g ∷ insert_sorted f gs else f ∷ g ∷ gs

  unfoldable pub sort : List (MappingFile F V) → List (MappingFile F V)
  unfolding insert_sorted
  sort [] = []
  sort (f ∷ fs) = insert_sorted f (sort fs)

  -- `entry(node).or_default().extend(fields)` of a `BTreeMap`, whose keys stay in order.
  unfoldable pub extend_entry :
      String
      → List (MappingEntry F V)
      → List (String × List (MappingEntry F V))
      → List (String × List (MappingEntry F V))
  extend_entry node fields [] = (node, fields) ∷ []
  extend_entry node fields ((n, old) ∷ rest) =
      if n == node
      then (n, old ++ fields) ∷ rest
      else if str_ltb node n
      then (node, fields) ∷ (n, old) ∷ rest
      else (n, old) ∷ extend_entry node fields rest

  unfoldable pub merge :
      List (String × List (MappingEntry F V))
      → List (String × List (MappingEntry F V))
      → List (String × List (MappingEntry F V))
  unfolding extend_entry
  merge combined [] = combined
  merge combined ((node, fields) ∷ rest) = merge (extend_entry node fields combined) rest

module _ {F V : Type 0} ⦃d : Double F⦄ where
  -- `parse_mapping`, behind the TOML parser.
  unfoldable pub parse_mapping : Option (Mapping F V) → Result LoadError (Mapping F V)
  parse_mapping parsed = do
    config ← or_fail parsed not_parsed
    map_err invalid_mapping (validate config)
    ok config

  -- `none` is a file that cannot be read.
  unfoldable pub load_mapping_file : Option (Option (Mapping F V)) → Result LoadError (Mapping F V)
  unfolding parse_mapping
  load_mapping_file content = or_fail content not_readable >>= parse_mapping

  unfoldable pub load_files : Mapping F V → List (MappingFile F V) → Result LoadError (Mapping F V)
  unfolding load_mapping_file merge
  load_files combined [] = ok combined
  load_files combined (f ∷ fs) = do
    m ← load_mapping_file f.content
    load_files (record { mapping = merge combined.mapping m.mapping }) fs

  -- `none` is a directory that cannot be read.
  unfoldable pub load_mapping_directory :
      Option (List (MappingFile F V)) → Result LoadError (Mapping F V)
  unfolding sort load_files
  load_mapping_directory directory = do
    listed ← or_fail directory not_readable
    let entries = sort (keep (λ (f : MappingFile F V). f.is_toml_file) listed)
    ensure (not (is_empty entries)) no_toml_files
    combined ← load_files (record { mapping = [] }) entries
    map_err invalid_mapping (validate combined)
    ok combined

  -- An empty path gives the empty mapping.
  unfoldable pub load_mapping_from_path :
      String → (String → Option (List (MappingFile F V))) → Result LoadError (Mapping F V)
  unfolding load_mapping_directory
  load_mapping_from_path path read_dir =
      if path == "" then ok (record { mapping = [] }) else load_mapping_directory (read_dir path)

  unfoldable pub load_mapping_from_file :
      String → (String → Option (Option (Mapping F V))) → Result LoadError (Mapping F V)
  unfolding load_mapping_file
  load_mapping_from_file path read =
      if path == "" then ok (record { mapping = [] }) else load_mapping_file (read path)
