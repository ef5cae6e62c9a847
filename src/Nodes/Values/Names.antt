-- ===== src/Nodes/Values/Names.antt =====
-- The two names of a field, the mapped one and `node_name:raw_field_name`, in the reads of
-- src/nodes/node_manager.rs and in the commands of src/nodes/node_manager/command.rs.
use ferro_flow.Prelude.{
  ◌≡◌, refl, String, false, not, some, ok, to_option, or_fail, ensure, ◌>>=◌, In, ◌∙◌, ap, sym, inl,
  inr, Bool-cases, Option-cases, >>=-eq-ok, ensure_iff, All-In, arith,
}
use ferro_flow.Prelude.Text.{append, contains_char, is_blank}
use ferro_flow.Prelude.Text.Split.{contains_char-append, split_once-append}
use ferro_flow.Numbers.{Double}
use ferro_flow.Platform.{Platform}
use ferro_flow.Mapping.{MappingEntry}
use ferro_flow.Mapping.Lookup.{get_mapping_for_name, get_mapping_for_raw}
use ferro_flow.Mapping.Lookup.Found.{HasUniqueKeys, validate-get_mapping}
use ferro_flow.Mapping.Validation.{validate, validate_entry, empty_name, name_with_colon}
use ferro_flow.Mapping.Validation.Seen.{entries, validate-Differ}
use ferro_flow.Nodes.Manager.{NodeManager}
use ferro_flow.Nodes.Values.{
  field_not_registered, Found, is_mapped_name, lookup_mapping, resolve_mapping_target,
  resolve_mapping_by_name, get_raw_value, try_get_raw_value,
}
use ferro_flow.Nodes.Command.{is_parameter, JsonValue, request_value, set_raw_value, set_value}

abbrev pub raw_name : String → String → String
raw_name node field = append node (String.◌∷◌ ":" field)

validate_entry-name :
    {F V : Type 0} ⦃d : Double F⦄ (entry : MappingEntry F V)
    → validate_entry entry ≡ ok tt
    → contains_char b':' entry.name ≡ false
unfolding validate_entry
validate_entry-name entry h =
    let (_, _, rest) = >>=-eq-ok (ensure (not (is_blank entry.name)) empty_name) _ h in
    let (_, e, _) =
      >>=-eq-ok (ensure (not (contains_char b':' entry.name)) name_with_colon) _ rest in
    ground (arith, (ensure_iff (not (contains_char b':' entry.name)) name_with_colon).0 e)

-- Two names of one field: they resolve to the same entry, or both fail, and so do the reads, the
-- requests and the writes of raw values.
pub record AreSameField (w : Platform) (m : NodeManager w) (found : Found w) (name other : String)
    : Type 0 where
  pub by_name : lookup_mapping w m name ≡ ok found
  pub by_raw_name : lookup_mapping w m other ≡ ok found
  pub reads : get_raw_value w m name ≡ get_raw_value w m other
  pub requests : to_option (request_value w m name) ≡ to_option (request_value w m other)
  pub writes :
      (value : JsonValue w)
      → to_option (set_raw_value w m name value) ≡ to_option (set_value w m other value)

module _ (w : Platform) (m : NodeManager w) where
  -- What the names resolve to differs only in the name that an error has.
  resolve_mapping_by_name-found :
      (found : Found w) (name : String)
      → lookup_mapping w m name ≡ ok found
      → resolve_mapping_by_name w m name ≡ (
          or_fail (resolve_mapping_target w m found) (field_not_registered name) >>= λ target.
          ok (found, target))
  unfolding resolve_mapping_by_name
  resolve_mapping_by_name-found found name h = rw h refl

  module _ (found : Found w) (name other : String) (by_name : lookup_mapping w m name ≡ ok found)
      (by_raw_name : lookup_mapping w m other ≡ ok found) where
    reads-agree : get_raw_value w m name ≡ get_raw_value w m other
    unfolding get_raw_value try_get_raw_value
    reads-agree =
        rw
          (
            resolve_mapping_by_name-found found name by_name,
            resolve_mapping_by_name-found found other by_raw_name,
          )
          (elim (Option-cases (resolve_mapping_target w m found)) [
            | inl e ↦ rw e refl
            | inr (target, e) ↦ rw e refl
          ])

    requests-agree : to_option (request_value w m name) ≡ to_option (request_value w m other)
    unfolding request_value
    requests-agree =
        rw
          (
            resolve_mapping_by_name-found found name by_name,
            resolve_mapping_by_name-found found other by_raw_name,
          )
          (elim (Option-cases (resolve_mapping_target w m found)) [
            | inl e ↦ rw e refl
            | inr (target, e) ↦ rw e refl
          ])

    writes-agree :
        (value : JsonValue w)
        → to_option (set_raw_value w m name value) ≡ to_option (set_raw_value w m other value)
    unfolding set_raw_value
    writes-agree value =
        rw
          (
            resolve_mapping_by_name-found found name by_name,
            resolve_mapping_by_name-found found other by_raw_name,
          )
          (elim (Option-cases (resolve_mapping_target w m found)) [
            | inl e ↦ rw e refl
            | inr (target, e) ↦
                rw e (elim (Bool-cases (is_parameter found.mapping_entry.field_type)) [
                  | inl p ↦ rw p refl
                  | inr p ↦ rw p refl
                ])
          ])

  lookup_mapping-name :
      (found : Found w) (name : String)
      → contains_char b':' name ≡ false
      → get_mapping_for_name m.mapping name ≡ some found
      → lookup_mapping w m name ≡ ok found
  unfolding lookup_mapping is_mapped_name
  lookup_mapping-name found name plain h = rw (plain, h) refl

  is_mapped_name-raw_name : (node field : String) → is_mapped_name (raw_name node field) ≡ false
  unfolding is_mapped_name
  is_mapped_name-raw_name node field = rw (contains_char-append ":" node field) refl

  lookup_mapping-raw_name :
      (found : Found w) (node field : String)
      → contains_char b':' node ≡ false
      → get_mapping_for_raw m.mapping node field ≡ some found
      → lookup_mapping w m (raw_name node field) ≡ ok found
  unfolding lookup_mapping
  lookup_mapping-raw_name found node field plain h =
      rw (is_mapped_name-raw_name node field, split_once-append ":" node field plain, h) refl

  set_value-raw_name :
      (node field : String) (value : JsonValue w)
      → set_value w m (raw_name node field) value ≡ set_raw_value w m (raw_name node field) value
  unfolding set_value
  set_value-raw_name node field value = rw (is_mapped_name-raw_name node field) refl

  -- In a state whose mapping passed `validate`, the nodes being the keys of a `BTreeMap`: the
  -- mapped name of an entry and its raw name are two names of one field, if the node's name has no
  -- colon. Both resolve to the entry; the latest raw value, the requests and the writes of raw
  -- values are the same by both.
  pub validate-AreSameField :
      (node : String) (entry : MappingEntry w.F64 w.TomlValue)
      → HasUniqueKeys m.mapping.mapping
      → validate ⦃d = w.double⦄ m.mapping ≡ ok tt
      → In (node, entry) (entries m.mapping.mapping)
      → contains_char b':' node ≡ false
      → AreSameField w m
          (record { node_name = node; mapping_entry = entry })
          entry.name
          (raw_name node entry.raw_field)
  validate-AreSameField node entry unique valid i plain =
      let found : Found w = record { node_name = node; mapping_entry = entry } in
      let (_, checked, _) = validate-Differ ⦃d = w.double⦄ m.mapping valid in
      let (named, raw) = validate-get_mapping ⦃d = w.double⦄ m.mapping node entry unique valid i in
      let by_name =
        lookup_mapping-name found entry.name
          (validate_entry-name ⦃d = w.double⦄ entry (
            All-In
              (λ (p : String × MappingEntry w.F64 w.TomlValue).
                validate_entry ⦃d = w.double⦄ p.1 ≡ ok tt)
              (node, entry) (entries m.mapping.mapping) checked i))
          named in
      let by_raw_name = lookup_mapping-raw_name found node entry.raw_field plain raw in
      let other = raw_name node entry.raw_field in
      record {
        by_name = by_name;
        by_raw_name = by_raw_name;
        reads = reads-agree found entry.name other by_name by_raw_name;
        requests = requests-agree found entry.name other by_name by_raw_name;
        writes = λ value.
            writes-agree found entry.name other by_name by_raw_name value
            ∙ ap to_option (sym (set_value-raw_name node entry.raw_field value));
      }
