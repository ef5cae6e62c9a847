-- ===== src/Mapping/Lookup/Found.antt =====
-- In a validated mapping each entry is found, by its name and by its node and raw field.
use ferro_flow.Prelude.{
  ◌≡◌, ◌≢◌, refl, String, Bool, List, [], ◌∷◌, ◌++◌, Option, none, some, find, find_map, or_else,
  ok, ◌==◌, string_eq, beq_refl, All-In, Pairs, Pairs-append_inv, In, ◌⊎◌, inl, inr, Bool-cases,
  sym, ap, subst, ◌∙◌,
}
use ferro_flow.Prelude.Assoc.{lookup}
use ferro_flow.Numbers.{Double}
use ferro_flow.Mapping.{Mapping, MappingEntry}
use ferro_flow.Mapping.Validation.{validate}
use ferro_flow.Mapping.Validation.Seen.{in_node, entries, Differ, name_of, validate-Differ}
use ferro_flow.Mapping.Lookup.{
  MappingLookupResult, name_in_node, get_mapping_for_name, get_mapping_for_raw,
}

module _ {F V : Type 0} where
  abbrev as_result : Option (String × MappingEntry F V) → Option (MappingLookupResult F V)
  as_result none = none
  as_result (some (node, entry)) = some (record { node_name = node; mapping_entry = entry })

  abbrev has_name : String → String × MappingEntry F V → Bool
  has_name name p = p.1.name == name

  find-in_node :
      (name node : String) (fields : List (MappingEntry F V))
      (more : List (String × MappingEntry F V))
      → as_result (find (has_name name) (in_node node fields ++ more))
        ≡ or_else (name_in_node name (node, fields)) (as_result (find (has_name name) more))
  find-in_node name node [] more = refl
  find-in_node name node (f ∷ fs) more = elim (Bool-cases (f.name == name)) [
    | inl e ↦ rw e
    | inr e ↦ rw e (find-in_node name node fs more)
  ]

  -- The search over the nodes is one search over all entries.
  find_map-entries :
      (name : String) (nodes : List (String × List (MappingEntry F V)))
      → find_map (name_in_node name) nodes ≡ as_result (find (has_name name) (entries nodes))
  find_map-entries name [] = refl
  find_map-entries name ((node, fields) ∷ rest) =
      rw (find_map-entries name rest) (sym (find-in_node name node fields (entries rest)))

  find-name :
      (ps : List (String × MappingEntry F V)) (p : String × MappingEntry F V)
      → Pairs Differ ps
      → In p ps
      → find (has_name (name_of p)) ps ≡ some p
  find-name [] p d i = elim i [ ]
  find-name (q ∷ ps) p (d, ds) (inl e) = rw (e, beq_refl (name_of p))
  find-name (q ∷ ps) p (d, ds) (inr i) = elim (Bool-cases (q.1.name == name_of p)) [
    | inl hit ↦
        absurd ((All-In (Differ q) p ps d i).0 ((string_eq.same_iff (name_of q) (name_of p)).0 hit))
    | inr miss ↦ rw miss (find-name ps p ds i)
  ]

  -- `entries` at the node of one of the keys.
  In-in_node :
      (node : String) (fields : List (MappingEntry F V)) (more : List (String × MappingEntry F V))
      (p : String × MappingEntry F V)
      → In p (in_node node fields ++ more)
      → (In p.1 fields × (p.0 ≡ node)) ⊎ In p more
  In-in_node node [] more p i = inr i
  In-in_node node (f ∷ fs) more p (inl e) = inl (
    inl (ap (λ (q : String × MappingEntry F V). q.1) e),
    sym (ap (λ (q : String × MappingEntry F V). q.0) e),
  )
  In-in_node node (f ∷ fs) more p (inr i) = elim (In-in_node node fs more p i) [
    | inl (j, e) ↦ inl (inr j, e)
    | inr j ↦ inr j
  ]

  -- A `BTreeMap` has each key once.
  abbrev pub HasUniqueKeys : List (String × List (MappingEntry F V)) → Type 0
  HasUniqueKeys nodes = Pairs (λ (m n : String × List (MappingEntry F V)). m.0 ≢ n.0) nodes

  entries-key :
      (nodes : List (String × List (MappingEntry F V))) (p : String × MappingEntry F V)
      → In p (entries nodes)
      → (fields : List (MappingEntry F V)) × In (p.0, fields) nodes × In p.1 fields
  entries-key [] p i = elim i [ ]
  entries-key ((node, fields) ∷ rest) p i = elim (In-in_node node fields (entries rest) p i) [
    | inl (j, e) ↦ (fields, inl (ap (λ (n : String). (n, fields)) (sym e)), j)
    | inr j ↦ let (fs, k, l) = entries-key rest p j in (fs, inr k, l)
  ]

  lookup-In :
      (nodes : List (String × List (MappingEntry F V))) (node : String)
      (fields : List (MappingEntry F V))
      → HasUniqueKeys nodes
      → In (node, fields) nodes
      → lookup node nodes ≡ some fields
  unfolding lookup
  lookup-In [] node fields u i = elim i [ ]
  lookup-In ((n, fs) ∷ rest) node fields (u, us) (inl e) =
      let same : n ≡ node = ap (λ (q : String × List (MappingEntry F V)). q.0) e in
      let equal : fs ≡ fields = ap (λ (q : String × List (MappingEntry F V)). q.1) e in
      rw (same, beq_refl node) (ap some equal)
  lookup-In ((n, fs) ∷ rest) node fields (u, us) (inr i) = elim (Bool-cases (n == node)) [
    | inl hit ↦ absurd (All-In _ (node, fields) rest u i ((string_eq.same_iff n node).0 hit))
    | inr miss ↦ rw miss (lookup-In rest node fields us i)
  ]

  -- Within a node the raw fields tell the entries apart.
  in_node-raw :
      (node : String) (fields : List (MappingEntry F V)) (entry : MappingEntry F V)
      → Pairs Differ (in_node node fields)
      → In entry fields
      → find (λ (f : MappingEntry F V). f.raw_field == entry.raw_field) fields ≡ some entry
  in_node-raw node [] entry d i = elim i [ ]
  in_node-raw node (f ∷ fs) entry (d, ds) (inl e) = rw (e, beq_refl entry.raw_field)
  in_node-raw node (f ∷ fs) entry (d, ds) (inr i) =
      elim (Bool-cases (f.raw_field == entry.raw_field)) [
        | inl hit ↦ absurd (
            (All-In (Differ (node, f)) (node, entry) (in_node node fs) d (In-map node fs entry i)).1
              (ap (λ (r : String). (node, r))
                ((string_eq.same_iff f.raw_field entry.raw_field).0 hit)))
        | inr miss ↦ rw miss (in_node-raw node fs entry ds i)
      ]
    where
      In-map :
          (node : String) (fs : List (MappingEntry F V)) (entry : MappingEntry F V)
          → In entry fs
          → In (node, entry) (in_node node fs)
      In-map node [] entry i = elim i [ ]
      In-map node (f ∷ fs) entry (inl e) = inl (ap (λ (g : MappingEntry F V). (node, g)) e)
      In-map node (f ∷ fs) entry (inr i) = inr (In-map node fs entry i)

  entries-Differ :
      (nodes : List (String × List (MappingEntry F V))) (node : String)
      (fields : List (MappingEntry F V))
      → Pairs Differ (entries nodes)
      → In (node, fields) nodes
      → Pairs Differ (in_node node fields)
  entries-Differ [] node fields d i = elim i [ ]
  entries-Differ ((n, fs) ∷ rest) node fields d (inl e) =
      subst (λ (q : String × List (MappingEntry F V)). Pairs Differ (in_node q.0 q.1)) e
        (Pairs-append_inv Differ (in_node n fs) (entries rest) d).0
  entries-Differ ((n, fs) ∷ rest) node fields d (inr i) =
      entries-Differ rest node fields (Pairs-append_inv Differ (in_node n fs) (entries rest) d).1 i

module _ {F V : Type 0} ⦃d : Double F⦄ where
  -- In a mapping that passed `validate`, the lookup by name finds each entry under its node, and so
  -- does the lookup by node and raw field, the nodes being the keys of a `BTreeMap`.
  pub validate-get_mapping :
      (m : Mapping F V) (node : String) (entry : MappingEntry F V)
      → HasUniqueKeys m.mapping
      → validate m ≡ ok tt
      → In (node, entry) (entries m.mapping)
      → let result : MappingLookupResult F V = record { node_name = node; mapping_entry = entry } in
        (get_mapping_for_name m entry.name ≡ some result)
        × (get_mapping_for_raw m node entry.raw_field ≡ some result)
  unfolding get_mapping_for_name get_mapping_for_raw
  validate-get_mapping m node entry unique h i =
      let (_, _, differ) = validate-Differ m h in
      let (fields, key, within) = entries-key m.mapping (node, entry) i in
      let found =
        in_node-raw node fields entry (entries-Differ m.mapping node fields differ key) within in
      (
        find_map-entries entry.name m.mapping
            ∙ ap as_result (find-name (entries m.mapping) (node, entry) differ i),
        rw (lookup-In m.mapping node fields unique key, found),
      )
