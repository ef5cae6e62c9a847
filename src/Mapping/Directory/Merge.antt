-- ===== src/Mapping/Directory/Merge.antt =====
-- The merge of the mapping files neither loses an entry nor adds one.
use ferro_flow.Prelude.{
  ◌≡◌, refl, sym, ap, ◌↔◌, ◌⊎◌, inl, inr, String, List, [], ◌∷◌, ◌++◌, ◌==◌, string_eq, In,
  Bool-cases, subst, arith, Option, none, some, Result, ok, err, ensure, is_empty, not, keep,
  >>=-eq-ok,
}
use ferro_flow.Prelude.Text.{str_ltb}
use ferro_flow.Numbers.{Double}
use ferro_flow.Mapping.{Mapping, MappingEntry}
use ferro_flow.Mapping.Entry.Types.{ok-injective}
use ferro_flow.Mapping.Validation.{validate, map_err}
use ferro_flow.Mapping.Validation.Seen.{in_node, entries}
use ferro_flow.Mapping.Directory.{
  invalid_mapping, no_toml_files, MappingFile, insert_sorted, sort, extend_entry, merge,
  parse_mapping, load_mapping_file, load_files, load_mapping_directory,
}

In-append : {A : Type 0} (x : A) (xs ys : List A) → In x (xs ++ ys) ↔ (In x xs ⊎ In x ys)
In-append x [] ys = (λ i. inr i, λ s. elim s [ inl i ↦ absurd i | inr i ↦ i ])
In-append x (y ∷ xs) ys =
    let (to, from) = In-append x xs ys in
    (
      λ i. elim i [
        | inl e ↦ inl (inl e)
        | inr j ↦ elim (to j) [ inl k ↦ inl (inr k) | inr k ↦ inr k ]
      ],
      λ s. elim s [
        | inl i ↦ elim i [ inl e ↦ inl e | inr j ↦ inr (from (inl j)) ]
        | inr k ↦ inr (from (inr k))
      ],
    )

in_node-append :
    {E : Type 0} (node : String) (xs ys : List E)
    → in_node node (xs ++ ys) ≡ in_node node xs ++ in_node node ys
in_node-append node [] ys = refl
in_node-append node (x ∷ xs) ys = ap (◌∷◌ (node, x)) (in_node-append node xs ys)

module _ {F V : Type 0} where
  In-extend_entry :
      (p : String × MappingEntry F V) (node : String) (fields : List (MappingEntry F V))
      (m : List (String × List (MappingEntry F V)))
      → In p (entries (extend_entry node fields m))
        ↔ (In p (in_node node fields) ⊎ In p (entries m))
  unfolding extend_entry
  In-extend_entry p node fields [] = In-append p (in_node node fields) []
  In-extend_entry p node fields ((n, old) ∷ rest) = elim (Bool-cases (n == node)) [
    | inl e ↦
        let same : n ≡ node = (string_eq.same_iff n node).0 e in
        rw (e, same, in_node-append node old fields)
          (ground (
            arith,
            In-append p (in_node node old ++ in_node node fields) (entries rest),
            In-append p (in_node node old) (in_node node fields),
            In-append p (in_node node old) (entries rest),
          ))
    | inr e ↦ elim (Bool-cases (str_ltb node n)) [
      | inl l ↦ rw (e, l) (In-append p (in_node node fields) (in_node n old ++ entries rest))
      | inr l ↦
          rw (e, l)
            (ground (
              arith,
              In-append p (in_node n old) (entries (extend_entry node fields rest)),
              In-append p (in_node n old) (entries rest),
              In-extend_entry p node fields rest,
            ))
    ]
  ]

  In-merge :
      (p : String × MappingEntry F V) (combined m : List (String × List (MappingEntry F V)))
      → In p (entries (merge combined m)) ↔ (In p (entries combined) ⊎ In p (entries m))
  unfolding merge
  In-merge p combined [] = (λ i. inl i, λ s. elim s [ inl i ↦ i | inr i ↦ absurd i ])
  In-merge p combined ((node, fields) ∷ rest) = ground (
    arith,
    In-merge p (extend_entry node fields combined) rest,
    In-extend_entry p node fields combined,
    In-append p (in_node node fields) (entries rest),
  )

-- The entries of the files, each with its node.
abbrev pub content_entries :
    {F V : Type 0} → Option (Option (Mapping F V)) → List (String × MappingEntry F V)
content_entries (some (some m)) = entries m.mapping
content_entries _ = []

abbrev pub file_entries : {F V : Type 0} → List (MappingFile F V) → List (String × MappingEntry F V)
file_entries [] = []
file_entries (f ∷ fs) = content_entries f.content ++ file_entries fs

module _ {F V : Type 0} where
  In-insert_sorted :
      (p : String × MappingEntry F V) (f : MappingFile F V) (fs : List (MappingFile F V))
      → In p (file_entries (insert_sorted f fs))
        ↔ (In p (content_entries f.content) ⊎ In p (file_entries fs))
  unfolding insert_sorted
  In-insert_sorted p f [] = In-append p (content_entries f.content) []
  In-insert_sorted p f (g ∷ gs) = elim (Bool-cases (str_ltb g.path f.path)) [
    | inl e ↦ rw e (
        ground (
          arith,
          In-append p (content_entries g.content) (file_entries (insert_sorted f gs)),
          In-append p (content_entries g.content) (file_entries gs),
          In-insert_sorted p f gs,
        ))
    | inr e ↦
        rw e
          (In-append p (content_entries f.content) (content_entries g.content ++ file_entries gs))
  ]

  In-sort :
      (p : String × MappingEntry F V) (fs : List (MappingFile F V))
      → In p (file_entries (sort fs)) ↔ In p (file_entries fs)
  unfolding sort
  In-sort p [] = (λ i. i, λ i. i)
  In-sort p (f ∷ fs) = ground (
    arith,
    In-insert_sorted p f (sort fs),
    In-sort p fs,
    In-append p (content_entries f.content) (file_entries fs),
  )

map_err-ok : {E A B : Type 0} (f : E → B) (r : Result E A) {a : A} → map_err f r ≡ ok a → r ≡ ok a
map_err-ok f (ok b) h = ap ok (ok-injective h)
map_err-ok f (err e) h = absurd (ground arith)

module _ {F V : Type 0} ⦃d : Double F⦄ where
  parse_mapping-content :
      (o : Option (Mapping F V)) {m : Mapping F V} → parse_mapping o ≡ ok m → o ≡ some m
  unfolding parse_mapping
  parse_mapping-content none h = absurd (ground arith)
  parse_mapping-content (some c) h =
      let (u, e, k) = >>=-eq-ok (map_err invalid_mapping (validate c)) (λ u. ok c) h in
      ap some (ok-injective k)

  load_mapping_file-content :
      (o : Option (Option (Mapping F V))) {m : Mapping F V}
      → load_mapping_file o ≡ ok m
      → o ≡ some (some m)
  unfolding load_mapping_file
  load_mapping_file-content none h = absurd (ground arith)
  load_mapping_file-content (some parsed) h = ap some (parse_mapping-content parsed h)

  load_files-entries :
      (combined : Mapping F V) (fs : List (MappingFile F V)) {m : Mapping F V}
      → load_files combined fs ≡ ok m
      → (p : String × MappingEntry F V)
      → In p (entries m.mapping) ↔ (In p (entries combined.mapping) ⊎ In p (file_entries fs))
  unfolding load_files
  load_files-entries combined [] h p =
      rw (sym (ok-injective h)) (λ i. inl i, λ s. elim s [ inl i ↦ i | inr i ↦ absurd i ])
  load_files-entries combined (f ∷ fs) h p =
      let (c, e, k) = >>=-eq-ok (load_mapping_file f.content) _ h in
      let content = load_mapping_file-content f.content e in
      rw content (
        ground (
          arith,
          load_files-entries (record { mapping = merge combined.mapping c.mapping }) fs k p,
          In-merge p combined.mapping c.mapping,
          In-append p (entries c.mapping) (file_entries fs),
        ))

  -- A mapping that is loaded from a directory passed `validate`, and it has exactly the entries of
  -- the directory's TOML files, each under its node: none is lost in the merge and none is added.
  pub load_mapping_directory-entries :
      (files : List (MappingFile F V)) {m : Mapping F V}
      → load_mapping_directory (some files) ≡ ok m
      → (validate m ≡ ok tt)
        × ((p : String × MappingEntry F V)
            → In p (entries m.mapping)
              ↔ In p (file_entries (keep (λ (f : MappingFile F V). f.is_toml_file) files)))
  unfolding load_mapping_directory
  load_mapping_directory-entries files {m} h =
      let toml = keep (λ (f : MappingFile F V). f.is_toml_file) files in
      let (u, e, k) = >>=-eq-ok (ensure (not (is_empty (sort toml))) no_toml_files) _ h in
      let (combined, l, n) = >>=-eq-ok (load_files (record { mapping = [] }) (sort toml)) _ k in
      let (v, valid, q) = >>=-eq-ok (map_err invalid_mapping (validate combined)) _ n in
      let same : combined ≡ m = ok-injective q in
      (
        subst (λ (c : Mapping F V). validate c ≡ ok tt) same
            (map_err-ok invalid_mapping (validate combined) valid),
        λ p.
            subst (λ (c : Mapping F V). In p (entries c.mapping) ↔ In p (file_entries toml)) same
              (ground (
                arith,
                load_files-entries (record { mapping = [] }) (sort toml) l p,
                In-sort p toml,
              )),
      )
