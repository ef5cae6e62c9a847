-- ===== src/Mapping/Validation/Seen.antt =====
-- What `validate` has established when it accepts a mapping.
use ferro_flow.Prelude.{
  ◌≡◌, ◌≢◌, String, false, not, List, [], ◌∷◌, ◌++◌, ok, ensure, Eq, string_eq, pair_eq, beq_false,
  All, All-map, Pairs, arith, >>=-eq-ok, subst,
}
use ferro_flow.Prelude.Text.{is_blank}
use ferro_flow.Numbers.{Double}
use ferro_flow.Mapping.{Mapping, MappingEntry}
use ferro_flow.Mapping.Validation.{
  MappingError, validate_entry, member, SeenNames, add_names, validate_field, validate_fields,
  validate_nodes, validate,
}

-- Not found means different from all.
member-false :
    {A : Type 0} ⦃e : Eq A⦄ (a : A) (xs : List A) → member a xs ≡ false → All (λ x. x ≢ a) xs
unfolding member
member-false a [] h = tt
member-false ⦃e⦄ a (x ∷ xs) h = (beq_false x a (ground arith), member-false a xs (ground arith))

-- The entries of all nodes, each with its node's name, in the order of the check.
abbrev pub in_node : {E : Type 0} → String → List E → List (String × E)
in_node node [] = []
in_node node (e ∷ es) = (node, e) ∷ in_node node es

abbrev pub entries : {E : Type 0} → List (String × List E) → List (String × E)
entries [] = []
entries ((node, fields) ∷ rest) = in_node node fields ++ entries rest

module _ {F V : Type 0} where
  abbrev pub name_of : String × MappingEntry F V → String
  name_of p = p.1.name

  abbrev pub raw_of : String × MappingEntry F V → String × String
  raw_of p = (p.0, p.1.raw_field)

  abbrev pub Differ : String × MappingEntry F V → String × MappingEntry F V → Type 0
  Differ p q = (name_of p ≢ name_of q) × (raw_of p ≢ raw_of q)

module _ {F V : Type 0} ⦃d : Double F⦄ where
  -- Each entry is valid and new to what stands before it.
  abbrev Fresh : List (String × MappingEntry F V) → SeenNames → Type 0
  Fresh [] seen = Unit
  Fresh (p ∷ ps) seen =
      (validate_entry p.1 ≡ ok tt)
      × (member (raw_of p) seen.raw_fields ≡ false)
      × (member (name_of p) seen.names ≡ false)
      × Fresh ps (add_names p.0 p.1 seen)

  abbrev add_all : List (String × MappingEntry F V) → SeenNames → SeenNames
  add_all [] seen = seen
  add_all (p ∷ ps) seen = add_all ps (add_names p.0 p.1 seen)

  validate_field-eq-ok :
      (node : String) (entry : MappingEntry F V) (seen : SeenNames) {seen' : SeenNames}
      → validate_field node entry seen ≡ ok seen'
      → (validate_entry entry ≡ ok tt)
        × (member (node, entry.raw_field) seen.raw_fields ≡ false)
        × (member entry.name seen.names ≡ false)
        × (seen' ≡ add_names node entry seen)
  unfolding validate_field
  validate_field-eq-ok node entry seen h = ground arith

  Fresh-append :
      (ps qs : List (String × MappingEntry F V)) (seen : SeenNames)
      → Fresh ps seen
      → Fresh qs (add_all ps seen)
      → Fresh (ps ++ qs) seen
  Fresh-append [] qs seen f g = g
  Fresh-append (p ∷ ps) qs seen (v, r, n, f) g =
      (v, r, n, Fresh-append ps qs (add_names p.0 p.1 seen) f g)

  validate_fields-Fresh :
      (node : String) (fields : List (MappingEntry F V)) (seen : SeenNames) {seen' : SeenNames}
      → validate_fields node fields seen ≡ ok seen'
      → Fresh (in_node node fields) seen × (seen' ≡ add_all (in_node node fields) seen)
  unfolding validate_fields
  validate_fields-Fresh node [] seen h = (tt, ground arith)
  validate_fields-Fresh node (entry ∷ rest) seen {seen'} h =
      let (mid, first, more) = >>=-eq-ok (validate_field node entry seen) _ h in
      let (v, r, n, e) = validate_field-eq-ok node entry seen first in
      let (f, g) =
        validate_fields-Fresh node rest (add_names node entry seen)
          (subst (λ s. validate_fields node rest s ≡ ok seen') e more) in
      ((v, r, n, f), g)

  validate_nodes-Fresh :
      (nodes : List (String × List (MappingEntry F V))) (seen : SeenNames)
      → validate_nodes nodes seen ≡ ok tt
      → Fresh (entries nodes) seen
        × All (λ (n : String × List (MappingEntry F V)). is_blank n.0 ≡ false) nodes
  unfolding validate_nodes
  validate_nodes-Fresh [] seen h = (tt, tt)
  validate_nodes-Fresh ((node, fields) ∷ rest) seen h =
      let (u, named, h') =
        >>=-eq-ok (ensure (not (is_blank node)) MappingError.empty_node_name) _ h in
      let (mid, first, more) = >>=-eq-ok (validate_fields node fields seen) _ h' in
      let (f, e) = validate_fields-Fresh node fields seen first in
      let (g, all) =
        validate_nodes-Fresh rest (add_all (in_node node fields) seen)
          (subst (λ s. validate_nodes rest s ≡ ok tt) e more) in
      (Fresh-append (in_node node fields) (entries rest) seen f g, (ground arith, all))

  abbrev NewTo : SeenNames → String × MappingEntry F V → Type 0
  NewTo seen p = All (λ n. n ≢ name_of p) seen.names × All (λ r. r ≢ raw_of p) seen.raw_fields

  Fresh-NewTo :
      (ps : List (String × MappingEntry F V)) (seen : SeenNames)
      → Fresh ps seen
      → All (NewTo seen) ps
  Fresh-NewTo [] seen f = tt
  Fresh-NewTo (p ∷ ps) seen (v, r, n, f) = (
    (member-false _ seen.names n, member-false _ seen.raw_fields r),
    All-map ps (λ q new. (new.0.1, new.1.1)) (Fresh-NewTo ps (add_names p.0 p.1 seen) f),
  )

  Fresh-Differ :
      (ps : List (String × MappingEntry F V)) (seen : SeenNames)
      → Fresh ps seen
      → Pairs Differ ps × All (λ (p : String × MappingEntry F V). validate_entry p.1 ≡ ok tt) ps
  Fresh-Differ [] seen f = (tt, tt)
  Fresh-Differ (p ∷ ps) seen (v, r, n, f) =
      let (pairs, valid) = Fresh-Differ ps (add_names p.0 p.1 seen) f in
      (
        (
          All-map ps (λ q new. (new.0.0, new.1.0)) (Fresh-NewTo ps (add_names p.0 p.1 seen) f),
          pairs,
        ),
        (v, valid),
      )

  -- If `validate` accepts a mapping, no node name is blank, every entry passes its own checks, and
  -- any two entries differ in the mapped name and in the pair of node and raw field.
  pub validate-Differ :
      (m : Mapping F V)
      → validate m ≡ ok tt
      → All (λ (n : String × List (MappingEntry F V)). is_blank n.0 ≡ false) m.mapping
        × All (λ (p : String × MappingEntry F V). validate_entry p.1 ≡ ok tt) (entries m.mapping)
        × Pairs Differ (entries m.mapping)
  unfolding validate
  validate-Differ m h =
      let start : SeenNames = record { names = []; raw_fields = [] } in
      let (fresh, named) = validate_nodes-Fresh m.mapping start h in
      let (pairs, valid) = Fresh-Differ (entries m.mapping) start fresh in (named, valid, pairs)
