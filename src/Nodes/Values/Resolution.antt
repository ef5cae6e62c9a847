-- ===== src/Nodes/Values/Resolution.antt =====
-- What a field name resolves to: a field that a registered node has registered.
use ferro_flow.Prelude.{
  ℕ, ◌≡◌, refl, String, Bool, true, List, [], ◌∷◌, Option, none, some, ok, or_fail, find, find_map,
  In, ◌==◌, string_eq, Bool-cases, Option-cases, subst, ◌∙◌, inl, inr, arith, >>=-eq-ok,
}
use ferro_flow.Platform.{Platform}
use ferro_flow.Mapping.Entry.Types.{ok-injective}
use ferro_flow.Nodes.CanNode.{CanNode, FieldInfo}
use ferro_flow.Nodes.Manager.{NodeManager}
use ferro_flow.Nodes.Values.{
  field_not_registered, ResolvedMappingTarget, find_field, fields_of, target_at, Found, target_in,
  resolve_mapping_target, lookup_mapping, resolve_mapping_by_name,
}

find-In :
    {A : Type 0} (p : A → Bool) (xs : List A) {x : A} → find p xs ≡ some x → In x xs × (p x ≡ true)
find-In p [] h = absurd (ground arith)
find-In p (x ∷ xs) h = elim (Bool-cases (p x)) [
  | inl e ↦ (inl (ground arith), ground arith)
  | inr e ↦ let (i, t) = find-In p xs (rw e at h) in (inr i, t)
]

or_fail-eq-ok : {E A : Type 0} (o : Option A) (e : E) {a : A} → or_fail o e ≡ ok a → o ≡ some a
or_fail-eq-ok none e h = absurd (ground arith)
or_fail-eq-ok (some a) e h = ground arith

-- The node and the field of a target.
pub record IsTarget (w : Platform) (m : NodeManager w) (found : Found w)
    (target : ResolvedMappingTarget) : Type 0 where
  pub node : CanNode w.F32
  pub info : FieldInfo
  pub registered : In (target.node_id, node) m.can_nodes
  pub named : node.registration_info.device_name ≡ found.node_name
  pub field : In (target.field_id, info) (fields_of found.mapping_entry.field_type node)
  pub raw_name : info.name ≡ found.mapping_entry.raw_field
  pub typed : info.data_type ≡ target.data_type

pub some-injective : {A : Type 0} {a b : A} → ◌≡◌ {A = Option A} (some a) (some b) → a ≡ b
some-injective h = ground arith

module _ (w : Platform) where
  target_at-IsTarget :
      (m : NodeManager w) (found : Found w) (node_id : ℕ) (node : CanNode w.F32)
      (o : Option (ℕ × FieldInfo)) {target : ResolvedMappingTarget}
      → In (node_id, node) m.can_nodes
      → node.registration_info.device_name ≡ found.node_name
      → find_field found.mapping_entry.raw_field (fields_of found.mapping_entry.field_type node) ≡ o
      → target_at node_id o ≡ some target
      → IsTarget w m found target
  target_at-IsTarget m found node_id node none i n f h = absurd (ground arith)
  target_at-IsTarget m found node_id node (some (id, info)) i n f h =
      let (j, e) =
        find-In (λ (g : ℕ × FieldInfo). g.1.name == found.mapping_entry.raw_field)
          (fields_of found.mapping_entry.field_type node) f in
      subst (IsTarget w m found) (some-injective h) (record {
        node = node;
        info = info;
        registered = i;
        named = n;
        field = j;
        raw_name = (string_eq.same_iff info.name found.mapping_entry.raw_field).0 e;
        typed = refl;
      })

  target_in-IsTarget :
      (m : NodeManager w) (found : Found w) (node_id : ℕ) (node : CanNode w.F32)
      {target : ResolvedMappingTarget}
      → In (node_id, node) m.can_nodes
      → target_in w found (node_id, node) ≡ some target
      → IsTarget w m found target
  target_in-IsTarget m found node_id node i h =
      elim (Bool-cases (node.registration_info.device_name == found.node_name)) [
        | inl e ↦
            target_at-IsTarget m found node_id node _ i
              ((string_eq.same_iff node.registration_info.device_name found.node_name).0 e) refl
              (rw e at h)
        | inr e ↦ absurd (none-some (rw e at h))
      ]
    where
      none-some : {A : Type 0} {a : A} → ◌≡◌ {A = Option A} none (some a) → ⊥
      none-some q = absurd (ground arith)

  find_map-IsTarget :
      (m : NodeManager w) (found : Found w) (nodes : List (ℕ × CanNode w.F32))
      {target : ResolvedMappingTarget}
      → ((n : ℕ × CanNode w.F32) → In n nodes → In n m.can_nodes)
      → find_map (target_in w found) nodes ≡ some target
      → IsTarget w m found target
  find_map-IsTarget m found [] s h = absurd (ground arith)
  find_map-IsTarget m found ((node_id, node) ∷ rest) s h =
      elim (Option-cases (target_in w found (node_id, node))) [
        | inl e ↦ find_map-IsTarget m found rest (λ n j. s n (inr j)) (rw e at h)
        | inr (t, e) ↦
            target_in-IsTarget m found node_id node (s (node_id, node) (inl refl)) (e ∙ rw e at h)
      ]

  -- A name that resolves does so to a node that is registered under the mapping's node name, and to
  -- a field that this node registered, under the mapping's raw name, with the mapping's kind
  -- (telemetry or parameter) and with the data type of the target.
  pub resolve_mapping_by_name-IsTarget :
      (m : NodeManager w) (name : String) {found : Found w} {target : ResolvedMappingTarget}
      → resolve_mapping_by_name w m name ≡ ok (found, target)
      → (lookup_mapping w m name ≡ ok found) × IsTarget w m found target
  unfolding resolve_mapping_by_name resolve_mapping_target
  resolve_mapping_by_name-IsTarget m name h =
      let (f, e, k) = >>=-eq-ok (lookup_mapping w m name) _ h in
      let (t, r, q) =
        >>=-eq-ok (or_fail (resolve_mapping_target w m f) (field_not_registered name)) _ k in
      subst
        (λ (p : Found w × ResolvedMappingTarget).
          (lookup_mapping w m name ≡ ok p.0) × IsTarget w m p.0 p.1)
        (ok-injective q)
        (
          e,
          find_map-IsTarget m f m.can_nodes (λ n i. i)
              (or_fail-eq-ok (resolve_mapping_target w m f) (field_not_registered name) r),
        )
