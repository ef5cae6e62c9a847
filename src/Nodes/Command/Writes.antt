-- ===== src/Nodes/Command/Writes.antt =====
-- A write that is accepted is one request to a parameter, with a value of the parameter's type.
use ferro_flow.Prelude.{
  ◌≡◌, refl, sym, subst, String, Bool, true, false, List, [], ◌∷◌, Result, ok, err, ◌>>=◌, ◌>>◌,
  ensure, ℤ, Bool-cases, inl, inr, arith, >>=-eq-ok, ensure_iff,
}
use ferro_flow.Platform.{Platform, CanDataType, CanDataValue}
use ferro_flow.Messages.{CanMessage}
use ferro_flow.Events.{Event}
use ferro_flow.Mapping.{FieldType, telemetry, parameter}
use ferro_flow.Mapping.Entry.{ValueError, fits_signed, fits_unsigned, raw_value_from_mapped}
use ferro_flow.Mapping.Entry.Types.{
  HasType, fits_signed-IsSigned, fits_unsigned-lt, ok-injective, wrap-eq-ok, wrap-HasType,
  raw_value_from_mapped-HasType,
}
use ferro_flow.Nodes.Manager.{NodeManager}
use ferro_flow.Nodes.Values.{
  AccessError, integer_out_of_range, not_writable, ResolvedMappingTarget, Found, is_mapped_name,
  resolve_mapping_by_name, convert_error,
}
use ferro_flow.Nodes.Values.Resolution.{IsTarget, resolve_mapping_by_name-IsTarget}
use ferro_flow.Nodes.Command.{
  is_parameter, JsonValue, dispatch_parameter_set, json_value_to_f64, json_value_as_i64,
  json_value_to_integer, json_value_as_bool, json_value_to_can_data_value, set_mapped_value,
  set_raw_value, set_value,
}

convert_error-eq-ok :
    {A : Type 0} (r : Result ValueError A) {a : A} → convert_error r ≡ ok a → r ≡ ok a
convert_error-eq-ok (ok b) h = ground arith
convert_error-eq-ok (err e) h = absurd (ground arith)

is_parameter_lem : (t : FieldType) → is_parameter t ≡ true → t ≡ parameter
is_parameter_lem telemetry h = absurd (ground arith)
is_parameter_lem parameter h = refl

module _ (w : Platform) where
  open w use {F64, F32}

  json_value_to_integer-fits :
      (fits : ℤ → Bool) (value : JsonValue w) (n : ℤ)
      → json_value_to_integer w fits value ≡ ok n
      → fits n ≡ true
  unfolding json_value_to_integer
  json_value_to_integer-fits fits value n h =
      let (a, e, k) = >>=-eq-ok (json_value_as_i64 w value) _ h in ensured (fits a) a k refl
    where
      ensured :
          (b : Bool) (a : ℤ)
          → ◌≡◌ {A = Result AccessError ℤ} (ensure b integer_out_of_range >>= λ _. ok a) (ok n)
          → b ≡ fits a
          → fits n ≡ true
      ensured true a k e = subst (λ i. fits i ≡ true) (ok-injective k) (sym e)
      ensured false a k e = absurd (ground arith)

  json_value_to_can_data_value-HasType :
      (value : JsonValue w) (t : CanDataType) {v : CanDataValue F32}
      → json_value_to_can_data_value w value t ≡ ok v
      → HasType v t
  unfolding json_value_to_can_data_value
  json_value_to_can_data_value-HasType value CanDataType.float32 h =
      let (a, e, q) = wrap-eq-ok _ (json_value_to_f64 w value) h in rw q tt
  json_value_to_can_data_value-HasType value CanDataType.int32 h =
      wrap-HasType (fits_signed 0x8000_0000) _ CanDataType.int32 _
        (json_value_to_integer-fits (fits_signed 0x8000_0000) value)
        (λ n f. fits_signed-IsSigned 0x8000_0000 n (omega arith) f) h
  json_value_to_can_data_value-HasType value CanDataType.int16 h =
      wrap-HasType (fits_signed 0x8000) _ CanDataType.int16 _
        (json_value_to_integer-fits (fits_signed 0x8000) value)
        (λ n f. fits_signed-IsSigned 0x8000 n (omega arith) f) h
  json_value_to_can_data_value-HasType value CanDataType.int8 h =
      wrap-HasType (fits_signed 0x80) _ CanDataType.int8 _
        (json_value_to_integer-fits (fits_signed 0x80) value)
        (λ n f. fits_signed-IsSigned 0x80 n (omega arith) f) h
  json_value_to_can_data_value-HasType value CanDataType.uint32 h =
      wrap-HasType (fits_unsigned 0x1_0000_0000) _ CanDataType.uint32 _
        (json_value_to_integer-fits (fits_unsigned 0x1_0000_0000) value)
        (λ n f. fits_unsigned-lt 0x1_0000_0000 n (omega arith) f) h
  json_value_to_can_data_value-HasType value CanDataType.uint16 h =
      wrap-HasType (fits_unsigned 0x1_0000) _ CanDataType.uint16 _
        (json_value_to_integer-fits (fits_unsigned 0x1_0000) value)
        (λ n f. fits_unsigned-lt 0x1_0000 n (omega arith) f) h
  json_value_to_can_data_value-HasType value CanDataType.uint8 h =
      wrap-HasType (fits_unsigned 0x100) _ CanDataType.uint8 _
        (json_value_to_integer-fits (fits_unsigned 0x100) value)
        (λ n f. fits_unsigned-lt 0x100 n (omega arith) f) h
  json_value_to_can_data_value-HasType value CanDataType.boolean h =
      let (a, e, q) = wrap-eq-ok _ (json_value_as_bool w value) h in rw q tt

  -- The events of an accepted write: one request, to the parameter that the name resolves to.
  pub record IsWrite (m : NodeManager w) (name : String) (events : List (Event w)) : Type 0 where
    pub found : Found w
    pub target : ResolvedMappingTarget
    pub value : CanDataValue F32
    pub named : resolve_mapping_by_name w m name ≡ ok (found, target)
    pub resolved : IsTarget w m found target
    pub writable : found.mapping_entry.field_type ≡ parameter
    pub typed : HasType value target.data_type
    pub one_request :
        events
        ≡ Event.send_can_message target.node_id (
            CanMessage.parameter_set_req (record { parameter_id = target.field_id; value = value }))
          ∷ []

  IsWrite-parts :
      (m : NodeManager w) (name : String) (found : Found w) (target : ResolvedMappingTarget)
      (value : Result AccessError (CanDataValue F32)) {events : List (Event w)}
      → resolve_mapping_by_name w m name ≡ ok (found, target)
      → ((v : CanDataValue F32) → value ≡ ok v → HasType v target.data_type)
      → (do
        ensure (is_parameter found.mapping_entry.field_type) (not_writable name)
        raw_value ← value
        ok (dispatch_parameter_set w target raw_value))
        ≡ ok events
      → IsWrite m name events
  unfolding dispatch_parameter_set
  IsWrite-parts m name found target value e t h =
      let (u, g, k) =
        >>=-eq-ok (ensure (is_parameter found.mapping_entry.field_type) (not_writable name)) _ h in
      let (v, r, q) = >>=-eq-ok value _ k in
      record {
        found = found;
        target = target;
        value = v;
        named = e;
        resolved = (resolve_mapping_by_name-IsTarget w m name e).1;
        writable =
            is_parameter_lem found.mapping_entry.field_type
              ((ensure_iff _ (not_writable name)).0 g);
        typed = t v r;
        one_request = sym (ok-injective q);
      }

  -- A write that is accepted, by the mapped name or by the raw one, dispatches exactly one request,
  -- which sets a registered parameter that the name resolves to, to a value of the type that the
  -- node registered for it.
  pub set_value-IsWrite :
      (m : NodeManager w) (name : String) (value : JsonValue w) {events : List (Event w)}
      → set_value w m name value ≡ ok events
      → IsWrite m name events
  unfolding set_value set_mapped_value set_raw_value
  set_value-IsWrite m name value h = elim (Bool-cases (is_mapped_name name)) [
    | inl n ↦
        let (mapped, _, k) = >>=-eq-ok (json_value_to_f64 w value) _ (rw n at h) in
        let ((found, target), e, c) = >>=-eq-ok (resolve_mapping_by_name w m name) _ k in
        IsWrite-parts m name found target
          (convert_error (raw_value_from_mapped w found.mapping_entry mapped target.data_type)) e
          (λ v r.
            (raw_value_from_mapped-HasType w found.mapping_entry mapped target.data_type).0 v
              (convert_error-eq-ok _ r))
          c
    | inr n ↦
        let ((found, target), e, c) = >>=-eq-ok (resolve_mapping_by_name w m name) _ (rw n at h) in
        IsWrite-parts m name found target (json_value_to_can_data_value w value target.data_type) e
          (λ v r. json_value_to_can_data_value-HasType value target.data_type r) c
  ]
