-- ===== src/Sequence/Hold/Comparisons.antt =====
-- How the six comparisons relate, whatever the values, NaN included.
use ferro_flow.Prelude.{
  ◌≡◌, refl, sym, subst, String, true, false, not, ◌&&◌, ◌||◌, Option, none, some, arith, List, All,
  ◌↔◌, all_iff,
}
use mathlib.Core.Option.{some-injective}
use ferro_flow.Numbers.{Double}
use ferro_flow.Sequence.{
  FieldComparison, equal, not_eq, less, less_eq, greater, greater_eq, HoldCondition, conditional,
}
use ferro_flow.Sequence.Hold.{evaluate, evaluate_at, compare_values, should_hold}

module _ {F : Type 0} ⦃d : Double F⦄ where
  abbrev pub asks : String → FieldComparison → F → HoldCondition F
  asks field c value = record { field = field; comparison = c; value = value }

  -- For a field that has a value: at most one of `less`, `equal` and `greater` holds, `less_eq` and
  -- `greater_eq` are the unions with `equal`, and `not_eq` is the complement of `equal`.
  pub evaluate_partition :
      (get_value : String → Option F) (field : String) (value actual : F)
      → get_value field ≡ some actual
      → let holds = λ (c : FieldComparison). evaluate get_value (asks field c value) in
        (holds less_eq ≡ (holds less || holds equal))
        × (holds greater_eq ≡ (holds greater || holds equal))
        × (holds not_eq ≡ not (holds equal))
        × ((holds less && holds equal) ≡ false)
        × ((holds greater && holds equal) ≡ false)
        × ((holds less && holds greater) ≡ false)
  unfolding evaluate
  evaluate_partition get_value field value actual h = rw h (ground arith)

  evaluate_at_iff :
      (o : Option F) (c : HoldCondition F)
      → (evaluate_at o c ≡ true)
        ↔ ((actual : F) × (o ≡ some actual) × (compare_values c.comparison actual c.value ≡ true))
  evaluate_at_iff none c = (λ h. absurd (ground arith), λ h. absurd (ground (arith, h.1)))
  evaluate_at_iff (some a) c = (
    λ h. (a, refl, h),
    λ h.
        subst (λ x. compare_values c.comparison x c.value ≡ true) (sym (some-injective _ _ h.1))
          h.2,
  )

  -- A conditional hold stops the sequence exactly when every condition's field has a value and
  -- compares as asked; a field without a value never holds, under no comparison.
  pub should_hold_iff :
      (get_value : String → Option F) (conditions : List (HoldCondition F))
      → (should_hold get_value (conditional conditions) ≡ true)
        ↔ All
            (λ (c : HoldCondition F).
              (actual : F) × (get_value c.field ≡ some actual)
              × (compare_values c.comparison actual c.value ≡ true))
            conditions
  unfolding should_hold evaluate
  should_hold_iff get_value conditions =
      all_iff (evaluate get_value) _ (λ c. evaluate_at_iff (get_value c.field) c) conditions
