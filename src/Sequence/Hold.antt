-- ===== src/Sequence/Hold.antt =====
-- Hold conditions: `HoldCondition::evaluate` and the decision of the runner whether to hold. The
-- node manager's `get_value` is an argument, the number that it returns for a field name.
pub mod Comparisons
use ferro_flow.Prelude.{
  String, Bool, true, false, not, ◌&&◌, ◌||◌, Option, none, some, all, if◌then◌else◌,
}
use ferro_flow.Numbers.{Double, le, lt}
use ferro_flow.Sequence.{
  FieldComparison, equal, not_eq, less, less_eq, greater, greater_eq, HoldCondition, HoldMode,
  always, conditional,
}

module _ {F : Type 0} ⦃d : Double F⦄ where
  unfoldable pub f64_approx_eq : F → F → F → Bool
  f64_approx_eq a b epsilon = le (if lt b a then d.sub a b else d.sub b a) epsilon

  unfoldable pub compare_values : FieldComparison → F → F → Bool
  compare_values equal actual value = f64_approx_eq actual value d.micro
  compare_values not_eq actual value = not (f64_approx_eq actual value d.micro)
  compare_values less actual value = lt actual value && not (f64_approx_eq actual value d.micro)
  compare_values less_eq actual value = lt actual value || f64_approx_eq actual value d.micro
  compare_values greater actual value = lt value actual && not (f64_approx_eq actual value d.micro)
  compare_values greater_eq actual value = lt value actual || f64_approx_eq actual value d.micro

  abbrev evaluate_at : Option F → HoldCondition F → Bool
  evaluate_at none c = false
  evaluate_at (some actual) c = compare_values c.comparison actual c.value

  unfoldable pub evaluate : (String → Option F) → HoldCondition F → Bool
  unfolding compare_values
  evaluate get_value c = evaluate_at (get_value c.field) c

  unfoldable pub should_hold : (String → Option F) → HoldMode F → Bool
  should_hold get_value always = true
  should_hold get_value (conditional conditions) = all (evaluate get_value) conditions
