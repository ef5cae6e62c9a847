-- ===== src/Mapping/Ranges.antt =====
-- The ranges and the logical rules of src/nodes/mapping.rs. Where `partial_cmp(..).unwrap()` would
-- panic the intersection is `none`.
pub mod Laws
pub mod Partition
use ferro_flow.Prelude.{
  ℕ, suc, ◌+◌, Bool, true, false, not, ◌&&◌, ◌||◌, List, [], ◌∷◌, ◌++◌, Option, none, some, Result,
  ok, err, ◌>>=◌, ◌>>◌, ensure, find, if◌then◌else◌,
}
use ferro_flow.Numbers.{Double, Order, less, equal, greater, le, lt, eq, fmin, fmax, partial_cmp}
use ferro_flow.Mapping.{LogicalRange, LogicalRule, MappingEntry}

-- `#[serde(default)]`
abbrev pub or_default : {A : Type 0} → Option A → A → A
or_default none a = a
or_default (some b) a = b

-- Which of the two flags belongs to the bound that is taken.
abbrev pub min_flag : Order → Bool → Bool → Bool
min_flag less own other = other
min_flag greater own other = own
min_flag equal own other = own && other

abbrev pub max_flag : Order → Bool → Bool → Bool
max_flag less own other = own
max_flag greater own other = other
max_flag equal own other = own && other

module _ {F : Type 0} ⦃d : Double F⦄ where
  -- The defaults of a range that leaves fields out.
  unfoldable pub range_with_defaults :
      Option F → Option F → Option Bool → Option Bool → LogicalRange F
  range_with_defaults min max min_inclusive max_inclusive = record {
    min = or_default min d.neg_infinity;
    max = or_default max d.infinity;
    min_inclusive = or_default min_inclusive true;
    max_inclusive = or_default max_inclusive false;
  }

  unfoldable pub contains : LogicalRange F → F → Bool
  contains r value =
      let above_lower = if r.min_inclusive then le r.min value else lt r.min value in
      let below_upper = if r.max_inclusive then le value r.max else lt value r.max in
      above_lower && below_upper

  unfoldable pub is_non_empty : LogicalRange F → Bool
  is_non_empty r =
      if lt r.min r.max
      then true
      else if eq r.max r.min
      then r.min_inclusive && r.max_inclusive
      else false

  abbrev pub overlap : LogicalRange F → LogicalRange F → Order → Order → LogicalRange F
  overlap a b max_cmp min_cmp = record {
    min = fmax a.min b.min;
    max = fmin a.max b.max;
    min_inclusive = min_flag min_cmp a.min_inclusive b.min_inclusive;
    max_inclusive = max_flag max_cmp a.max_inclusive b.max_inclusive;
  }

  abbrev pub non_empty_only : LogicalRange F → Option (LogicalRange F)
  non_empty_only r = if is_non_empty r then some r else none

  abbrev pub intersect_by :
      LogicalRange F
      → LogicalRange F
      → Option Order
      → Option Order
      → Option (Option (LogicalRange F))
  intersect_by a b none min_cmp = none
  intersect_by a b (some max_cmp) none = none
  intersect_by a b (some max_cmp) (some min_cmp) =
      some (non_empty_only (overlap a b max_cmp min_cmp))

  -- The outer `none` is the panic, the inner one an empty intersection.
  unfoldable pub intersection : LogicalRange F → LogicalRange F → Option (Option (LogicalRange F))
  intersection a b = intersect_by a b (partial_cmp a.max b.max) (partial_cmp a.min b.min)

-- The errors of the rule check, by the numbers of the rules from 1.
pub data RuleError : Type 0 where
  empty_range : ℕ → RuleError
  overlaps : ℕ → ℕ → RuleError
  compare_panic : RuleError

module _ {F : Type 0} ⦃d : Double F⦄ where
  abbrev pub no_overlap : ℕ → ℕ → Option (Option (LogicalRange F)) → Result RuleError (Unit {0})
  no_overlap index covered_index none = err compare_panic
  no_overlap index covered_index (some none) = ok tt
  no_overlap index covered_index (some (some both)) = err (overlaps index covered_index)

  -- The inner loop, over the ranges before, from the first one.
  unfoldable pub check_covered :
      ℕ → LogicalRange F → ℕ → List (LogicalRange F) → Result RuleError (Unit {0})
  check_covered index range covered_index [] = ok tt
  check_covered index range covered_index (c ∷ covered) = do
    no_overlap index covered_index (intersection range c)
    check_covered index range (covered_index + 1) covered

module _ {F V : Type 0} ⦃d : Double F⦄ where
  -- The outer loop, with the ranges covered so far.
  unfoldable pub check_rules :
      ℕ → List (LogicalRange F) → List (LogicalRule F V) → Result RuleError (Unit {0})
  unfolding check_covered
  check_rules index covered [] = ok tt
  check_rules index covered (rule ∷ rules) = do
    ensure (is_non_empty rule.range) (empty_range index)
    check_covered index rule.range 1 covered
    check_rules (index + 1) (covered ++ (rule.range ∷ [])) rules

  unfoldable pub validate_logical_rules : MappingEntry F V → Result RuleError (Unit {0})
  unfolding check_rules
  validate_logical_rules entry = check_rules 1 [] entry.logical

  unfoldable pub matches : LogicalRule F V → F → Bool
  unfolding contains
  matches rule value = contains rule.range value

  abbrev pub value_of : Option (LogicalRule F V) → Option V
  value_of none = none
  value_of (some rule) = some rule.value

  -- `MappingEntry::logical_value`: the value of the first rule that matches.
  unfoldable pub logical_value : MappingEntry F V → F → Option V
  unfolding matches
  logical_value entry mapped_value =
      value_of (find (λ rule. matches rule mapped_value) entry.logical)
