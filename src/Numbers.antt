-- ===== src/Numbers.antt =====
-- `f64` as the source uses it: any type with the operations below. Comparisons are the IEEE ones,
-- all derived from `<=`, and a NaN is the value that is not `<=` itself. Integers are exact ones; a
-- duration is a number of nanoseconds.
pub mod Sample
use ferro_flow.Prelude.{
  ℕ, ◌≡◌, ◌⊎◌, Bool, true, not, ◌&&◌, Option, none, some, ℤ, pos, if◌then◌else◌,
}

pub record Double (F : Type 0) : Type 0 where
  pub nought : F
  pub one : F
  pub two : F
  pub neg_infinity : F
  pub infinity : F
  pub epsilon : F  -- f64::EPSILON
  pub nano : F  -- 1e-9
  pub micro : F  -- 1e-6
  pub le : F → F → Bool
  pub add : F → F → F
  pub sub : F → F → F
  pub mul : F → F → F
  pub div : F → F → F
  pub abs : F → F
  pub round : F → F
  pub floor : F → F
  pub is_finite : F → Bool
  pub is_sign_negative : F → Bool
  pub of_ℤ : ℤ → F  -- `as f64`
  pub to_i128 : F → ℤ  -- `as i128`
  pub to_usize : F → ℕ  -- `as usize`
  pub duration_from_secs : F → Option ℕ  -- Duration::from_secs_f64, `none` is its panic
  pub as_secs : ℕ → F  -- Duration::as_secs_f64

-- The variants of `std::cmp::Ordering`.
pub data Order : Type 0 where
  less equal greater : Order

module _ {F : Type 0} ⦃d : Double F⦄ where
  abbrev pub le : F → F → Bool
  le x y = d.le x y

  abbrev pub lt : F → F → Bool
  lt x y = d.le x y && not (d.le y x)

  abbrev pub eq : F → F → Bool
  eq x y = d.le x y && d.le y x

  abbrev pub is_nan : F → Bool
  is_nan x = not (d.le x x)

  -- `f64::min`, `f64::max`: a NaN gives way to the other argument.
  abbrev pub fmin : F → F → F
  fmin x y = if is_nan x then y else if is_nan y then x else if d.le x y then x else y

  abbrev pub fmax : F → F → F
  fmax x y = if is_nan x then y else if is_nan y then x else if d.le x y then y else x

  -- `f64::partial_cmp`: `none` if one of the two is a NaN.
  abbrev pub partial_cmp : F → F → Option Order
  partial_cmp x y =
      if d.le x y
      then (if d.le y x then some Order.equal else some Order.less)
      else if d.le y x
      then some Order.greater
      else none

  infix 4 ◌≼◌
  abbrev pub ◌≼◌ : F → F → Type 0
  x ≼ y = d.le x y ≡ true

-- `<=` is a total preorder away from NaN (0.0 and -0.0 are below each other).
pub record IsOrdered (F : Type 0) ⦃d : Double F⦄ : Type 0 where
  pub nought_refl : d.nought ≼ d.nought
  pub refl_of_le : (x y : F) → x ≼ y → (x ≼ x) × (y ≼ y)
  pub le_trans : (x y z : F) → x ≼ y → y ≼ z → x ≼ z
  pub le_total : (x y : F) → x ≼ x → y ≼ y → (x ≼ y) ⊎ (y ≼ x)

-- What the schedule relies on: taking a finite number from one that is not below it does not go
-- below zero, and keeps the order.
pub record IsShiftable (F : Type 0) ⦃d : Double F⦄ : Type 0 where
  pub sub_nonneg : (x y : F) → d.is_finite y ≡ true → y ≼ x → d.nought ≼ d.sub x y
  pub sub_mono : (x y z : F) → d.is_finite z ≡ true → x ≼ y → d.sub x z ≼ d.sub y z

-- Sums of numbers that are not below zero are not, nor are whole multiples of a duration.
pub record IsGrowing (F : Type 0) ⦃d : Double F⦄ : Type 0 where
  pub add_nonneg : (x y : F) → d.nought ≼ x → d.nought ≼ y → d.nought ≼ d.add x y
  pub tick_nonneg : (n k : ℕ) → d.nought ≼ d.mul (d.of_ℤ (pos n)) (d.as_secs k)
