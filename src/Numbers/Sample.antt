-- ===== src/Numbers/Sample.antt =====
-- Numbers for the examples: whole numbers with a NaN and the two infinities. A second has ten
-- nanoseconds here; 1e-9 and 1e-6 round to zero, and the machine epsilon up to one.
use Prim.Native.Nat.{◌/◌}
use ferro_flow.Prelude.{
  ◌≡◌, ℕ, ◌+◌, ◌-◌, ◌*◌, refl, Bool, true, false, not, Option, none, some, arith, ℤ, pos, negsuc,
  pos_part, neg_part, leb_ℤ, leb, nat_beq, if◌then◌else◌,
}
use ferro_flow.Numbers.{Double, IsOrdered, IsShiftable, IsGrowing}

pub data Sample : Type 0 where
  nan neg_inf pos_inf : Sample
  fin : ℤ → Sample

-- a - b, as an integer.
abbrev pub sub_ℕ : ℕ → ℕ → ℤ
sub_ℕ a b = if leb b a then pos (a - b) else negsuc (b - a - 1)

abbrev plus : ℤ → ℤ → ℤ
plus a b = sub_ℕ (pos_part a + pos_part b) (neg_part a + neg_part b)

abbrev pub negate : ℤ → ℤ
negate a = sub_ℕ (neg_part a) (pos_part a)

abbrev pub size : ℤ → ℕ
size a = pos_part a + neg_part a

-- The sign of the product, at a given size.
abbrev pub signed : ℤ → ℤ → ℕ → ℤ
signed a b n =
    if leb_ℤ (pos 0) a
    then (if leb_ℤ (pos 0) b then pos n else sub_ℕ 0 n)
    else if leb_ℤ (pos 0) b
    then sub_ℕ 0 n
    else pos n

abbrev sample_le : Sample → Sample → Bool
sample_le nan y = false
sample_le neg_inf nan = false
sample_le neg_inf y = true
sample_le (fin a) (fin b) = leb_ℤ a b
sample_le (fin a) pos_inf = true
sample_le (fin a) y = false
sample_le pos_inf pos_inf = true
sample_le pos_inf y = false

abbrev sample_add : Sample → Sample → Sample
sample_add (fin a) (fin b) = fin (plus a b)
sample_add (fin a) y = y
sample_add nan y = nan
sample_add neg_inf (fin b) = neg_inf
sample_add neg_inf neg_inf = neg_inf
sample_add neg_inf y = nan
sample_add pos_inf (fin b) = pos_inf
sample_add pos_inf pos_inf = pos_inf
sample_add pos_inf y = nan

abbrev sample_negate : Sample → Sample
sample_negate nan = nan
sample_negate neg_inf = pos_inf
sample_negate pos_inf = neg_inf
sample_negate (fin a) = fin (negate a)

abbrev sample_mul : Sample → Sample → Sample
sample_mul (fin a) (fin b) = fin (signed a b (size a * size b))
sample_mul _ _ = nan

abbrev pub quotient : ℤ → ℤ → Sample
quotient a b =
    if nat_beq (size b) 0
    then (if nat_beq (size a) 0 then nan else if leb_ℤ (pos 0) a then pos_inf else neg_inf)
    else fin (signed a b (size a / size b))

abbrev sample_div : Sample → Sample → Sample
sample_div (fin a) (fin b) = quotient a b
sample_div (fin a) nan = nan
sample_div (fin a) _ = fin (pos 0)
sample_div _ _ = nan

abbrev sample_abs : Sample → Sample
sample_abs nan = nan
sample_abs (fin a) = fin (pos (size a))
sample_abs _ = pos_inf

abbrev sample_is_finite : Sample → Bool
sample_is_finite (fin a) = true
sample_is_finite _ = false

abbrev to_int : Sample → ℤ
to_int (fin a) = a
to_int _ = pos 0

abbrev to_size : Sample → ℕ
to_size (fin a) = pos_part a
to_size pos_inf = 0xffff_ffff_ffff_ffff
to_size _ = 0

abbrev nanoseconds : Sample → Option ℕ
nanoseconds (fin (pos n)) = if leb n 0xffff_ffff_ffff_ffff then some (n * 10) else none
nanoseconds _ = none

instance abbrev pub sample_double : Double Sample
sample_double = record {
  nought = fin (pos 0);
  one = fin (pos 1);
  two = fin (pos 2);
  neg_infinity = neg_inf;
  infinity = pos_inf;
  epsilon = fin (pos 1);
  nano = fin (pos 0);
  micro = fin (pos 0);
  le = sample_le;
  add = sample_add;
  sub = λ x y. sample_add x (sample_negate y);
  mul = sample_mul;
  div = sample_div;
  abs = sample_abs;
  round = λ x. x;
  floor = λ x. x;
  is_finite = sample_is_finite;
  is_sign_negative = λ x. not (sample_le (fin (pos 0)) x);
  of_ℤ = fin;
  to_i128 = to_int;
  to_usize = to_size;
  duration_from_secs = nanoseconds;
  as_secs = λ n. fin (pos (n / 10));
}

pub Sample-IsOrdered : IsOrdered Sample
Sample-IsOrdered = record {
  nought_refl = refl;
  refl_of_le = λ x y h. ground arith;
  le_trans = λ x y z h k. ground arith;
  le_total = λ x y h k. ground arith;
}

pub Sample-IsShiftable : IsShiftable Sample
Sample-IsShiftable = record {
  sub_nonneg = λ x y f h. ground arith;
  sub_mono = λ x y z f h. ground arith;
}

tick_le : (n k : ℕ) → sample_le (fin (pos 0)) (sample_mul (fin (pos n)) (fin (pos k))) ≡ true
tick_le n k = ground arith

pub Sample-IsGrowing : IsGrowing Sample
Sample-IsGrowing = record {
  add_nonneg = λ x y h k. ground arith;
  tick_nonneg = λ n k. tick_le n (k / 10);
}
