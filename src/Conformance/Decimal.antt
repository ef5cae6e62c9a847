-- ===== src/Conformance/Decimal.antt =====
-- Decimal numbers for the unit tests: thousandths, as an instance of the numbers of the source on
-- the values of Numbers/Sample, and the platform with them. 1e-9 and 1e-6 round to zero, the
-- machine epsilon and the tolerances of the tests up to a thousandth.
use Prim.Native.Nat.{◌/◌}
use ferro_flow.Prelude.{
  ℕ, ◌+◌, ◌*◌, String, Option, none, some, ℤ, pos, negsuc, pos_part, leb, if◌then◌else◌,
}
use ferro_flow.Numbers.{Double}
use ferro_flow.Numbers.Sample.{
  Sample, fin, nan, neg_inf, pos_inf, sample_double, negate, size, signed, quotient,
}
use ferro_flow.Platform.{Platform, Json}
use ferro_flow.Platform.Sample.{sample}

-- Hundredths and thousandths of literals are written `milli`.
abbrev pub milli : ℕ → Sample
milli n = fin (pos n)

abbrev pub whole : ℕ → Sample
whole n = fin (pos (n * 1000))

abbrev scaled : ℤ → ℤ
scaled a = signed a (pos 0) (size a * 1000)

-- The whole part, towards zero.
abbrev truncated : ℤ → ℤ
truncated a = signed a (pos 0) (size a / 1000)

abbrev floored : ℤ → ℤ
floored (pos n) = pos (n / 1000 * 1000)
floored (negsuc n) = negate (pos ((n / 1000 + 1) * 1000))

-- Half way goes away from zero.
abbrev rounded : ℤ → ℤ
rounded a = signed a (pos 0) ((size a + 500) / 1000 * 1000)

abbrev on_finite : (ℤ → ℤ) → Sample → Sample
on_finite f (fin a) = fin (f a)
on_finite f x = x

abbrev decimal_mul : Sample → Sample → Sample
decimal_mul (fin a) (fin b) = fin (signed a b (size a * size b / 1000))
decimal_mul x y = sample_double.mul x y

abbrev decimal_div : Sample → Sample → Sample
decimal_div (fin a) (fin b) = quotient (scaled a) b
decimal_div x y = sample_double.div x y

abbrev to_int : Sample → ℤ
to_int (fin a) = truncated a
to_int _ = pos 0

abbrev to_size : Sample → ℕ
to_size (fin a) = pos_part (truncated a)
to_size x = sample_double.to_usize x

abbrev nanoseconds : Sample → Option ℕ
nanoseconds (fin (pos n)) =
    if leb (n / 1000) 0xffff_ffff_ffff_ffff then some (n * 1_000_000) else none
nanoseconds _ = none

instance abbrev pub decimal_double : Double Sample
decimal_double = record sample_double {
  one = whole 1;
  two = whole 2;
  mul = decimal_mul;
  div = decimal_div;
  round = on_finite rounded;
  floor = on_finite floored;
  of_ℤ = λ n. fin (scaled n);
  to_i128 = to_int;
  to_usize = to_size;
  duration_from_secs = nanoseconds;
  as_secs = λ n. fin (pos (n / 1_000_000));
}

-- `serde_json::Number`: an integer or a float.
pub data Number : Type 0 where
  integer : ℤ → Number
  float : Sample → Number

abbrev as_f64 : Number → Option Sample
as_f64 (integer n) = some (fin (scaled n))
as_f64 (float x) = some x

abbrev as_i64 : Number → Option ℤ
as_i64 (integer n) = some n
as_i64 (float x) = none

abbrev number_of : Sample → Json Number String
number_of (fin n) = Json.number (float (fin n))
number_of nan = Json.rest "null"
number_of neg_inf = Json.rest "null"
number_of pos_inf = Json.rest "null"

abbrev pub decimal : Platform
decimal = record sample {
  Number = Number;
  double = decimal_double;
  as_f64 = as_f64;
  as_i64 = as_i64;
  json_of_f32 = number_of;
  json_of_f64 = number_of;
  json_of_ℤ = λ n. Json.number (integer n);
  json_of_list = λ bytes. Json.rest "array";
}
