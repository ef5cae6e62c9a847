-- ===== src/Platform/Sample.antt =====
-- The platform of the examples: whole numbers for both float types, JSON numbers that are integers,
-- and packed values that are lists of values. A frame is its id, whether it is an FD frame, and its
-- message.
use ferro_flow.Prelude.{ℕ, String, Bool, List, [], ◌∷◌, Option, none, some, ℤ}
use ferro_flow.Numbers.Sample.{Sample, fin, nan, neg_inf, pos_inf, sample_double}
use ferro_flow.Platform.{Platform, CanDataType, CanDataValue, Json}

abbrev pub Packed : Type 0
Packed = List (CanDataValue Sample)

abbrev number_of : Sample → Json ℤ String
number_of (fin n) = Json.number n
number_of nan = Json.rest "null"
number_of neg_inf = Json.rest "null"
number_of pos_inf = Json.rest "null"

-- One value for each data type, as far as they go.
abbrev unpack : Packed → List CanDataType → List (Option (CanDataValue Sample))
unpack values [] = []
unpack [] (t ∷ ts) = none ∷ unpack [] ts
unpack (v ∷ values) (t ∷ ts) = some v ∷ unpack values ts

abbrev pub sample : Platform
sample = record {
  F64 = Sample;
  F32 = Sample;
  Number = ℤ;
  JsonRest = String;
  TomlValue = String;
  Packed = Packed;
  Frame = ℕ × Bool;
  OtherMessage = String;
  double = sample_double;
  widen = λ x. x;
  narrow = λ x. x;
  as_f64 = λ n. some (fin n);
  as_i64 = λ n. some n;
  json_of_f32 = number_of;
  json_of_f64 = number_of;
  json_of_ℤ = Json.number;
  json_of_list = λ bytes. Json.rest "array";
  unpack = unpack;
  convert_from_raw = λ v t. some v;
}
