-- ===== src/Sequence/Builder/Zero.antt =====
-- An interpolation interval of zero: it is deserialized (src/sequence/sequence_definition.rs),
-- validated (src/sequence/sequence_validation.rs), and `interpolate_linear` of
-- src/sequence/sequence_builder.rs divides by it.
use ferro_flow.Prelude.{
  ℕ, suc, ◌-◌, ◌≡◌, refl, ap, ◌∙◌, true, false, String, List, [], ◌∷◌, map, some, length, ok,
}
use ferro_flow.Numbers.{Double, eq, lt}
use ferro_flow.Sequence.{Sequence}
use ferro_flow.Sequence.Loading.{duration_from_f64}
use ferro_flow.Sequence.Validation.{validate}
use ferro_flow.Sequence.Builder.{TimedValue, tick_value, tick_count, points_before, action_of}
use ferro_flow.Sequence.Builder.Points.{points_before_lem, length-ticks}

-- Zero in IEEE division and in the conversions of Rust: a finite number above zero over zero is
-- infinite, and an infinite number is cast to `usize::MAX`.
pub record HasZero (F : Type 0) ⦃d : Double F⦄ (usize_max : ℕ) : Type 0 where
  pub nought_finite : d.is_finite d.nought ≡ true
  pub nought_positive : d.is_sign_negative d.nought ≡ false
  pub no_time : d.duration_from_secs d.nought ≡ some 0
  pub no_secs : d.as_secs 0 ≡ d.nought
  pub div_nought :
      (x : F) → d.is_finite x ≡ true → lt d.nought x ≡ true → d.div x d.nought ≡ d.infinity
  pub half_positive :
      (x : F) → d.is_finite x ≡ true → lt d.nought x ≡ true → lt (d.div x d.two) d.nought ≡ false
  pub floor_infinity : d.floor d.infinity ≡ d.infinity
  pub usize_infinity : d.to_usize d.infinity ≡ usize_max

length-map : {A B : Type 0} (f : A → B) (xs : List A) → length (map f xs) ≡ length xs
length-map f [] = refl
length-map f (x ∷ xs) = ap suc (length-map f xs)

abbrev pub with_interval : {F : Type 0} → ℕ → Sequence F → Sequence F
with_interval interval seq = record seq {
  globals = record (seq.globals) { interpolation_interval = interval };
}

module _ {F : Type 0} ⦃d : Double F⦄ {usize_max : ℕ} (laws : HasZero F usize_max) where
  tick_count-zero :
      (timespan : F)
      → d.is_finite timespan ≡ true
      → lt d.nought timespan ≡ true
      → tick_count timespan (d.as_secs 0) ≡ usize_max
  unfolding tick_count
  tick_count-zero timespan finite positive =
      ap (λ i. d.to_usize (d.floor (d.div timespan i))) laws.no_secs
      ∙ ap (λ q. d.to_usize (d.floor q)) (laws.div_nought timespan finite positive)
      ∙ ap d.to_usize laws.floor_infinity
      ∙ laws.usize_infinity

  -- Zero seconds are deserialized to an interval of zero, which a sequence may have: validation
  -- does not look at the interval. Between two different values of a linear parameter, at a finite
  -- and positive distance in time, the schedule then gets one action less than `usize::MAX`.
  pub interval-zero :
      (seq : Sequence F) (param : String) (last new : TimedValue F)
      → eq last.value new.value ≡ false
      → d.is_finite (d.sub new.timestamp last.timestamp) ≡ true
      → lt d.nought (d.sub new.timestamp last.timestamp) ≡ true
      → (duration_from_f64 d.nought ≡ ok 0)
        × (validate (with_interval 0 seq) ≡ validate seq)
        × (length (points_before 0 param (some last) new) ≡ usize_max - 1)
  unfolding duration_from_f64 validate
  interval-zero seq param last new differ finite positive =
      let timespan = d.sub new.timestamp last.timestamp in
      let half : lt (d.div timespan d.two) (d.as_secs 0) ≡ false =
        rw laws.no_secs (laws.half_positive timespan finite positive) in
      (
        rw (laws.nought_finite, laws.nought_positive, laws.no_time) refl,
        refl,
        rw (points_before_lem 0 param last new differ half) (
            length-map (action_of param) _
            ∙ length-ticks (tick_value last new (d.as_secs 0) timespan) _ 1
            ∙ ap (λ n. n - 1) (tick_count-zero timespan finite positive)),
      )
