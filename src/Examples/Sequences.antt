-- ===== src/Examples/Sequences.antt =====
-- Validation, loading and hold conditions on one small sequence.
use ferro_flow.Prelude.{
  ℕ, ◌≡◌, ◌↔◌, refl, String, [], ◌∷◌, none, some, ok, All, Pairs, pos, negsuc, string_eq,
}
use ferro_flow.Numbers.Sample.{Sample, fin, sample_double, Sample-IsOrdered}
use ferro_flow.Sequence.{
  Sequence, Step, TimedAction, Action, HoldCondition, InterpolationMode, hold, set_param,
  conditional, less,
}
use ferro_flow.Sequence.Validation.{validate}
use ferro_flow.Sequence.Validation.Rules.{Rules, validate_iff}
use ferro_flow.Sequence.Validation.Order.{Precedes, Within, validate_ordered}
use ferro_flow.Sequence.Loading.{RawStep}

abbrev at : ℕ → Action Sample → TimedAction Sample
at t a = record { timestamp = fin (pos t); action = a }

abbrev sets : String → ℕ → Action Sample
sets name n = set_param (record { param = name; value = fin (pos n) })

abbrev pub below : String → ℕ → HoldCondition Sample
below field n = record { field = field; comparison = less; value = fin (pos n) }

abbrev opening : Step Sample
opening = record {
  name = "open";
  description = none;
  timestamp = fin (negsuc 4);
  actions = record { timestamp = fin (negsuc 4); action = sets "valve" 10 } ∷ [];
}

abbrev closing : Step Sample
closing = record {
  name = "close";
  description = some "slowly";
  timestamp = fin (pos 2);
  actions =
      at 2 (hold (conditional (below "pressure" 7 ∷ [])))
      ∷ at 5 (sets "valve" 90)
      ∷ at 6 (sets "igniter" 1)
      ∷ [];
}

-- From -5 s to 10 s, with the valve interpolated each second.
abbrev pub hotfire : Sequence Sample
hotfire = record {
  name = "hotfire";
  globals = record {
    start_time = fin (negsuc 4);
    end_time = fin (pos 10);
    interpolation_interval = 20;
    interpolations = ("valve", InterpolationMode.linear) ∷ [];
  };
  steps = opening ∷ closing ∷ [];
}

validate_iff_example : (validate hotfire ≡ ok tt) ↔ Rules hotfire
validate_iff_example = validate_iff hotfire

pub hotfire-valid : validate hotfire ≡ ok tt
unfolding validate
hotfire-valid = refl

validate_ordered_example :
    Pairs Precedes hotfire.steps
    × All (λ (s : Step Sample). All (Within hotfire.globals) s.actions) hotfire.steps
validate_ordered_example = validate_ordered Sample-IsOrdered hotfire hotfire-valid

abbrev raw_opening : RawStep Sample
raw_opening = record {
  name = "open";
  description = none;
  timestamp = fin (negsuc 4);
  hold = none;
  set_params =
      some
        (record { relative_timestamp = fin (pos 0); param = "valve"; value = fin (pos 10) } ∷ []);
}
