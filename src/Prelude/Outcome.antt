-- ===== src/Prelude/Outcome.antt =====
-- `anyhow::Result`: a value or an error, with the bind that the `?` operator makes. The error
-- types of the components stand for the messages; `ensure!` is `ensure`, `with_context` on an
-- option is `or_fail`.
use mathlib.Core.Path.{◌≡◌, refl}
use mathlib.Core.Logic.{◌⊎◌, ◌↔◌, inl, inr}
use mathlib.Core.Bool.{Bool, true, false}
use mathlib.Core.Option.{Option, none, some}
use mathlib.Core.List.{List, [], ◌∷◌}
use native.Mathlib.Omega.{arith}

pub data Result {ℓ κ} (E : Type ℓ) (A : Type κ) : Type (ℓ ⊔ κ) where
  ok : A → Result E A
  err : E → Result E A

infixl 5 ◌>>=◌ ◌>>◌
abbrev pub ◌>>=◌ {ε α β} :
    {E : Type ε} {A : Type α} {B : Type β} → Result E A → (A → Result E B) → Result E B
err failure >>= continue = err failure
ok value >>= continue = continue value

abbrev pub ensure {ε} : {E : Type ε} → Bool → E → Result E (Unit {0})
ensure false failure = err failure
ensure true failure = ok tt

abbrev pub ◌>>◌ {ε β} : {E : Type ε} {B : Type β} → Result E (Unit {0}) → Result E B → Result E B
check >> continue = check >>= λ u. continue

abbrev pub or_fail {ℓ κ} : {E : Type ℓ} {A : Type κ} → Option A → E → Result E A
or_fail none e = err e
or_fail (some a) e = ok a

-- `.ok()` of a result.
abbrev pub to_option {ℓ κ} : {E : Type ℓ} {A : Type κ} → Result E A → Option A
to_option (ok a) = some a
to_option (err e) = none

module _ {ℓ κ} {E : Type ℓ} {A : Type κ} where
  -- `for x in xs { f(x)?; }`
  abbrev pub for_each : (A → Result E (Unit {0})) → List A → Result E (Unit {0})
  for_each f [] = ok tt
  for_each f (x ∷ xs) = f x >>= λ _. for_each f xs

  pub Result-cases : (r : Result E A) → ((a : A) × (r ≡ ok a)) ⊎ ((e : E) × (r ≡ err e))
  Result-cases (ok a) = inl (a, refl)
  Result-cases (err e) = inr (e, refl)

-- A bind that succeeds has two parts that succeed.
pub >>=-eq-ok {ε α β} :
    {E : Type ε} {A : Type α} {B : Type β} (first : Result E A) (continue : A → Result E B)
    {last : B}
    → (first >>= continue) ≡ ok last
    → (value : A) × (first ≡ ok value) × (continue value ≡ ok last)
>>=-eq-ok (err failure) continue fails = absurd (ground arith)
>>=-eq-ok (ok value) continue succeeds = (value, refl, succeeds)

pub ensure_iff {ℓ} : {E : Type ℓ} (b : Bool) (e : E) → (ensure b e ≡ ok tt) ↔ (b ≡ true)
ensure_iff b e = ground arith
