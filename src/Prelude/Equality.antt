-- ===== src/Prelude/Equality.antt =====
-- Equality tests as an interface: node ids are numbers, names are texts.
use Prim.Native.Nat.{ℕ}
use Prim.Native.String.{String}
use mathlib.Core.Path.{◌≡◌, refl}
use mathlib.Core.Logic.{◌↔◌, ◌≢◌}
use mathlib.Core.Bool.{Bool, true, false, ◌&&◌}
use text.Mathlib.Text.{◌==◌ as str_eq}
use text.Mathlib.TextEquality.{eq_iff}
use native.Mathlib.Omega.{arith}
use ferro_flow.Prelude.Tests.{nat_beq, nat_beq_iff, and_split}

pub record Eq {ℓ} (K : Type ℓ) : Type ℓ where
  pub same : K → K → Bool
  pub same_iff : (x y : K) → (same x y ≡ true) ↔ (x ≡ y)

module _ {ℓ κ} {A : Type ℓ} {B : Type κ} ⦃e : Eq A⦄ ⦃f : Eq B⦄ where
  pub pair_iff : (p q : A × B) → ((e.same p.0 q.0 && f.same p.1 q.1) ≡ true) ↔ (p ≡ q)
  pair_iff (a, b) (c, d) = (
    λ h.
        let (l, r) = and_split (e.same a c) (f.same b d) h in
        ground (arith, (e.same_iff a c).0 l, (f.same_iff b d).0 r),
    λ h. ground (arith, e.same_iff a c, f.same_iff b d),
  )

  -- Pairs of keys, such as a node and one of its fields.
  instance abbrev pub pair_eq : Eq (A × B)
  pair_eq = record { same = λ p q. e.same p.0 q.0 && f.same p.1 q.1; same_iff = pair_iff }

-- Field, group and node ids; names of fields, nodes and interfaces.
instance abbrev pub string_eq : Eq String
string_eq = record { same = str_eq; same_iff = eq_iff }

infix 50 ◌==◌
abbrev pub ◌==◌ {κ} : {K : Type κ} ⦃eq : Eq K⦄ → K → K → Bool
◌==◌ ⦃eq⦄ x y = eq.same x y

instance abbrev pub nat_eq : Eq ℕ
nat_eq = record { same = nat_beq; same_iff = nat_beq_iff }

module _ {ℓ} {K : Type ℓ} ⦃e : Eq K⦄ where
  pub beq_refl : (x : K) → e.same x x ≡ true
  beq_refl x = (e.same_iff x x).1 refl

  pub beq_false : (x y : K) → e.same x y ≡ false → x ≢ y
  beq_false x y h p = ground (arith, (e.same_iff x y).1 p)
