-- ===== src/Prelude/Text/Split.antt =====
-- Where a text with a separator is split.
use Prim.Native.Char.{Char, code}
use Prim.Native.Nat.{ℕ}
use Prim.Native.String.{String}
use mathlib.Core.Path.{◌≡◌, refl}
use mathlib.Core.Logic.{inl, inr}
use mathlib.Core.Bool.{true, false}
use mathlib.Core.Option.{some}
use native.Mathlib.Omega.{arith}
use text.Mathlib.TextLemmas.{nil-append, cons-append}
use ferro_flow.Prelude.Tests.{nat_beq, Bool-cases}
use ferro_flow.Prelude.Text.{append, contains_char, split_once}

nat_beq_refl : (n : ℕ) → nat_beq n n ≡ true
nat_beq_refl n = ground arith

pub contains_char-append :
    (c : Char) (s t : String) → contains_char (code c) (append s (String.◌∷◌ c t)) ≡ true
unfolding contains_char
contains_char-append c String.[] t =
    rw (nil-append (String.◌∷◌ c t)) (ground (arith, nat_beq_refl (code c)))
contains_char-append c (String.◌∷◌ d s) t =
    rw (cons-append d s (String.◌∷◌ c t)) (ground (arith, contains_char-append c s t))

pub split_once-append :
    (c : Char) (s t : String)
    → contains_char (code c) s ≡ false
    → split_once (code c) (append s (String.◌∷◌ c t)) ≡ some (s, t)
unfolding split_once contains_char
split_once-append c String.[] t h =
    rw (nil-append (String.◌∷◌ c t)) (ground (arith, nat_beq_refl (code c)))
split_once-append c (String.◌∷◌ d s) t h = elim (Bool-cases (nat_beq (code d) (code c))) [
  | inl e ↦ absurd (ground (arith, e, h))
  | inr e ↦ rw (cons-append d s (String.◌∷◌ c t), e, split_once-append c s t (rw e at h)) refl
]
