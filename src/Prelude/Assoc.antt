-- ===== src/Prelude/Assoc.antt =====
-- Maps as association lists: `HashMap`, `DashMap` and, with the keys in order, `BTreeMap`. A map's
-- own order is the order of the list; an insert replaces in place or goes to the end.
use mathlib.Core.Path.{◌≡◌, refl, subst}
use mathlib.Core.Logic.{inl, inr}
use mathlib.Core.Option.{Option, none, some}
use mathlib.Core.List.{List, [], ◌∷◌}
use native.Mathlib.Omega.{arith}
use ferro_flow.Prelude.Tests.{if◌then◌else◌, Bool-cases}
use ferro_flow.Prelude.Lists.{All}
use ferro_flow.Prelude.Equality.{Eq, ◌==◌}

module _ {ℓ κ} {K : Type ℓ} {V : Type κ} ⦃e : Eq K⦄ where
  unfoldable pub insert : K → V → List (K × V) → List (K × V)
  insert key value [] = (key, value) ∷ []
  insert key value ((old_key, old) ∷ rest) =
      if old_key == key then (key, value) ∷ rest else (old_key, old) ∷ insert key value rest

  unfoldable pub remove : K → List (K × V) → List (K × V)
  remove key [] = []
  remove key ((old_key, old) ∷ rest) =
      if old_key == key then remove key rest else (old_key, old) ∷ remove key rest

  unfoldable pub lookup : K → List (K × V) → Option V
  lookup key [] = none
  lookup key ((old_key, old) ∷ rest) = if old_key == key then some old else lookup key rest

module _ {ℓ κ} {K : Type ℓ} {V : Type κ} ⦃e : Eq K⦄ where
  pub lookup-insert :
      (key asked : K) (value : V) (map : List (K × V))
      → lookup asked (insert key value map)
        ≡ (if key == asked then some value else lookup asked map)
  unfolding lookup insert
  lookup-insert key asked value [] = refl
  lookup-insert key asked value ((i, old) ∷ rest) = ground (
    arith,
    e.same_iff i key,
    e.same_iff i asked,
    e.same_iff key asked,
    lookup-insert key asked value rest,
  )

  pub lookup-remove :
      (k j : K) (m : List (K × V)) → lookup j (remove k m) ≡ (if k == j then none else lookup j m)
  unfolding lookup remove
  lookup-remove k j [] = ground arith
  lookup-remove k j ((i, w) ∷ m) =
      ground (arith, e.same_iff k j, e.same_iff i k, e.same_iff i j, lookup-remove k j m)

  -- What holds of every value, and of the one that is written, holds afterwards.
  abbrev pub Values {μ} : (V → Type μ) → List (K × V) → Type μ
  Values P m = All (λ (p : K × V). P p.1) m

module _ {ℓ κ μ} {K : Type ℓ} {V : Type κ} ⦃e : Eq K⦄ (P : V → Type μ) where
  pub Values-insert :
      (k : K) (v : V) (m : List (K × V)) → P v → Values P m → Values P (insert k v m)
  unfolding insert
  Values-insert k v [] p h = (p, tt)
  Values-insert k v ((j, w) ∷ m) p (q, h) = elim (Bool-cases (j == k)) [
    | inl t ↦ rw t (p, h)
    | inr t ↦ rw t (q, Values-insert k v m p h)
  ]

  pub Values-remove : (k : K) (m : List (K × V)) → Values P m → Values P (remove k m)
  unfolding remove
  Values-remove k [] h = tt
  Values-remove k ((j, w) ∷ m) (q, h) = elim (Bool-cases (j == k)) [
    | inl t ↦ rw t (Values-remove k m h)
    | inr t ↦ rw t (q, Values-remove k m h)
  ]

  pub Values-lookup : (k : K) (m : List (K × V)) {v : V} → Values P m → lookup k m ≡ some v → P v
  unfolding lookup
  Values-lookup k [] h s = absurd (ground arith)
  Values-lookup k ((j, w) ∷ m) (q, h) s = elim (Bool-cases (j == k)) [
    | inl t ↦ subst P (ground arith) q
    | inr t ↦ Values-lookup k m h (rw t at s)
  ]
