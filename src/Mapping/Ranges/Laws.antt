-- ===== src/Mapping/Ranges/Laws.antt =====
-- `intersection` computes the intersection of the two sets of numbers, and `is_non_empty` is right
-- about a range with a number in it.
use ferro_flow.Prelude.{
  ◌≡◌, ap, ◌∙◌, Bool, true, false, ◌&&◌, Option, none, some, arith, inl, inr, if◌then◌else◌,
  Option-cases, Bool-cases,
}
use ferro_flow.Numbers.{
  Double, Order, less, equal, greater, le, lt, fmin, fmax, partial_cmp, ◌≼◌, IsOrdered,
}
use ferro_flow.Mapping.{LogicalRange}
use ferro_flow.Mapping.Ranges.{
  contains, is_non_empty, intersection, overlap, non_empty_only, min_flag, max_flag,
}

module _ {F : Type 0} ⦃d : Double F⦄ where
  abbrev above : F → Bool → F → Bool
  above bound inclusive v = if inclusive then le bound v else lt bound v

  abbrev below : F → Bool → F → Bool
  below bound inclusive v = if inclusive then le v bound else lt v bound

  -- Bounds that are no NaN.
  abbrev pub IsProper : LogicalRange F → Type 0
  IsProper r = (r.min ≼ r.min) × (r.max ≼ r.max)

  -- What the intersection says about a number, by the result.
  abbrev pub holds : Option (LogicalRange F) → F → Bool
  holds none v = false
  holds (some c) v = contains c v

module _ {F : Type 0} ⦃d : Double F⦄ (laws : IsOrdered F) where
  open laws use {le_trans, refl_of_le, le_total}

  -- Which bound the intersection takes, by the outcome of the comparison.
  abbrev greater_of : Order → F → F → F
  greater_of less a b = b
  greater_of equal a b = b
  greater_of greater a b = a

  abbrev less_of : Order → F → F → F
  less_of less a b = a
  less_of equal a b = a
  less_of greater a b = b

  fmax-eq : (a b : F) (cmp : Order) → partial_cmp a b ≡ some cmp → fmax a b ≡ greater_of cmp a b
  fmax-eq a b cmp h = ground (arith, refl_of_le a b, refl_of_le b a)

  fmin-eq : (a b : F) (cmp : Order) → partial_cmp a b ≡ some cmp → fmin a b ≡ less_of cmp a b
  fmin-eq a b cmp h = ground (arith, refl_of_le a b, refl_of_le b a)

  above-overlap :
      (a b : F) (i j : Bool) (cmp : Order) (v : F)
      → partial_cmp a b ≡ some cmp
      → above (greater_of cmp a b) (min_flag cmp i j) v ≡ (above a i v && above b j v)
  above-overlap a b i j less v h = ground (arith, le_trans a b v, le_trans b v a, le_trans v a b)
  above-overlap a b i j equal v h =
      ground (arith, le_trans a b v, le_trans b a v, le_trans v a b, le_trans v b a)
  above-overlap a b i j greater v h = ground (arith, le_trans b a v, le_trans a v b, le_trans v b a)

  below-overlap :
      (a b : F) (i j : Bool) (cmp : Order) (v : F)
      → partial_cmp a b ≡ some cmp
      → below (less_of cmp a b) (max_flag cmp i j) v ≡ (below a i v && below b j v)
  below-overlap a b i j less v h = ground (arith, le_trans v a b, le_trans b v a, le_trans a b v)
  below-overlap a b i j equal v h =
      ground (arith, le_trans v a b, le_trans v b a, le_trans a b v, le_trans b a v)
  below-overlap a b i j greater v h = ground (arith, le_trans v b a, le_trans a v b, le_trans b a v)

  contains-overlap :
      (a b : LogicalRange F) (max_cmp min_cmp : Order) (v : F)
      → partial_cmp a.max b.max ≡ some max_cmp
      → partial_cmp a.min b.min ≡ some min_cmp
      → contains (overlap a b max_cmp min_cmp) v ≡ (contains a v && contains b v)
  unfolding contains
  contains-overlap a b max_cmp min_cmp v h k =
      rw (fmax-eq a.min b.min min_cmp k, fmin-eq a.max b.max max_cmp h)
        (ground (
          arith,
          above-overlap a.min b.min a.min_inclusive b.min_inclusive min_cmp v k,
          below-overlap a.max b.max a.max_inclusive b.max_inclusive max_cmp v h,
        ))

  -- A range that holds a number is not empty.
  pub contains-is_non_empty :
      (r : LogicalRange F) (v : F) → contains r v ≡ true → is_non_empty r ≡ true
  unfolding contains is_non_empty
  contains-is_non_empty r v h =
      ground (arith, le_trans r.min v r.max, le_trans v r.max r.min, le_trans r.max r.min v)

  pub is_non_empty-IsProper : (r : LogicalRange F) → is_non_empty r ≡ true → IsProper r
  unfolding is_non_empty
  is_non_empty-IsProper r h = ground (arith, refl_of_le r.min r.max, refl_of_le r.max r.min)

  partial_cmp-proper : (x y : F) → x ≼ x → y ≼ y → (cmp : Order) × (partial_cmp x y ≡ some cmp)
  partial_cmp-proper x y h k = elim (Option-cases (partial_cmp x y)) [
    | inl e ↦ absurd (ground (arith, le_total x y h k))
    | inr c ↦ c
  ]

  by_comparisons :
      (a b : LogicalRange F) {max_cmp min_cmp : Order}
      → partial_cmp a.max b.max ≡ some max_cmp
      → partial_cmp a.min b.min ≡ some min_cmp
      → intersection a b ≡ some (non_empty_only (overlap a b max_cmp min_cmp))
  unfolding intersection
  by_comparisons a b h k = cc

  -- Let `le` be an order on the numbers that are no NaN. For bounds that are no NaN, `intersection`
  -- does not panic, and a number lies in its result exactly when it lies in both ranges; if the
  -- result is empty, no number does.
  pub intersection_lem :
      (a b : LogicalRange F)
      → IsProper a
      → IsProper b
      → (result : Option (LogicalRange F)) × (intersection a b ≡ some result)
        × ((v : F) → holds result v ≡ (contains a v && contains b v))
  intersection_lem a b (pa, qa) (pb, qb) =
      let (max_cmp, h) = partial_cmp-proper a.max b.max qa qb in
      let (min_cmp, k) = partial_cmp-proper a.min b.min pa pb in
      let both : LogicalRange F = overlap a b max_cmp min_cmp in
      let found : intersection a b ≡ some (non_empty_only both) = by_comparisons a b h k in
      elim (Bool-cases (is_non_empty both)) [
        | inl e ↦
            (some both, found ∙ ap some (rw e), λ v. contains-overlap a b max_cmp min_cmp v h k)
        | inr e ↦ (
          none,
          found ∙ ap some (rw e),
          λ v.
              ground
                (arith, contains-is_non_empty both v, contains-overlap a b max_cmp min_cmp v h k),
        )
      ]
