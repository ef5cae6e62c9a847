-- ===== src/Mapping/Ranges/Partition.antt =====
-- Rules that pass the check are unambiguous.
use ferro_flow.Prelude.{
  ℕ, ◌+◌, ◌≡◌, ◌≢◌, refl, sym, ap, true, false, ◌&&◌, List, [], ◌∷◌, ◌++◌, Option, none, some,
  Result, ok, err, ◌>>◌, find, All, All-map, All-append, All-append_inv, All-In, Pairs, In, arith,
  inl, inr, Bool-cases,
}
use ferro_flow.Numbers.{Double, IsOrdered}
use ferro_flow.Mapping.{LogicalRange, LogicalRule, MappingEntry}
use ferro_flow.Mapping.Ranges.{
  contains, is_non_empty, intersection, matches, logical_value, value_of, RuleError, compare_panic,
  no_overlap, check_covered, check_rules, validate_logical_rules,
}
use ferro_flow.Mapping.Ranges.Laws.{IsProper, is_non_empty-IsProper, intersection_lem, holds}

chain :
    {P Q : Type 0} (m k : Result RuleError (Unit {0}))
    → (m ≢ err compare_panic) × (m ≡ ok tt → P)
    → (k ≢ err compare_panic) × (k ≡ ok tt → Q)
    → ((m >> k) ≢ err compare_panic) × ((m >> k) ≡ ok tt → P × Q)
chain (ok u) k (a, f) (b, g) = (b, λ h. (f refl, g h))
chain (err x) k (a, f) (b, g) = (a, λ h. absurd (ground arith))

module _ {F : Type 0} ⦃d : Double F⦄ where
  -- No number lies in both.
  abbrev pub AreDisjoint : LogicalRange F → LogicalRange F → Type 0
  AreDisjoint r s = (v : F) → (contains r v && contains s v) ≡ false

  settle :
      (index covered_index : ℕ) (r c : LogicalRange F) (result : Option (LogicalRange F))
      → ((v : F) → holds result v ≡ (contains r v && contains c v))
      → no_overlap index covered_index (some result) ≢ err compare_panic
        × (no_overlap index covered_index (some result) ≡ ok tt → AreDisjoint r c)
  settle index covered_index r c none says = (ground arith, λ h v. sym (says v))
  settle index covered_index r c (some both) says = (ground arith, λ h. absurd (ground arith))

  module _ (laws : IsOrdered F) where
    no_overlap_lem :
        (index covered_index : ℕ) (r c : LogicalRange F)
        → IsProper r
        → IsProper c
        → no_overlap index covered_index (intersection r c) ≢ err compare_panic
          × (no_overlap index covered_index (intersection r c) ≡ ok tt → AreDisjoint r c)
    no_overlap_lem index covered_index r c p q =
        let (result, found, says) = intersection_lem laws r c p q in
        rw found (settle index covered_index r c result says)

    check_covered_lem :
        (index : ℕ) (r : LogicalRange F) (covered_index : ℕ) (covered : List (LogicalRange F))
        → IsProper r
        → All IsProper covered
        → check_covered index r covered_index covered ≢ err compare_panic
          × (check_covered index r covered_index covered ≡ ok tt → All (AreDisjoint r) covered)
    unfolding check_covered
    check_covered_lem index r covered_index [] p q = (ground arith, λ h. tt)
    check_covered_lem index r covered_index (c ∷ covered) p (q, qs) =
        chain (no_overlap index covered_index (intersection r c))
          (check_covered index r (covered_index + 1) covered)
          (no_overlap_lem index covered_index r c p q)
          (check_covered_lem index r (covered_index + 1) covered p qs)

    check_rules_lem :
        {V : Type 0} (index : ℕ) (covered : List (LogicalRange F)) (rules : List (LogicalRule F V))
        → All IsProper covered
        → check_rules index covered rules ≢ err compare_panic
          × (check_rules index covered rules ≡ ok tt
              → All (λ (rule : LogicalRule F V). All (AreDisjoint rule.range) covered) rules
                × Pairs (λ (s t : LogicalRule F V). AreDisjoint t.range s.range) rules)
    unfolding check_rules
    check_rules_lem index covered [] q = (ground arith, λ h. (tt, tt))
    check_rules_lem index covered (rule ∷ rules) q = elim (Bool-cases (is_non_empty rule.range)) [
      | inr e ↦ rw e (ground arith, λ h. absurd (ground arith))
      | inl e ↦
          let p = is_non_empty-IsProper laws rule.range e in
          let rest =
            check_rules_lem (index + 1) (covered ++ (rule.range ∷ [])) rules
              (All-append IsProper covered (rule.range ∷ []) q (p, tt)) in
          let both =
            chain (check_covered index rule.range 1 covered)
              (check_rules (index + 1) (covered ++ (rule.range ∷ [])) rules)
              (check_covered_lem index rule.range 1 covered p q) rest in
          rw e (
            both.0,
            λ h.
                let (mine, (others, pairs)) = both.1 h in
                (
                  (
                    mine,
                    All-map rules (λ t a. (All-append_inv _ covered (rule.range ∷ []) a).0) others,
                  ),
                  (
                    All-map rules (λ t a. (All-append_inv _ covered (rule.range ∷ []) a).1.0)
                        others,
                    pairs,
                  ),
                ),
          )
    ]

    -- Let `le` be an order on the numbers that are no NaN. The check of an entry's logical rules
    -- never meets the panic of `partial_cmp`, and if it passes, no number lies in the ranges of two
    -- rules.
    pub validate_logical_rules-AreDisjoint :
        {V : Type 0} (entry : MappingEntry F V)
        → (validate_logical_rules entry ≢ err compare_panic)
          × (validate_logical_rules entry ≡ ok tt
              → Pairs (λ (s t : LogicalRule F V). AreDisjoint t.range s.range) entry.logical)
    unfolding validate_logical_rules
    validate_logical_rules-AreDisjoint entry =
        let (safe, pairs) = check_rules_lem 1 [] entry.logical tt in (safe, λ h. (pairs h).1)

    find_unique :
        {V : Type 0} (v : F) (rules : List (LogicalRule F V)) (rule : LogicalRule F V)
        → Pairs (λ (s t : LogicalRule F V). AreDisjoint t.range s.range) rules
        → In rule rules
        → matches rule v ≡ true
        → find (λ (r : LogicalRule F V). matches r v) rules ≡ some rule
    unfolding matches
    find_unique v [] rule p i m = elim i [ ]
    find_unique v (r ∷ rules) rule (p, ps) (inl e) m = rw (e, m)
    find_unique v (r ∷ rules) rule (p, ps) (inr i) m = elim (Bool-cases (contains r.range v)) [
      | inl hit ↦ absurd (ground (arith, All-In _ rule rules p i v))
      | inr miss ↦ rw miss (find_unique v rules rule ps i m)
    ]

    -- Let `le` be an order on the numbers that are no NaN. In an entry that passed the check, the
    -- logical value of a number is that of any rule whose range holds it: the order of the rules
    -- does not matter.
    pub logical_value_unique :
        {V : Type 0} (entry : MappingEntry F V) (rule : LogicalRule F V) (v : F)
        → validate_logical_rules entry ≡ ok tt
        → In rule entry.logical
        → matches rule v ≡ true
        → logical_value entry v ≡ some rule.value
    unfolding logical_value
    logical_value_unique entry rule v h i m =
        ap value_of
          (find_unique v entry.logical rule ((validate_logical_rules-AreDisjoint entry).1 h) i m)
