-- ===== src/Derivation/Packaging/Ladder.antt =====
-- Which rung of the ladder gives the profile.
use mathlib.Core.Option.{some-injective}
use mathlib.Core.List.{Mem, mem-cons_self, mem-cons_of_mem}
use mathlib.Core.List.Perm
use mathlib.Core.List.Perm.{mem_iff}
use jsyxi_shipping.Prelude.{
  ℕ, ◌≤◌, ◌<◌, ◌≡◌, refl, subst, sym, ◌∙◌, ◌⊎◌, inl, inr, Bool, true, false, Bool-cases, Option,
  none, some, List, [], ◌∷◌, arith, All, All-weaken, ltb,
}
use jsyxi_shipping.Prelude.Int.{ℤ}
use jsyxi_shipping.Prelude.Sort.{IsSorted, sort_by-IsSorted, perm-sort_by, All-of_sort_by}
use jsyxi_shipping.Result.{ok, >>=-eq-ok, ok-injective}
use jsyxi_shipping.Derivation.Weight.{kg_to_grams}
use jsyxi_shipping.Derivation.Packaging.{
  PackageProfileInput, PackageRuleInput, PackageSelectionInput, PackageSelectionResult,
  PackageSelectionSource, sku_override, selection_rule, default, volume, rule_matches, hits_of,
  distinct_from, largest, by_id, take_rule, first_rule, select_default, defaults_of, select_ruled,
  sorted_rules, select_distinct, select_package_profile,
}

abbrev pub NotLarger : PackageProfileInput → PackageProfileInput → Type 0
NotLarger winner p = (v best : ℕ) → volume p ≡ ok v → volume winner ≡ ok best → v ≤ best

-- A rule that is passed over: it does not match, or its profile is missing.
abbrev pub Skipped : List PackageProfileInput → ℕ → ℤ → PackageRuleInput → Type 0
Skipped profiles grams items rule =
    (rule_matches rule grams items ≡ ok false) ⊎ (by_id profiles rule.package_profile_id ≡ none)

-- The rule that selects: it matches, its profile is there, and every rule before it is passed over.
abbrev pub Selects : PackageSelectionInput → ℕ → PackageRuleInput → PackageProfileInput → Type 0
Selects input grams rule profile =
    Mem rule input.rules
    × (rule_matches rule grams input.total_items ≡ ok true)
    × (by_id input.profiles rule.package_profile_id ≡ some profile)
    × All (λ y. y.position < rule.position → Skipped input.profiles grams input.total_items y)
        input.rules

same_volume : (p : PackageProfileInput) → NotLarger p p
same_volume p v best h k = let e : v ≡ best = ok-injective (rw (sym h) k) in omega arith

largest_lem :
    (winner : PackageProfileInput) (ps : List PackageProfileInput) (w : PackageProfileInput)
    → largest winner ps ≡ ok w
    → Mem w (winner ∷ ps) × NotLarger w winner × All (NotLarger w) ps
unfolding largest
largest_lem winner [] w h =
    subst (λ x. Mem x (winner ∷ []) × NotLarger x winner × All (NotLarger x) []) (ok-injective h)
      (mem-cons_self, same_volume winner, tt)
largest_lem winner (p ∷ ps) w h =
    let (v, vp, h1) = >>=-eq-ok (volume p) _ h in
    let (best, vw, h2) = >>=-eq-ok (volume winner) _ h1 in
    elim (Bool-cases (ltb best v)) [
      | inl more ↦
          let (m, over, rest) = largest_lem p ps w (rw more at h2) in
          (
            mem-cons_of_mem winner m,
            (λ v' b' e k.
                let same : v' ≡ best = ok-injective (sym e ∙ vw) in
                let le = over v b' vp k in ground arith),
            (over, rest),
          )
      | inr less ↦
          let (m, over, rest) = largest_lem winner ps w (rw less at h2) in
          (
            (mem_iff (Perm.swap winner p ps)).0 (mem-cons_of_mem p m),
            over,
            (
              (λ v' b' e k.
                  let same : v' ≡ v = ok-injective (sym e ∙ vp) in
                  let le = over best b' vw k in ground arith),
              rest,
            ),
          )
    ]

first_rule_lem :
    (profiles : List PackageProfileInput) (grams : ℕ) (items : ℤ) (rules : List PackageRuleInput)
    (r : PackageRuleInput) (p : PackageProfileInput)
    → IsSorted (λ (r : PackageRuleInput). r.position) rules
    → first_rule profiles grams items rules ≡ ok (some (r, p))
    → Mem r rules
      × (rule_matches r grams items ≡ ok true)
      × (by_id profiles r.package_profile_id ≡ some p)
      × All (λ y. y.position < r.position → Skipped profiles grams items y) rules
unfolding first_rule take_rule
first_rule_lem profiles grams items [] r p sorted h = cc
first_rule_lem profiles grams items (x ∷ rules) r p (below, sorted) h =
    let (m, matches, h1) = >>=-eq-ok (rule_matches x grams items) _ h in
    round m (by_id profiles x.package_profile_id) refl matches h1
      (first_rule_lem profiles grams items rules r p sorted)
  where
    round :
        (m : Bool) (target : Option PackageProfileInput)
        → by_id profiles x.package_profile_id ≡ target
        → rule_matches x grams items ≡ ok m
        → take_rule m target x (first_rule profiles grams items rules) ≡ ok (some (r, p))
        → (first_rule profiles grams items rules ≡ ok (some (r, p))
            → Mem r rules
              × (rule_matches r grams items ≡ ok true)
              × (by_id profiles r.package_profile_id ≡ some p)
              × All (λ y. y.position < r.position → Skipped profiles grams items y) rules)
        → Mem r (x ∷ rules)
          × (rule_matches r grams items ≡ ok true)
          × (by_id profiles r.package_profile_id ≡ some p)
          × All (λ y. y.position < r.position → Skipped profiles grams items y) (x ∷ rules)
    round false target e matches h later =
        let (m, ms, found, rest) = later h in
        (mem-cons_of_mem x m, ms, found, ((λ _. inl matches), rest))
    round true none e matches h later =
        let (m, ms, found, rest) = later h in (mem-cons_of_mem x m, ms, found, ((λ _. inr e), rest))
    round true (some q) e matches h later =
        subst
          (λ (z : PackageRuleInput × PackageProfileInput).
            Mem z.0 (x ∷ rules)
            × (rule_matches z.0 grams items ≡ ok true)
            × (by_id profiles z.0.package_profile_id ≡ some z.1)
            × All (λ y. y.position < z.0.position → Skipped profiles grams items y) (x ∷ rules))
          (some-injective _ _ (ok-injective h))
          (
            mem-cons_self,
            matches,
            e,
            (
              (λ lt. absurd (omega arith)),
              All-weaken (λ (y : PackageRuleInput). x.position ≤ y.position) _ rules
                  (λ y le lt. absurd (omega arith)) below,
            ),
          )

-- Where no rule selects, each is passed over.
first_rule-none :
    (profiles : List PackageProfileInput) (grams : ℕ) (items : ℤ) (rules : List PackageRuleInput)
    → first_rule profiles grams items rules ≡ ok none
    → All (Skipped profiles grams items) rules
unfolding first_rule take_rule
first_rule-none profiles grams items [] h = tt
first_rule-none profiles grams items (x ∷ rules) h =
    let (m, matches, h1) = >>=-eq-ok (rule_matches x grams items) _ h in
    round m (by_id profiles x.package_profile_id) refl matches h1
      (first_rule-none profiles grams items rules)
  where
    round :
        (m : Bool) (target : Option PackageProfileInput)
        → by_id profiles x.package_profile_id ≡ target
        → rule_matches x grams items ≡ ok m
        → take_rule m target x (first_rule profiles grams items rules) ≡ ok none
        → (first_rule profiles grams items rules ≡ ok none
            → All (Skipped profiles grams items) rules)
        → All (Skipped profiles grams items) (x ∷ rules)
    round false target e matches h later = (inl matches, later h)
    round true none e matches h later = (inr e, later h)
    round true (some q) e matches h later = cc

abbrev pub distinct_hits : PackageSelectionInput → List PackageProfileInput
distinct_hits input = distinct_from [] (hits_of input)

-- What each rung says of the profile that it gives.
abbrev pub FromRung :
    PackageSelectionInput → PackageSelectionResult → PackageSelectionSource → Type 0
FromRung input r sku_override =
    Mem r.profile (distinct_hits input) × All (NotLarger r.profile) (distinct_hits input)
FromRung input r selection_rule =
    (distinct_hits input ≡ [])
    × ((grams : ℕ) × (rule : PackageRuleInput) × (kg_to_grams input.content_weight_kg ≡ ok grams)
        × (r.matched_rule_id ≡ some rule.package_rule_id)
        × Selects input grams rule r.profile)
FromRung input r default =
    (distinct_hits input ≡ [])
    × ((grams : ℕ) × (kg_to_grams input.content_weight_kg ≡ ok grams)
        × All (Skipped input.profiles grams input.total_items) input.rules)
    × (defaults_of input ≡ r.profile ∷ [])

select_default_lem :
    (ps : List PackageProfileInput) (r : PackageSelectionResult)
    → select_default ps ≡ ok r
    → (p : PackageProfileInput) × (ps ≡ p ∷ [])
      × (record {
        profile = p;
        source = default;
        matched_rule_id = none;
        conflict_resolved_by_volume = false;
      }
          ≡ r)
unfolding select_default
select_default_lem [] r h = cc
select_default_lem (p ∷ []) r h = (p, refl, ok-injective h)
select_default_lem (p ∷ q ∷ ps) r h = cc

ruled_lem :
    (input : PackageSelectionInput) (grams : ℕ)
    (found : Option (PackageRuleInput × PackageProfileInput)) (r : PackageSelectionResult)
    → distinct_hits input ≡ []
    → kg_to_grams input.content_weight_kg ≡ ok grams
    → first_rule input.profiles grams input.total_items (sorted_rules input) ≡ ok found
    → select_ruled input found ≡ ok r
    → FromRung input r r.source
unfolding select_ruled
ruled_lem input grams none r empty weighs none_found h =
    let (p, only, same) = select_default_lem (defaults_of input) r h in
    subst (λ x. FromRung input x x.source) same
      (
        empty,
        (
          grams,
          weighs,
          All-of_sort_by (λ (r : PackageRuleInput). r.position) _ input.rules
              (first_rule-none input.profiles grams input.total_items (sorted_rules input)
                none_found),
        ),
        only,
      )
ruled_lem input grams (some (rule, profile)) r empty weighs found h =
    let key = λ (r : PackageRuleInput). r.position in
    let (m, matches, target, rest) =
      first_rule_lem input.profiles grams input.total_items (sorted_rules input) rule profile
        (sort_by-IsSorted key input.rules) found in
    let kept = (mem_iff (perm-sort_by key input.rules)).0 m in
    subst (λ x. FromRung input x x.source) (ok-injective h)
      (
        empty,
        (grams, rule, weighs, refl, (kept, matches, target, All-of_sort_by key _ input.rules rest)),
      )

-- The profile that is selected comes from the first rung that has one: of the distinct profiles
-- that SKU overrides give to the lines, one with the largest volume; without any, the profile of a
-- rule that matches and stands, and every rule of smaller position does not match or has no
-- profile; where no rule both matches and has its profile, the only profile that is marked as default.
pub select_package_profile-FromRung :
    (input : PackageSelectionInput) (r : PackageSelectionResult)
    → select_package_profile input ≡ ok r
    → FromRung input r r.source
unfolding select_package_profile select_distinct
select_package_profile-FromRung input r h = from (distinct_hits input) refl h
  where
    from :
        (ps : List PackageProfileInput)
        → distinct_hits input ≡ ps
        → select_distinct input ps ≡ ok r
        → FromRung input r r.source
    from [] e h =
        let (grams, weighs, h1) = >>=-eq-ok (kg_to_grams input.content_weight_kg) _ h in
        let (found, ruled, h2) =
          >>=-eq-ok (first_rule input.profiles grams input.total_items (sorted_rules input)) _ h1 in
        ruled_lem input grams found r e weighs ruled h2
    from (p ∷ ps) e h =
        let (w, won, h1) = >>=-eq-ok (largest p ps) _ h in
        let (m, over, rest) = largest_lem p ps w won in
        subst (λ x. FromRung input x x.source) (ok-injective h1)
          (subst (λ ds. Mem w ds × All (NotLarger w) ds) (sym e) (m, (over, rest)))
