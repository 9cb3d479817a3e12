-- ===== src/Derivation/Weight/Total.antt =====
-- The total dead weight against its specification over naturals.
use jsyxi_shipping.Prelude.{
  ℕ, ◌+◌, ◌*◌, ◌/◌, ◌%◌, ◌≡◌, to_text, refl, ap, false, inl, inr, List, [], ◌∷◌, arith, Text, ◌==◌,
  if◌then◌else◌, Bool-cases,
}
use jsyxi_shipping.Prelude.Int.{pos, pos_mul, quot-pos, rem-pos, ltb_ℤ}
use jsyxi_shipping.Prelude.Decimal.{print_decimal}
use jsyxi_shipping.Result.{ok, invalid_weight, of_scaled-print, traverse, Returns, Returns-bind}
use jsyxi_shipping.Derivation.Weight.{
  WeightSource, DeadWeightLineInput, DeadWeightLineResult, kg_to_grams, bigint_text, grams_to_kg,
  resolve_per_unit, line_result, line_weight_total, derive_dead_weight,
}

bigint_text-pos : (n : ℕ) → bigint_text (pos n) ≡ to_text n
unfolding bigint_text
bigint_text-pos n = rw (nonneg n)
  where
    nonneg : (n : ℕ) → ltb_ℤ (pos n) (pos 0) ≡ false
    nonneg n = ground arith

grams_to_kg-pos : (n : ℕ) → grams_to_kg (pos n) ≡ print_decimal 3 n
unfolding grams_to_kg print_decimal
grams_to_kg-pos n =
    rw (quot-pos n 1000, rem-pos n 1000, bigint_text-pos (n / 1000), bigint_text-pos (n % 1000))

-- A weight of whole grams reads back from its text in kilograms.
pub kg_to_grams-grams_to_kg : (n : ℕ) → kg_to_grams (grams_to_kg (pos n)) ≡ ok n
unfolding kg_to_grams
kg_to_grams-grams_to_kg n = rw (grams_to_kg-pos n) (of_scaled-print 2 invalid_weight n)

-- `line` resolves to `grams` per unit and has `quantity` units.
abbrev pub Weighs : DeadWeightLineInput → ℕ × ℕ → Type 0
Weighs line (grams, quantity) =
    (s : WeightSource) × (resolve_per_unit line ≡ ok (grams, s)) × (line.quantity ≡ pos quantity)

abbrev pub AllWeigh : List DeadWeightLineInput → List (ℕ × ℕ) → Type 0
AllWeigh [] [] = Unit
AllWeigh (line ∷ lines) (u ∷ us) = Weighs line u × AllWeigh lines us
AllWeigh _ _ = ⊥

abbrev pub total_grams : List (ℕ × ℕ) → ℕ
total_grams [] = 0
total_grams ((grams, quantity) ∷ us) = grams * quantity + total_grams us

-- F-24 by its definition: the lines' weight, or the default where that is zero, and the tare once.
abbrev pub dead_weight : ℕ → ℕ → ℕ → ℕ
dead_weight total tare default_parcel = (if total == 0 then default_parcel else total) + tare

line_result-Returns :
    (line : DeadWeightLineInput) (u : ℕ × ℕ)
    → Weighs line u
    → Returns (λ r. kg_to_grams r.line_weight_kg ≡ ok (u.0 * u.1)) (line_result line)
unfolding line_result
line_result-Returns line (g, q) (s, resolved, quantity) =
    rw (resolved, quantity, pos_mul g q) (kg_to_grams-grams_to_kg (g * q))

-- The lines' results sum to `n`, from any accumulator.
abbrev Sums : ℕ → List DeadWeightLineResult → Type 0
Sums n rs = (acc : ℕ) → line_weight_total acc rs ≡ ok (acc + n)

traverse-Returns :
    (lines : List DeadWeightLineInput) (us : List (ℕ × ℕ))
    → AllWeigh lines us
    → Returns (Sums (total_grams us)) (traverse line_result lines)
unfolding line_weight_total
traverse-Returns [] [] h = λ acc. ap ok (omega arith)
traverse-Returns [] (u ∷ us) h = absurd h
traverse-Returns (line ∷ lines) [] h = absurd h
traverse-Returns (line ∷ lines) (u ∷ us) (h, hs) =
    Returns-bind (λ r. kg_to_grams r.line_weight_kg ≡ ok (u.0 * u.1)) (Sums (total_grams (u ∷ us)))
      (line_result line) _ (line_result-Returns line u h)
      λ r weight.
        Returns-bind (Sums (total_grams us)) (Sums (total_grams (u ∷ us)))
          (traverse line_result lines) _ (traverse-Returns lines us hs)
          λ rs sums acc. rw (weight, sums (acc + u.0 * u.1)) (ap ok (omega arith))

-- If every line's ladder resolves, no quantity is negative, and the tare and the default parcel
-- weight are valid texts, `deriveDeadWeight` returns; its total is the sum of unit weight times
-- quantity, the default is used exactly where that sum is zero, and the dead weight is that sum (or
-- the default, once) with the tare added once.
pub derive_dead_weight_lem :
    (lines : List DeadWeightLineInput) (us : List (ℕ × ℕ)) (tare_kg default_kg : Text)
    (tare default_parcel : ℕ)
    → AllWeigh lines us
    → kg_to_grams tare_kg ≡ ok tare
    → kg_to_grams default_kg ≡ ok default_parcel
    → Returns
        (λ r.
          (kg_to_grams r.dead_weight_kg ≡ ok (dead_weight (total_grams us) tare default_parcel))
          × (kg_to_grams r.line_weight_total_kg ≡ ok (total_grams us))
          × (kg_to_grams r.tare_kg ≡ ok tare)
          × (r.used_default_parcel_weight ≡ (total_grams us == 0)))
        (derive_dead_weight lines tare_kg default_kg)
unfolding derive_dead_weight
derive_dead_weight_lem lines us tare_kg default_kg tare default_parcel h ht hd =
    Returns-bind (Sums (total_grams us)) _ (traverse line_result lines) _
      (traverse-Returns lines us h)
      λ rs sums.
        let total = total_grams us in
        let same : 0 + total ≡ total = omega arith in
        rw (sums 0, same, ht, hd)
          (elim (Bool-cases (total == 0)) [
            | inl none_weighed ↦ rw none_weighed (
              kg_to_grams-grams_to_kg (default_parcel + tare),
              kg_to_grams-grams_to_kg total,
              kg_to_grams-grams_to_kg tare,
              refl,
            )
            | inr weighed ↦ rw weighed (
              kg_to_grams-grams_to_kg (total + tare),
              kg_to_grams-grams_to_kg total,
              kg_to_grams-grams_to_kg tare,
              refl,
            )
          ])
