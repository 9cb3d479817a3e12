-- ===== src/RateEngine/Weights/Billable.antt =====
-- The weight pipeline on readable terms.
use Prim.Native.Nat.{max}
use jsyxi_shipping.Prelude.{
  ◌≢◌, Option-cases, ℕ, zero, suc, ◌+◌, ◌*◌, ◌/◌, ◌≤◌, ◌<◌, ◌≡◌, refl, inl, inr, Option, none, some,
  Text, arith,
}
use jsyxi_shipping.Prelude.Int.{pos}
use jsyxi_shipping.Result.{Result, ok, Returns, >>=-eq-ok}
use jsyxi_shipping.Money.{half_up}
use jsyxi_shipping.Money.Rounding.{IsHalfUp, half_up-IsHalfUp, div_round_half_up-pos, ceil_div-pos}
use jsyxi_shipping.Derivation.Weight.{kg_to_grams, grams_to_kg}
use jsyxi_shipping.Derivation.Weight.Total.{kg_to_grams-grams_to_kg}
use jsyxi_shipping.RateEngine.Weights.{
  cm_to_hundredths, divisor_to_ten_thousandths, volumetric_weight_kg, raw_chargeable_weight_kg,
  billable_weight_kg, WeightBreakdown, WeightTerms, weights_from, compute_weights,
}

-- The larger of the minimum and the least multiple of the increment that covers `raw`.
abbrev pub IsBillable : ℕ → ℕ → ℕ → ℕ → Type 0
IsBillable raw min increment billable =
    (steps : ℕ) × (raw ≤ steps * increment)
    × (steps * increment < raw + increment)
    × (billable ≡ max (steps * increment) min)

volumetric_lem :
    (length_cm width_cm height_cm divisor : Text) (l w h d : ℕ)
    → cm_to_hundredths length_cm ≡ ok l
    → cm_to_hundredths width_cm ≡ ok w
    → cm_to_hundredths height_cm ≡ ok h
    → divisor_to_ten_thousandths divisor ≡ ok (suc d)
    → volumetric_weight_kg length_cm width_cm height_cm (some divisor)
      ≡ ok (some (grams_to_kg (pos (half_up (l * w * h * 10) (suc d)))))
unfolding volumetric_weight_kg
volumetric_lem length_cm width_cm height_cm divisor l w h d rl rw' rh rd =
    rw (rd, rl, rw', rh) (ground (arith, div_round_half_up-pos (l * w * h * 10) d))

raw_lem :
    (dead_kg volumetric_kg : Text) (dead volumetric : ℕ)
    → kg_to_grams dead_kg ≡ ok dead
    → kg_to_grams volumetric_kg ≡ ok volumetric
    → raw_chargeable_weight_kg dead_kg volumetric_kg ≡ ok (grams_to_kg (pos (max dead volumetric)))
unfolding raw_chargeable_weight_kg
raw_lem dead_kg volumetric_kg dead volumetric rd rv = rw (rd, rv) (ground arith)

abbrev steps_of : ℕ → ℕ → ℕ
steps_of raw i = (raw + i) / suc i

billable_lem :
    (raw_kg min_kg increment_kg : Text) (raw min i : ℕ)
    → kg_to_grams raw_kg ≡ ok raw
    → kg_to_grams min_kg ≡ ok min
    → kg_to_grams increment_kg ≡ ok (suc i)
    → billable_weight_kg raw_kg (some min_kg) (some increment_kg)
      ≡ ok (some (grams_to_kg (pos (max (steps_of raw i * suc i) min))))
unfolding billable_weight_kg
billable_lem raw_kg min_kg increment_kg raw min i rr rm ri =
    rw (ri, rr, rm) (ground (arith, ceil_div-pos raw i))

steps_cover : (raw i : ℕ) → (raw ≤ steps_of raw i * suc i) × (steps_of raw i * suc i < raw + suc i)
steps_cover raw i = grind arith

IsBillable-max : (raw min i : ℕ) → IsBillable raw min (suc i) (max (steps_of raw i * suc i) min)
IsBillable-max raw min i =
    let (covers, near) = steps_cover raw i in (steps_of raw i, covers, near, refl)

-- The texts of the terms, and the numbers that they read as.
pub record Reads (args : WeightTerms) (divisor_text min_text increment_text : Text)
    (length width height divisor dead min increment : ℕ) : Type 0 where
  pub length_reads : cm_to_hundredths args.length_cm ≡ ok length
  pub width_reads : cm_to_hundredths args.width_cm ≡ ok width
  pub height_reads : cm_to_hundredths args.height_cm ≡ ok height
  pub dead_reads : kg_to_grams args.dead_weight_kg ≡ ok dead
  pub divisor_present : args.divisor ≡ some divisor_text
  pub divisor_reads : divisor_to_ten_thousandths divisor_text ≡ ok divisor
  pub min_present : args.min_billable_kg ≡ some min_text
  pub min_reads : kg_to_grams min_text ≡ ok min
  pub increment_present : args.increment_kg ≡ some increment_text
  pub increment_reads : kg_to_grams increment_text ≡ ok increment

-- F-1, F-2 and F-3 by their definitions, on what a breakdown's texts read as.
abbrev pub Weighed : ℕ → ℕ → ℕ → ℕ → ℕ → Option WeightBreakdown → Type 0
Weighed product divisor dead min increment none = ⊥
Weighed product divisor dead min increment (some b) =
    (volumetric : ℕ) × (billable : ℕ) × (kg_to_grams b.volumetric_weight_kg ≡ ok volumetric)
    × IsHalfUp (product * 10) divisor volumetric
    × (kg_to_grams b.raw_chargeable_kg ≡ ok (max dead volumetric))
    × (kg_to_grams b.billable_weight_kg ≡ ok billable)
    × IsBillable (max dead volumetric) min increment billable

-- Where every term of a service version is present and reads as a number, and the divisor and the
-- increment are not zero, `computeWeights` returns a breakdown: the volumetric weight is the volume
-- over the divisor rounded half up to the gram, the chargeable weight is the larger of it and the
-- dead weight, and the billable weight is the larger of the minimum and the least multiple of the
-- increment that covers the chargeable weight.
pub compute_weights_lem :
    (args : WeightTerms) (divisor_text min_text increment_text : Text)
    (length width height divisor dead min increment : ℕ)
    → Reads args divisor_text min_text increment_text length width height divisor dead min increment
    → 0 < divisor
    → 0 < increment
    → Returns (Weighed (length * width * height) divisor dead min increment) (compute_weights args)
unfolding compute_weights
compute_weights_lem args td tm ti l w h zero dead min i r pos_d pos_i = absurd (omega arith)
compute_weights_lem args td tm ti l w h (suc d) dead min zero r pos_d pos_i = absurd (omega arith)
compute_weights_lem args td tm ti l w h (suc d) dead min (suc i) r pos_d pos_i =
    let v = half_up (l * w * h * 10) (suc d) in
    let raw = max dead v in
    let billable = max (steps_of raw i * suc i) min in
    rw
      (
        r.divisor_present,
        volumetric_lem _ _ _ td l w h d r.length_reads r.width_reads r.height_reads r.divisor_reads,
        raw_lem _ _ dead v r.dead_reads (kg_to_grams-grams_to_kg v),
        r.min_present,
        r.increment_present,
        billable_lem _ tm ti raw min i (kg_to_grams-grams_to_kg raw) r.min_reads r.increment_reads,
      )
      (
        v,
        billable,
        kg_to_grams-grams_to_kg v,
        half_up-IsHalfUp (l * w * h * 10) (suc d) (omega arith),
        kg_to_grams-grams_to_kg raw,
        kg_to_grams-grams_to_kg billable,
        IsBillable-max raw min i,
      )

-- The term is there, and does not read as zero.
abbrev pub NonzeroText : (Text → Result ℕ) → Option Text → Type 0
NonzeroText reads o = (t : Text) × (o ≡ some t) × (reads t ≢ ok 0)

volumetric_guard :
    (length_cm width_cm height_cm : Text) (divisor : Option Text) (t : Text)
    → volumetric_weight_kg length_cm width_cm height_cm divisor ≡ ok (some t)
    → NonzeroText divisor_to_ten_thousandths divisor
unfolding volumetric_weight_kg
volumetric_guard l w h none t e = cc
volumetric_guard l w h (some d) t e = (d, refl, λ zero_read. cc (rw zero_read at e))

billable_guard :
    (raw_kg : Text) (min_kg increment_kg : Option Text) (t : Text)
    → billable_weight_kg raw_kg min_kg increment_kg ≡ ok (some t)
    → (min_kg ≢ none) × NonzeroText kg_to_grams increment_kg
unfolding billable_weight_kg
billable_guard raw_kg (some m) (some i) t e =
    (λ p. cc, (i, refl, λ zero_read. cc (rw zero_read at e)))
billable_guard raw_kg none none t e = cc
billable_guard raw_kg none (some i) t e = cc
billable_guard raw_kg (some m) none t e = cc

weights_from_guard :
    (args : WeightTerms) (f1 : Option Text) (b : WeightBreakdown)
    → weights_from args f1 ≡ ok (some b)
    → (args.min_billable_kg ≢ none) × NonzeroText kg_to_grams args.increment_kg
unfolding weights_from
weights_from_guard args none b e = cc
weights_from_guard args (some f1) b e =
    let (f2, _, e2) = >>=-eq-ok (raw_chargeable_weight_kg args.dead_weight_kg f1) _ e in
    let (f3, billed, e3) =
      >>=-eq-ok (billable_weight_kg f2 args.min_billable_kg args.increment_kg) _ e2 in
    elim (Option-cases f3) [
      | inl absent ↦ cc (rw absent at e3)
      | inr (t, present) ↦
          billable_guard f2 args.min_billable_kg args.increment_kg t (rw present at billed)
    ]

-- `computeWeights` returns a weight only where the divisor and the increment are present and do not
-- read as zero, and the minimum is present.
pub compute_weights_guards :
    (args : WeightTerms) (b : WeightBreakdown)
    → compute_weights args ≡ ok (some b)
    → NonzeroText divisor_to_ten_thousandths args.divisor
      × (args.min_billable_kg ≢ none)
      × NonzeroText kg_to_grams args.increment_kg
unfolding compute_weights
compute_weights_guards args b e =
    let (f1, weighed, e1) =
      >>=-eq-ok (volumetric_weight_kg args.length_cm args.width_cm args.height_cm args.divisor) _
        e in
    elim (Option-cases f1) [
      | inl absent ↦ cc (rw absent at e1)
      | inr (t, present) ↦
          let (min_there, increment) = weights_from_guard args f1 b e1 in
          (volumetric_guard _ _ _ args.divisor t (rw present at weighed), min_there, increment)
    ]
