-- ===== src/Derivation/Weight/Ladder.antt =====
-- The ladder of weights for one unit of a line.
use jsyxi_shipping.Prelude.{
  ℕ, ◌≡◌, refl, subst, true, false, inl, inr, Option, none, some, List, ◌∷◌, Text, is_empty, trim,
  Bool-cases,
}
use jsyxi_shipping.Result.{Result, ok, err, ok-injective, ◌>>=◌}
use jsyxi_shipping.Derivation.Weight.{
  WeightSource, sku_override, line_override, shopify, unweighed, DeadWeightLineInput, kg_to_grams,
  is_blank, first_rung, resolve_per_unit,
}

-- The rung holds a text that is not blank and reads as `grams`.
abbrev pub Hit : Option Text → ℕ → Type 0
Hit rung grams =
    (value : Text) × (rung ≡ some value) × (is_blank rung ≡ false) × (kg_to_grams value ≡ ok grams)

-- Which rung gave the weight, and that those above it are blank.
abbrev pub Resolves : DeadWeightLineInput → ℕ × WeightSource → Type 0
Resolves line (grams, sku_override) = Hit line.sku_override_weight_kg grams
Resolves line (grams, line_override) =
    (is_blank line.sku_override_weight_kg ≡ true) × Hit line.line_override_weight_kg grams
Resolves line (grams, shopify) =
    (is_blank line.sku_override_weight_kg ≡ true)
    × (is_blank line.line_override_weight_kg ≡ true)
    × Hit line.shopify_weight_kg grams
Resolves line (grams, unweighed) =
    (is_blank line.sku_override_weight_kg ≡ true)
    × (is_blank line.line_override_weight_kg ≡ true)
    × (is_blank line.shopify_weight_kg ≡ true)
    × (grams ≡ 0)

-- One rung of the loop.
first_rung-cons :
    (P : ℕ × WeightSource → Type 0) (source : WeightSource) (rung : Option Text)
    (rungs : List (WeightSource × Option Text)) (r : ℕ × WeightSource)
    → ((grams : ℕ) → Hit rung grams → P (grams, source))
    → (is_blank rung ≡ true → first_rung rungs ≡ ok r → P r)
    → first_rung ((source, rung) ∷ rungs) ≡ ok r
    → P r
unfolding first_rung
first_rung-cons P source none rungs r hit miss h = miss refl h
first_rung-cons P source (some value) rungs r hit miss h =
    elim (Bool-cases (is_empty (trim value))) [
      | inl blank ↦ miss blank (rw blank at h)
      | inr present ↦ read_hit present (kg_to_grams value) refl (rw present at h)
    ]
  where
    read_hit :
        is_empty (trim value) ≡ false
        → (m : Result ℕ) → kg_to_grams value ≡ m
        → (m >>= λ grams. ok (grams, source)) ≡ ok r
        → P r
    read_hit present (ok grams) e g =
        subst P {x = (grams, source)} (ok-injective g) (hit grams (value, refl, present, e))
    read_hit present (err fault) e g = cc

-- The weight that `resolvePerUnit` returns comes from the first rung that is present and not blank;
-- where all three are blank it is zero, with the source NONE.
pub resolve_per_unit_lem :
    (line : DeadWeightLineInput) (r : ℕ × WeightSource)
    → resolve_per_unit line ≡ ok r
    → Resolves line r
unfolding resolve_per_unit first_rung
resolve_per_unit_lem line r h =
    first_rung-cons (Resolves line) sku_override line.sku_override_weight_kg _ r (λ grams hit. hit)
      (λ blank_sku.
        first_rung-cons (Resolves line) line_override line.line_override_weight_kg _ r
          (λ grams hit. (blank_sku, hit))
          λ blank_line.
            first_rung-cons (Resolves line) shopify line.shopify_weight_kg _ r
              (λ grams hit. (blank_sku, blank_line, hit))
              λ blank_shopify e.
                subst (Resolves line) {x = (0, unweighed)} (ok-injective e)
                  (blank_sku, blank_line, blank_shopify, refl))
      h
