-- ===== src/OrderSync/Allocation/Coverage.antt =====
-- No fulfillment order is dropped, and none is allocated twice.
use mathlib.Core.List.{Perm, perm_middle, append_assoc, append-nil}
use mathlib.Core.List.Perm
use jsyxi_shipping.Prelude.{
  ◌≡◌, refl, ap, sym, ◌∙◌, inl, inr, Bool, true, false, Option, List, [], ◌∷◌, ◌++◌, Text,
  Bool-cases,
}
use jsyxi_shipping.OrderSync.Allocation.{
  FulfillmentOrderInfo, AllocationPlanItem, gids_of, is_in_house, sort_out, open_items, or_default,
  build_allocation_plan,
}

-- The fulfillment orders that the items of a plan stand for.
abbrev pub sources : List AllocationPlanItem → List Text
sources [] = []
sources (item ∷ plan) = item.source_fulfillment_order_gids ++ sources plan

sources-append : (xs ys : List AllocationPlanItem) → sources (xs ++ ys) ≡ sources xs ++ sources ys
sources-append [] ys = refl
sources-append (x ∷ xs) ys =
    ap (λ t. x.source_fulfillment_order_gids ++ t) (sources-append xs ys)
    ∙ sym (append_assoc x.source_fulfillment_order_gids (sources xs) (sources ys))

module _ (ships : Option Text → Bool) where
  sort_out-perm :
      (fos : List FulfillmentOrderInfo)
      → let (plan, in_house) = sort_out ships fos in
        Perm (sources plan ++ gids_of in_house) (gids_of fos)
  unfolding sort_out
  sort_out-perm [] = Perm.refl []
  sort_out-perm (fo ∷ rest) =
      let (plan, in_house) = sort_out ships rest in
      let ih = sort_out-perm rest in
      elim (Bool-cases (is_in_house fo.status)) [
        | inr out ↦ rw out (Perm.cons fo.gid ih)
        | inl ours ↦ elim (Bool-cases (ships fo.location_gid)) [
          | inl shipped ↦
              rw (ours, shipped)
                (Perm.trans (perm_middle (sources plan) (gids_of in_house)) (Perm.cons fo.gid ih))
          | inr elsewhere ↦ rw (ours, elsewhere) (Perm.cons fo.gid ih)
        ]
      ]

  sources-open_items :
      (can_merge : Bool) (in_house : List FulfillmentOrderInfo)
      → sources (open_items ships can_merge in_house) ≡ gids_of in_house
  unfolding open_items
  sources-open_items true [] = refl
  sources-open_items true (fo ∷ rest) = append-nil (gids_of (fo ∷ rest))
  sources-open_items false [] = refl
  sources-open_items false (fo ∷ rest) = ap (◌∷◌ fo.gid) (sources-open_items false rest)

  sources-or_default :
      (plan : List AllocationPlanItem) → sources (or_default ships plan) ≡ sources plan
  unfolding or_default
  sources-or_default [] = refl
  sources-or_default (item ∷ plan) = refl

  -- The items of the plan stand, together, for exactly the given fulfillment orders, each as often as
  -- it is given, whether orders can be merged or not.
  pub build_allocation_plan-perm :
      (fos : List FulfillmentOrderInfo) (can_merge : Bool)
      → Perm (sources (build_allocation_plan ships fos can_merge)) (gids_of fos)
  unfolding build_allocation_plan
  build_allocation_plan-perm fos can_merge =
      let (plan, in_house) = sort_out ships fos in
      rw
        (
          sources-or_default (plan ++ open_items ships can_merge in_house),
          sources-append plan (open_items ships can_merge in_house),
          sources-open_items can_merge in_house,
        )
        (sort_out-perm fos)
