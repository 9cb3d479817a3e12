-- ===== src/Tracking/Reducer/Concurrency.antt =====
-- The reducer among other writers of the same row.
use jsyxi_shipping.Prelude.{
  ℕ, zero, suc, ◌≡◌, refl, inl, inr, Bool, true, false, not, ◌&&◌, none, List, [], ◌∷◌, All,
  All-append, Bool-cases, ◌==◌, if◌then◌else◌,
}
use jsyxi_shipping.States.{CarrierEventStatus}
use jsyxi_shipping.Tracking.Reducer.{
  Shipment, Effect, flag_review, decide_transition, apply_attempts, apply_event, is_none,
  max_version_retries, review_effects,
}

module _ (others : ℕ → Shipment → Shipment) (status : CarrierEventStatus) (at : ℕ) where
  -- The row after the others' writes of the last `k` attempts.
  abbrev pub written : ℕ → Shipment → Shipment
  written zero r = r
  written (suc k) r = written k (others k r)

  -- An attempt that loses every race leaves the others' row, and has sent nothing but review flags.
  attempts-conflict :
      (k : ℕ) (row : Shipment) (sent : List Effect)
      → All (λ e. e ≡ flag_review) sent
      → (apply_attempts others status at k row sent).outcome ≡ none
      → ((apply_attempts others status at k row sent).shipment ≡ written k row)
        × All (λ e. e ≡ flag_review) (apply_attempts others status at k row sent).effects
  unfolding apply_attempts
  attempts-conflict zero row sent h e = (refl, h)
  attempts-conflict (suc k) row sent h e =
      let d = decide_transition row status in
      let found = others k row in
      elim (Bool-cases (not d.movement_changes && is_none d.custody_target)) [
        | inl still ↦ cc (rw still at e)
        | inr writes ↦ elim (Bool-cases (found.version == row.version)) [
          | inl current ↦ cc (rw (writes, current) at e)
          | inr stale ↦
              rw (writes, stale)
                (attempts-conflict k found _
                  (All-append (λ x. x ≡ flag_review) sent (review_effects d) h
                    (flags d.review_flag))
                  (rw (writes, stale) at e))
        ]
      ]
    where
      flags : (b : Bool) → All (λ x. x ≡ flag_review) (if b then flag_review ∷ [] else [])
      flags true = (refl, tt)
      flags false = tt

  -- Where `applyEvent` gives up with a conflict, it has written nothing of its own: the row is what
  -- the other writers made of it in five attempts, and it has sent nothing but review flags.
  pub apply_event-conflict :
      (row : Shipment)
      → (apply_event others status at row).outcome ≡ none
      → ((apply_event others status at row).shipment ≡ written 5 row)
        × All (λ e. e ≡ flag_review) (apply_event others status at row).effects
  unfolding apply_event
  apply_event-conflict row e = attempts-conflict max_version_retries row [] tt e
