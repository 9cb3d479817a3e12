-- ===== src/Tracking/Reducer/Races.antt =====
-- The reducer's write against the rows that other writers leave.
use jsyxi_shipping.Prelude.{
  ◌⊎◌, ℕ, zero, suc, ◌+◌, ◌≤◌, ◌<◌, ◌≡◌, refl, sym, ap, ◌∙◌, inl, inr, Bool, true, false, not, ◌&&◌,
  none, some, List, [], ◌++◌, arith, Bool-cases, ==_iff, ◌==◌,
}
use jsyxi_shipping.States.{CarrierEventStatus, CustodyState, is_terminal}
use jsyxi_shipping.Tracking.Reducer.{
  Shipment, Effect, ReducerDecision, ReducerOutcome, Applied, decide_transition, event_to_movement,
  updated, applied_changed, applied_unchanged, apply_attempts, apply_event, is_none,
  max_version_retries, review_effects,
}
use jsyxi_shipping.Tracking.Reducer.Terminal.{decide_transition_target, terminal_write}

-- Other writers do not move a shipment out of a terminal state.
abbrev pub KeepTerminal : (ℕ → Shipment → Shipment) → Type 0
KeepTerminal others =
    (k : ℕ) (r : Shipment)
    → is_terminal r.movement_state ≡ true
    → (others k r).movement_state ≡ r.movement_state

-- Other writers count the version up when they write.
abbrev pub CountVersions : (ℕ → Shipment → Shipment) → Type 0
CountVersions others =
    (k : ℕ) (r : Shipment) → (others k r ≡ r) ⊎ (r.version < (others k r).version)

module _ (others : ℕ → Shipment → Shipment) (status : CarrierEventStatus) (at : ℕ) where
  -- The row after the first `i` of the others' writes, of `k` attempts.
  abbrev pub row_at : ℕ → ℕ → Shipment → Shipment
  row_at zero k r = r
  row_at (suc i) zero r = r
  row_at (suc i) (suc k) r = row_at i k (others k r)

  -- The row is left, or the event is written on it: its movement is the event's, its custody moves where the
  -- decision says so, the delivery instant is set where it says so, and its version counts up by one.
  abbrev pub Writes : ReducerDecision → Shipment → Shipment → Type 0
  Writes d row after =
      (after.movement_state ≡ event_to_movement status)
      × ((c : CustodyState) → d.custody_target ≡ some c → after.custody_state ≡ c)
      × (d.custody_target ≡ none → after.custody_state ≡ row.custody_state)
      × (d.set_delivered_at ≡ true → after.delivered_at ≡ some at)
      × (d.set_delivered_at ≡ false → after.delivered_at ≡ row.delivered_at)
      × (after.version ≡ row.version + 1)

  abbrev pub moves_nothing : ReducerDecision → Bool
  moves_nothing d = not d.movement_changes && is_none d.custody_target

  abbrev pub LeavesOrWrites : Shipment → Shipment → Type 0
  LeavesOrWrites row after =
      let d = decide_transition row status in
      (moves_nothing d ≡ true → after ≡ row) × (moves_nothing d ≡ false → Writes d row after)

  updated-Writes :
      (row : Shipment)
      → Writes (decide_transition row status) row (updated (decide_transition row status) at row)
  unfolding updated
  updated-Writes row =
      let d = decide_transition row status in
      (
        decide_transition_target row status,
        (λ c e. rw e refl),
        (λ e. rw e refl),
        (λ e. rw e refl),
        (λ e. rw e refl),
        refl,
      )

  -- What the service answers when it returns.
  abbrev pub Answers : Shipment → Applied → Type 0
  Answers row result =
      let d = decide_transition row status in
      (o : ReducerOutcome) × (result.outcome ≡ some o)
      × (o.movement_state ≡ result.shipment.movement_state)
      × (o.state_changed ≡ d.movement_changes)
      × (o.review_flag ≡ d.review_flag)

  -- The event takes effect on the row as the others left it at some attempt: that row is left as it is, or
  -- the event is written on it as decided on it. No terminal row up to then loses its movement.
  abbrev pub TakesEffect : ℕ → Shipment → Shipment → Type 0
  TakesEffect k row after =
      (i : ℕ) × (i ≤ k)
      × ((after ≡ row_at i k row)
          ⊎ Writes (decide_transition (row_at i k row) status) (row_at i k row) after)
      × ((j : ℕ)
          → j ≤ i
          → is_terminal (row_at j k row).movement_state ≡ true
          → after.movement_state ≡ (row_at j k row).movement_state)

  only_zero :
      (k : ℕ) (row after : Shipment)
      → (is_terminal row.movement_state ≡ true → after.movement_state ≡ row.movement_state)
      → (j : ℕ) → j ≤ 0
      → is_terminal (row_at j k row).movement_state ≡ true
      → after.movement_state ≡ (row_at j k row).movement_state
  only_zero k row after h zero le t = h t
  only_zero k row after h (suc j) le t = absurd (omega arith)

  written_movement :
      (row : Shipment)
      → moves_nothing (decide_transition row status) ≡ false
      → is_terminal row.movement_state ≡ true
      → (decide_transition row status).target_movement ≡ row.movement_state
  written_movement row writes t = elim (terminal_write row status t) [
    | inl still ↦ let e : true ≡ false = sym still ∙ writes in cc
    | inr same ↦ same
  ]

  same_row :
      CountVersions others
      → (k : ℕ) (row : Shipment) → ((others k row).version == row.version) ≡ true
      → others k row ≡ row
  same_row counts k row current = elim (counts k row) [
    | inl same ↦ same
    | inr later ↦
        let e : (others k row).version ≡ row.version = (==_iff _ _).0 current in
        absurd (omega arith)
  ]

  attempts-TakesEffect :
      CountVersions others
      → KeepTerminal others
      → (k : ℕ) (row : Shipment) (sent : List Effect)
      → TakesEffect k row (apply_attempts others status at k row sent).shipment
  unfolding apply_attempts applied_changed applied_unchanged
  attempts-TakesEffect counts keeps zero row sent =
      (0, omega arith, inl refl, only_zero zero row row (λ t. refl))
  attempts-TakesEffect counts keeps (suc k) row sent =
      let d = decide_transition row status in
      let found = others k row in
      elim (Bool-cases (moves_nothing d)) [
        | inl still ↦ rw still (0, omega arith, inl refl, only_zero (suc k) row row (λ t. refl))
        | inr writes ↦ elim (Bool-cases (found.version == row.version)) [
          | inl current ↦
              rw (writes, current, same_row counts k row current)
                (
                  0,
                  omega arith,
                  inr (updated-Writes row),
                  only_zero (suc k) row (updated d at row) (λ t.
                      (updated-Writes row).0
                      ∙ sym (decide_transition_target row status)
                      ∙ written_movement row writes t),
                )
          | inr stale ↦
              let after =
                (apply_attempts others status at k found (sent ++ review_effects d)).shipment in
              let (i, le, effect, kept) =
                attempts-TakesEffect counts keeps k found (sent ++ review_effects d) in
              rw (writes, stale)
                (suc i, omega arith, effect, later k row i after (keeps k row) kept)
        ]
      ]
    where
      later :
          (k : ℕ) (row : Shipment) (i : ℕ) (after : Shipment)
          → (is_terminal row.movement_state ≡ true
              → (others k row).movement_state ≡ row.movement_state)
          → ((j : ℕ)
              → j ≤ i
              → is_terminal (row_at j k (others k row)).movement_state ≡ true
              → after.movement_state ≡ (row_at j k (others k row)).movement_state)
          → (j : ℕ) → j ≤ suc i
          → is_terminal (row_at j (suc k) row).movement_state ≡ true
          → after.movement_state ≡ (row_at j (suc k) row).movement_state
      later k row i after keep kept zero le t =
          let same = keep t in kept 0 (omega arith) (ap is_terminal same ∙ t) ∙ same
      later k row i after keep kept (suc j) le t = kept j (omega arith) t

  -- Whatever rows other writers leave between the reads and the updates, if they count the version up and
  -- keep terminal states themselves: the event takes effect on the row as it stands at some attempt, which
  -- is left as it is or written as decided on that very row; and no row that was terminal, at the first
  -- read or by another's write up to then, has its movement changed.
  pub apply_event-TakesEffect :
      CountVersions others
      → KeepTerminal others
      → (row : Shipment) → TakesEffect 5 row (apply_event others status at row).shipment
  unfolding apply_event
  apply_event-TakesEffect counts keeps row =
      attempts-TakesEffect counts keeps max_version_retries row []

  -- If no other writer touches the row between the first read and the update, `applyEvent` returns at its
  -- first attempt, never with a conflict. A decision that moves nothing leaves the row. Any other sets the
  -- event's movement, the custody and the delivery instant where the decision has them, and counts the
  -- version up by one. The outcome tells the row's movement, and the change and the flag of the decision.
  pub apply_event-first_attempt :
      (row : Shipment)
      → others 4 row ≡ row
      → LeavesOrWrites row (apply_event others status at row).shipment
        × Answers row (apply_event others status at row)
  unfolding apply_event apply_attempts applied_changed applied_unchanged updated
  apply_event-first_attempt row alone =
      let d = decide_transition row status in
      let found = others 4 row in
      let current : (found.version == row.version) ≡ true =
        (==_iff _ _).1 (ap (λ (r : Shipment). r.version) alone) in
      elim (Bool-cases (moves_nothing d)) [
        | inl still ↦
            rw still (((λ _. refl), (λ h. cc)), (_, refl, refl, unchanged _ _ still, refl))
        | inr writes ↦
            rw (writes, current, alone)
              (((λ h. cc), (λ _. updated-Writes row)), (_, refl, refl, refl, refl))
      ]
    where
      unchanged : (a b : Bool) → (not a && b) ≡ true → false ≡ a
      unchanged a b h = ground arith
