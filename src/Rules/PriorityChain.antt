-- ===== src/Rules/PriorityChain.antt =====
-- PRIORITY_CHAIN against a search: it selects the first service of the chain that nothing stands against.
use jsyxi_shipping.Prelude.{
  ℕ, suc, ◌≡◌, refl, ap, ◌∙◌, inl, inr, Bool, true, false, not, ◌&&◌, Option, List, [], ◌∷◌, arith,
  Text, All, All-weaken, Bool-cases, Option-cases, filter, find, is_empty,
}
use jsyxi_shipping.Rules.Model.{
  RuleDef, CandidateFacts, CandidateResult, EvaluateInput, RuleTrace, Host,
}
use jsyxi_shipping.Rules.Filters.{CandidateFilters}
use jsyxi_shipping.Rules.Candidates.{
  Store, RunCandidate, build_run, eliminate, eliminated_in, entry_reasons, facts_for, get_result,
  has_id, update_result,
}
use jsyxi_shipping.Rules.Candidates.Store.{
  All-update_result, find-All, passing-update_result, text_eq→≡,
}
use jsyxi_shipping.Rules.Candidates.Run.{
  Entered, Exact, build_run-Entered, build_run-Exact, present,
}
use jsyxi_shipping.Rules.Choice.{
  facts_serviceable, not_serviceable_reason, run_priority_chain, serviceable,
}
use jsyxi_shipping.Rules.Evaluate.{action_filters, action_run, done, run_chain, survivors}
use jsyxi_shipping.Rules.Evaluate.Loops.{
  chain_gone, chain_refused, chain_taken, id_of, selected-picked,
}
use jsyxi_shipping.Rules.Selection.Action.{survivors-Entered}

find-filter {ℓ} :
    {A : Type ℓ} (test p : A → Bool) (xs : List A)
    → All (λ x. p x ≡ false → test x ≡ false) xs
    → find test (filter p xs) ≡ find test xs
find-filter test p [] h = refl
find-filter test p (x ∷ xs) (hx, h) = elim (Bool-cases (p x)) [
  | inl kept ↦ rw (kept, find-filter test p xs h) refl
  | inr out ↦ rw (out, hx out, find-filter test p xs h) refl
]

module _ (host : Host) (candidates : List CandidateFacts) (excluded : List Text)
    (filters : Option CandidateFilters) where
  abbrev clear : Text → Bool
  clear id = is_empty (entry_reasons host candidates excluded filters id (facts_for candidates id))

  -- Nothing is pushed against the service when the run is built, and no quote refuses the lane.
  abbrev pub is_open : Text → Bool
  is_open id = clear id && facts_serviceable (facts_for candidates id)

  -- The flag of a result says enough of its service for the loop to go by.
  abbrev Telling : CandidateResult → Type 0
  Telling r =
      (r.eliminated ≡ false → clear r.service_id ≡ true)
      × (r.eliminated ≡ true → is_open r.service_id ≡ false)

  Exact-Telling : (r : CandidateResult) → Exact host candidates excluded filters r → Telling r
  Exact-Telling r (flag, same) =
      (λ live. of_live (clear r.service_id) flag same live, λ gone. of_gone _ _ flag same gone)
    where
      of_live : {e b : Bool} (c : Bool) → e ≡ not b → b ≡ c → e ≡ false → c ≡ true
      of_live c f s l = ground arith

      of_gone : {e b : Bool} (c d : Bool) → e ≡ not b → b ≡ c → e ≡ true → (c && d) ≡ false
      of_gone c d f s g = ground arith

  abbrev InRun : Store → RunCandidate → Type 0
  InRun store c =
      (c.facts ≡ facts_for candidates c.service_id) × (present c.service_id store ≡ true)

  telling :
      (store : Store) (c : RunCandidate)
      → All Telling store
      → present c.service_id store ≡ true
      → (eliminated_in store c ≡ false → clear c.service_id ≡ true)
        × (eliminated_in store c ≡ true → is_open c.service_id ≡ false)
  telling store c tells there = elim (Option-cases (get_result c.service_id store)) [
    | inl absent ↦ let e : false ≡ true = rw absent at there in cc
    | inr (r, found) ↦
        let (tell, own) = find-All Telling (has_id c.service_id) store r tells found in
        rw (found, ← text_eq→≡ r.service_id c.service_id own) tell
  ]

  open_serviceable :
      (c : RunCandidate)
      → c.facts ≡ facts_for candidates c.service_id
      → clear c.service_id ≡ true
      → is_open c.service_id ≡ serviceable c
  unfolding serviceable
  open_serviceable c same is_clear = rw (is_clear, same) refl

  refused-Telling :
      (c : RunCandidate) (store : Store)
      → is_open c.service_id ≡ false
      → All Telling store
      → All Telling (update_result (eliminate (not_serviceable_reason c)) c.service_id store)
  refused-Telling c store closed tells =
      All-update_result Telling (eliminate (not_serviceable_reason c)) c.service_id store
        (λ r own tell. (λ live. cc, λ gone. rw own closed)) tells

  refused-InRun :
      (c : RunCandidate) (store : Store) (run : List RunCandidate)
      → All (InRun store) run
      → All (InRun (update_result (eliminate (not_serviceable_reason c)) c.service_id store)) run
  refused-InRun c store run h =
      All-weaken _ _ run
        (λ d (same, there). (
          same,
          passing-update_result (λ r. true) (eliminate (not_serviceable_reason c)) c.service_id
              d.service_id store (λ r. refl) (λ r k. refl) there,
        ))
        h

  run_priority_chain-find :
      (run : List RunCandidate) (store : Store)
      → All Telling store
      → All (InRun store) run
      → (run_priority_chain run store).0 ≡ find (λ c. is_open c.service_id) run
  run_priority_chain-find [] store tells h = unfold run_priority_chain in refl
  run_priority_chain-find (c ∷ run) store tells ((same, there), h) =
      let (if_live, if_gone) = telling store c tells there in
      elim (Bool-cases (eliminated_in store c)) [
        | inl gone ↦
            rw (chain_gone c run store gone, if_gone gone)
              (run_priority_chain-find run store tells h)
        | inr live ↦ elim (Bool-cases (serviceable c)) [
          | inl good ↦
              rw (chain_taken c run store live good, open_serviceable c same (if_live live), good)
                refl
          | inr fails ↦
              let closed = open_serviceable c same (if_live live) ∙ fails in
              rw (chain_refused c run store live fails, closed)
                (run_priority_chain-find run _ (refused-Telling c store closed tells)
                  (refused-InRun c store run h))
        ]
      ]

  find-build_run :
      (test : Text → Bool) (position : ℕ) (ids : List Text) (store : Store)
      → id_of (
          find
            (λ c. test c.service_id)
            (build_run host candidates excluded filters position ids store).0)
        ≡ find test ids
  unfolding build_run
  find-build_run test position [] store = refl
  find-build_run test position (id ∷ ids) store = elim (Bool-cases (test id)) [
    | inl hit ↦ rw hit refl
    | inr miss ↦ rw miss (find-build_run test (suc position) ids _)
  ]

module _ (host : Host) (input : EvaluateInput) (rule : RuleDef) where
  abbrev pub is_open_for : Text → Bool
  is_open_for =
      is_open host input.candidates rule.excluded_service_ids (action_filters host input rule)

  pub run_chain-find_open :
      (traces : List RuleTrace)
      → (run_chain host input traces rule).selected_service_id
        ≡ find is_open_for rule.action_service_ids
  unfolding run_chain done
  run_chain-find_open traces =
      selected-picked (run_priority_chain (survivors host input rule) built).0
      ∙ ap id_of (
          run_priority_chain-find host input.candidates rule.excluded_service_ids filters
            (survivors host input rule) built tells
            (All-weaken _ _ _ (λ c ((same, _, _, there), live). (same, there))
              (survivors-Entered host input rule))
          ∙ find-filter (λ c. is_open_for c.service_id) (λ c. not (eliminated_in built c))
              (action_run host input rule).0 (All-weaken _ _ _ dropped entered))
      ∙ find-build_run host input.candidates rule.excluded_service_ids filters is_open_for 0
          rule.action_service_ids []
    where
      filters : Option CandidateFilters
      filters = action_filters host input rule

      built : Store
      built = (action_run host input rule).1

      tells : All (Telling host input.candidates rule.excluded_service_ids filters) built
      tells =
          All-weaken _ _ built
            (Exact-Telling host input.candidates rule.excluded_service_ids filters)
            (build_run-Exact host input.candidates rule.excluded_service_ids filters 0
              rule.action_service_ids)

      entered :
          All
            (Entered host input.candidates rule.excluded_service_ids filters rule.action_service_ids
              built)
            (action_run host input rule).0
      entered =
          build_run-Entered host input.candidates rule.excluded_service_ids filters 0
            rule.action_service_ids []

      not_false : (b : Bool) → not b ≡ false → b ≡ true
      not_false b h = ground arith

      dropped :
          (c : RunCandidate)
          → Entered host input.candidates rule.excluded_service_ids filters rule.action_service_ids
              built c
          → not (eliminated_in built c) ≡ false
          → is_open_for c.service_id ≡ false
      dropped c (_, _, _, there) out =
          (telling host input.candidates rule.excluded_service_ids filters built c tells there).1
            (not_false _ out)
