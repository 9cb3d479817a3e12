-- ===== src/Rules/Candidates/Run.antt =====
-- What `buildRun` leaves: a candidate of the run is struck out in the results, or nothing stands against
-- it; and a result that has been struck out stays so.
use jsyxi_shipping.Prelude.{
  ℕ, suc, ◌≡◌, refl, ◌⊎◌, inl, inr, Bool, true, false, not, ◌&&◌, ◌||◌, Option, List, [], ◌∷◌, ◌++◌,
  arith, Text, All, All-weaken, Bool-cases, is_empty, ap, subst, ◌∙◌, Option-cases, text_eq,
}
use jsyxi_shipping.Rules.Model.{CandidateFacts, CandidateResult, EliminationReason, Host}
use jsyxi_shipping.Rules.Condition.{has_text}
use jsyxi_shipping.Rules.Filters.{CandidateFilters, is_some}
use jsyxi_shipping.Rules.Candidates.{
  Store, RunCandidate, build_run, eliminate, enter, entry_reasons, facts_for, get_result,
  new_result, has_id, eliminated_in, push_reasons, result_for, update_result,
}
use jsyxi_shipping.Rules.Candidates.Store.{
  KeepsTest, passing, passing-result_for, passing-update_own, passing-update_result,
  present-result_for, text_eq_refl, text_eq→≡, find-All, All-write_for,
}

abbrev pub is_struck : CandidateResult → Bool
is_struck r = r.eliminated && not (is_empty r.reasons)

abbrev pub struck : Text → Store → Bool
struck = passing is_struck

abbrev pub present : Text → Store → Bool
present = passing (λ r. true)

pub is_empty-append :
    (xs ys : List EliminationReason) → is_empty (xs ++ ys) ≡ (is_empty xs && is_empty ys)
is_empty-append [] ys = refl
is_empty-append (_ ∷ _) ys = refl

-- A write that only adds reasons and sets the flag by them keeps a result struck out.
push-KeepsTest : (reasons : List EliminationReason) → KeepsTest is_struck (push_reasons reasons)
push-KeepsTest reasons r h = rw (is_empty-append r.reasons reasons) (ground arith)

pub eliminate-KeepsTest : (reason : EliminationReason) → KeepsTest is_struck (eliminate reason)
eliminate-KeepsTest reason r h = rw (is_empty-append r.reasons (reason ∷ [])) (ground arith)

pub eliminate-strikes :
    (reason : EliminationReason) (r : CandidateResult) → is_struck (eliminate reason r) ≡ true
eliminate-strikes reason r = rw (is_empty-append r.reasons (reason ∷ [])) (ground arith)

push-ClearOrStruck :
    (reasons : List EliminationReason) (id : Text) (store : Store)
    → is_some (get_result id store) ≡ true
    → (reasons ≡ []) ⊎ (struck id (update_result (push_reasons reasons) id store) ≡ true)
push-ClearOrStruck [] id store there = inl refl
push-ClearOrStruck (reason ∷ reasons) id store there = inr (
    passing-update_own is_struck (push_reasons (reason ∷ reasons)) id store (λ r. refl)
      (λ r. rw (is_empty-append r.reasons (reason ∷ reasons)) (ground arith)) there)

module _ (host : Host) (candidates : List CandidateFacts) (excluded : List Text)
    (filters : Option CandidateFilters) where
  abbrev reasons_for : Text → List EliminationReason
  reasons_for id = entry_reasons host candidates excluded filters id (facts_for candidates id)

  module _ (test : CandidateResult → Bool)
      (keep : (reasons : List EliminationReason) → KeepsTest test (push_reasons reasons)) where
    passing-enter :
        (id' id : Text) (store : Store)
        → passing test id store ≡ true
        → passing test id (enter host candidates excluded filters id' store) ≡ true
    unfolding enter
    passing-enter id' id store h =
        passing-update_result test (push_reasons (reasons_for id')) id' id _ (λ r. refl)
          (keep (reasons_for id')) (passing-result_for test candidates id' id store h)

    passing-build_run :
        (position : ℕ) (ids : List Text) (id : Text) (store : Store)
        → passing test id store ≡ true
        → passing test id (build_run host candidates excluded filters position ids store).1 ≡ true
    unfolding build_run
    passing-build_run position [] id store h = h
    passing-build_run position (id' ∷ ids) id store h =
        passing-build_run (suc position) ids id _ (passing-enter id' id store h)

  pub struck-build_run :
      (position : ℕ) (ids : List Text) (id : Text) (store : Store)
      → struck id store ≡ true
      → struck id (build_run host candidates excluded filters position ids store).1 ≡ true
  struck-build_run = passing-build_run is_struck push-KeepsTest

  abbrev pub ClearOrStruck : Text → Store → Type 0
  ClearOrStruck id store = (reasons_for id ≡ []) ⊎ (struck id store ≡ true)

  enter-ClearOrStruck :
      (id : Text) (store : Store)
      → ClearOrStruck id (enter host candidates excluded filters id store)
  unfolding enter
  enter-ClearOrStruck id store =
      push-ClearOrStruck (reasons_for id) id (result_for candidates id store)
        (present-result_for candidates id store)

  enter-present :
      (id : Text) (store : Store)
      → present id (enter host candidates excluded filters id store) ≡ true
  unfolding enter
  enter-present id store =
      passing-update_own (λ r. true) (push_reasons (reasons_for id)) id _ (λ r. refl) (λ r. refl)
        (present-result_for candidates id store)

  -- A candidate of a run over `ids`: its facts, its place in the list, and its verdict.
  abbrev pub Entered : List Text → Store → RunCandidate → Type 0
  Entered ids store c =
      (c.facts ≡ facts_for candidates c.service_id)
      × (has_text c.service_id ids ≡ true)
      × ClearOrStruck c.service_id store
      × (present c.service_id store ≡ true)

  pub build_run-Entered :
      (position : ℕ) (ids : List Text) (store : Store)
      → (let (run, after) = build_run host candidates excluded filters position ids store in
          All (Entered ids after) run)
  unfolding build_run
  build_run-Entered position [] store = tt
  build_run-Entered position (id ∷ ids) store =
      let after = enter host candidates excluded filters id store in
      (
        (
          refl,
          rw (text_eq_refl id) refl,
          later (enter-ClearOrStruck id store),
          passing-build_run (λ r. true) (λ reasons r h. refl) (suc position) ids id after
              (enter-present id store),
        ),
        All-weaken _ _ _ further (build_run-Entered (suc position) ids after),
      )
    where
      last : Store
      last = (build_run host candidates excluded filters position (id ∷ ids) store).1

      later :
          ClearOrStruck id (enter host candidates excluded filters id store) → ClearOrStruck id last
      later (inl clear) = inl clear
      later (inr gone) = inr (struck-build_run (suc position) ids id _ gone)

      or_right : (a b : Bool) → b ≡ true → (a || b) ≡ true
      or_right a b h = ground arith

      further : (c : RunCandidate) → Entered ids last c → Entered (id ∷ ids) last c
      further c (same, listed, verdict, there) = (same, or_right _ _ listed, verdict, there)

  -- A predicate of every result, which the pushes keep and the first push makes.
  module _ (P : CandidateResult → Type 0)
      (keep : (r : CandidateResult) → P r → P (push_reasons (reasons_for r.service_id) r))
      (make : (id : Text)
        → P (push_reasons (reasons_for id) (new_result (facts_for candidates id) id))) where
    All-enter :
        (id : Text) (store : Store)
        → All P store
        → All P (enter host candidates excluded filters id store)
    unfolding enter
    All-enter id store h =
        All-write_for P (push_reasons (reasons_for id)) candidates id store
          (λ r own p. subst (λ i. P (push_reasons (reasons_for i) r)) own (keep r p)) (make id) h

    pub All-build_run :
        (position : ℕ) (ids : List Text) (store : Store)
        → All P store
        → All P (build_run host candidates excluded filters position ids store).1
    unfolding build_run
    All-build_run position [] store h = h
    All-build_run position (id ∷ ids) store h =
        All-build_run (suc position) ids _ (All-enter id store h)

  -- In a run over an empty store a result is eliminated just where a reason stands against its service.
  abbrev pub Exact : CandidateResult → Type 0
  Exact r =
      (r.eliminated ≡ not (is_empty r.reasons))
      × (is_empty r.reasons ≡ is_empty (reasons_for r.service_id))

  push-Exact : (r : CandidateResult) → Exact r → Exact (push_reasons (reasons_for r.service_id) r)
  push-Exact r (flag, same) =
      (refl, rw (is_empty-append r.reasons (reasons_for r.service_id), same) (ground arith))

  new-Exact :
      (id : Text) → Exact (push_reasons (reasons_for id) (new_result (facts_for candidates id) id))
  unfolding new_result
  new-Exact id = (refl, refl)

  pub build_run-Exact :
      (position : ℕ) (ids : List Text)
      → All Exact (build_run host candidates excluded filters position ids []).1
  build_run-Exact position ids = All-build_run Exact push-Exact new-Exact position ids [] tt

  pub Exact-eliminated :
      (store : Store) (c : RunCandidate)
      → All Exact store
      → present c.service_id store ≡ true
      → eliminated_in store c ≡ not (is_empty (reasons_for c.service_id))
  Exact-eliminated store c exact there = elim (Option-cases (get_result c.service_id store)) [
    | inl absent ↦ let e : false ≡ true = rw absent at there in cc
    | inr (r, found) ↦
        let ((flag, same), own) = find-All Exact (has_id c.service_id) store r exact found in
        rw found (
          flag
          ∙ ap not
              (same ∙ ap (λ i. is_empty (reasons_for i)) (text_eq→≡ r.service_id c.service_id own)))
  ]

  -- What holds of every candidate of a run holds of every service of the list it is built from.
  pub build_run-covers :
      (Q : Text → Type 0) (position : ℕ) (ids : List Text) (store : Store) (id : Text)
      → All (λ c. Q c.service_id) (build_run host candidates excluded filters position ids store).0
      → has_text id ids ≡ true
      → Q id
  unfolding build_run
  build_run-covers Q position [] store id h e = cc
  build_run-covers Q position (first ∷ ids) store id (q, h) e =
      elim (Bool-cases (text_eq id first)) [
        | inl same ↦ rw (text_eq→≡ id first same) q
        | inr other ↦ build_run-covers Q (suc position) ids _ id h (rw other at e)
      ]

  pub Exact-struck :
      (store : Store) (c : RunCandidate)
      → All Exact store
      → eliminated_in store c ≡ true
      → struck c.service_id store ≡ true
  Exact-struck store c exact h = elim (Option-cases (get_result c.service_id store)) [
    | inl absent ↦ let e : false ≡ true = rw absent at h in cc
    | inr (r, found) ↦
        let ((flag, same), own) = find-All Exact (has_id c.service_id) store r exact found in
        let gone : r.eliminated ≡ true = rw found at h in
        rw found (struck_of r.eliminated (is_empty r.reasons) gone flag)
  ]
    where
      struck_of : (a b : Bool) → a ≡ true → a ≡ not b → (a && not b) ≡ true
      struck_of a b h e = ground arith
