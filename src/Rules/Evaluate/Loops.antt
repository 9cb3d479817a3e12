-- ===== src/Rules/Evaluate/Loops.antt =====
-- What the loops of the actions pick and drop.
use mathlib.Core.Bool.{true≢false}
use mathlib.Core.Option.{some-injective}
use jsyxi_shipping.Prelude.{
  arith, subst, ◌&&◌, ◌≡◌, refl, sym, ◌∙◌, inl, inr, Bool, true, false, Option, none, some, List,
  [], ◌∷◌, Text, All, All-weaken, Bool-cases, Option-cases,
}
use jsyxi_shipping.Rules.Model.{CandidateResult, EliminationReason}
use jsyxi_shipping.Rules.Filters.{is_some}
use jsyxi_shipping.Rules.Candidates.{
  and_then, Store, RunCandidate, eliminate, eliminated_in, get_result, mark_selected, update_result,
}
use jsyxi_shipping.Rules.Candidates.Store.{
  KeepsTest, All-update_result, passing, passes_at, passing-update_own, passing-update_result,
}
use jsyxi_shipping.Rules.Candidates.Run.{
  eliminate-KeepsTest, eliminate-strikes, is_struck, present, struck,
}
use jsyxi_shipping.Rules.Choice.{not_serviceable_reason, run_priority_chain, screen, serviceable}
use jsyxi_shipping.Rules.Evaluate.{selected_id, picked_outcome}

-- The service that a loop picked.
abbrev pub id_of : Option RunCandidate → Option Text
id_of c = and_then c (λ (d : RunCandidate). some d.service_id)

pub selected-picked : (o : Option RunCandidate) → selected_id (picked_outcome o) ≡ id_of o
selected-picked none = refl
selected-picked (some c) = refl

pub struck_eliminated :
    (store : Store) (c : RunCandidate)
    → struck c.service_id store ≡ true
    → eliminated_in store c ≡ true
struck_eliminated store c h = elim (Option-cases (get_result c.service_id store)) [
  | inl absent ↦ let e : false ≡ true = rw absent at h in cc
  | inr (r, there) ↦ rw there (first_of r.eliminated _ (rw there at h))
]
  where
    first_of : (a b : Bool) → (a && b) ≡ true → a ≡ true
    first_of a b h = ground arith

pub false_before : (a b : Bool) → (a ≡ true → b ≡ true) → b ≡ false → a ≡ false
false_before true b keep h = absurd (true≢false (sym (keep refl) ∙ h))
false_before false b keep h = refl

pub struck-eliminate :
    (reason : EliminationReason) (id' id : Text) (store : Store)
    → struck id store ≡ true
    → struck id (update_result (eliminate reason) id' store) ≡ true
struck-eliminate reason id' id store h =
    passing-update_result is_struck (eliminate reason) id' id store (λ r. refl)
      (eliminate-KeepsTest reason) h

-- The loop's answer to one candidate.
module _ (c : RunCandidate) (run : List RunCandidate) (store : Store) where
  pub chain_gone :
      eliminated_in store c ≡ true
      → run_priority_chain (c ∷ run) store ≡ run_priority_chain run store
  unfolding run_priority_chain
  chain_gone gone = rw (run_priority_chain, gone) refl

  pub chain_refused :
      eliminated_in store c ≡ false
      → serviceable c ≡ false
      → run_priority_chain (c ∷ run) store
        ≡ run_priority_chain run
            (update_result (eliminate (not_serviceable_reason c)) c.service_id store)
  unfolding run_priority_chain
  chain_refused live fails = rw (run_priority_chain, live, fails) refl

  pub chain_taken :
      eliminated_in store c ≡ false
      → serviceable c ≡ true
      → run_priority_chain (c ∷ run) store
        ≡ (some c, update_result mark_selected c.service_id store)
  unfolding run_priority_chain
  chain_taken live good = rw (run_priority_chain, live, good) refl

-- What PRIORITY_CHAIN picks is serviceable and was not struck out before the loop, and it has every
-- property that the candidates share.
pub run_priority_chain-picked :
    (P : RunCandidate → Type 0) (run : List RunCandidate) (store : Store) (c : RunCandidate)
    → All P run
    → (run_priority_chain run store).0 ≡ some c
    → P c × (serviceable c ≡ true) × (struck c.service_id store ≡ false)
unfolding run_priority_chain
run_priority_chain-picked P [] store c h e = cc
run_priority_chain-picked P (x ∷ run) store c (p, h) e = elim (Bool-cases (eliminated_in store x)) [
  | inl gone ↦ run_priority_chain-picked P run store c h (rw (run_priority_chain, gone) at e)
  | inr there ↦ elim (Bool-cases (serviceable x)) [
    | inr fails ↦
        let reason = not_serviceable_reason x in
        let (q, good, clean) =
          run_priority_chain-picked P run (update_result (eliminate reason) x.service_id store) c h
            (rw (run_priority_chain, there, fails) at e) in
        (q, good, false_before _ _ (struck-eliminate reason x.service_id c.service_id store) clean)
    | inl good ↦
        let same : some x ≡ some c = rw (run_priority_chain, there, good) at e in
        subst (λ z. P z × (serviceable z ≡ true) × (struck z.service_id store ≡ false))
          (some-injective _ _ same) (p, good, false_before _ _ (struck_eliminated store x) there)
  ]
]

-- What CHEAPEST and FASTEST keep has nothing against it.
pub screen-kept :
    (P : RunCandidate → Type 0) (against : RunCandidate → Option EliminationReason)
    (run : List RunCandidate) (store : Store)
    → All P run
    → All (λ c. P c × (against c ≡ none)) (screen against run store).0
unfolding screen
screen-kept P against [] store h = tt
screen-kept P against (c ∷ run) store (p, h) = elim (Option-cases (against c)) [
  | inl clear ↦ rw (screen, clear) ((p, clear), screen-kept P against run store h)
  | inr (reason, found) ↦ rw (screen, found) (screen-kept P against run _ h)
]

pub screen-passing :
    (test : CandidateResult → Bool) (against : RunCandidate → Option EliminationReason)
    (run : List RunCandidate) (store : Store) (id : Text)
    → ((reason : EliminationReason) → KeepsTest test (eliminate reason))
    → passing test id store ≡ true
    → passing test id (screen against run store).1 ≡ true
unfolding screen
screen-passing test against [] store id keep h = h
screen-passing test against (c ∷ run) store id keep h = elim (Option-cases (against c)) [
  | inl clear ↦ rw (screen, clear) (screen-passing test against run store id keep h)
  | inr (reason, found) ↦
      rw (screen, found)
        (screen-passing test against run _ id keep (
          passing-update_result test (eliminate reason) c.service_id id store (λ r. refl)
            (keep reason) h))
]

pub screen-struck :
    (against : RunCandidate → Option EliminationReason) (run : List RunCandidate) (id : Text)
    (store : Store)
    → struck id store ≡ true
    → struck id (screen against run store).1 ≡ true
screen-struck against run id store =
    screen-passing is_struck against run store id eliminate-KeepsTest

screen-out :
    (against : RunCandidate → Option EliminationReason) (c : RunCandidate) (run : List RunCandidate)
    (store : Store) (reason : EliminationReason)
    → against c ≡ some reason
    → screen against run (update_result (eliminate reason) c.service_id store)
      ≡ screen against (c ∷ run) store
unfolding screen
screen-out against c run store reason found = rw (screen, found) refl

-- Where a screen keeps nothing, all that it saw is struck out.
pub screen_none-struck :
    (against : RunCandidate → Option EliminationReason) (run : List RunCandidate) (store : Store)
    → All (λ c. present c.service_id store ≡ true) run
    → (screen against run store).0 ≡ []
    → All (λ c. struck c.service_id (screen against run store).1 ≡ true) run
unfolding screen
screen_none-struck against [] store there e = tt
screen_none-struck against (c ∷ run) store (here, there) e = elim (Option-cases (against c)) [
  | inl clear ↦ let e' : c ∷ (screen against run store).0 ≡ [] = rw (screen, clear) at e in cc
  | inr (reason, found) ↦
      let after = update_result (eliminate reason) c.service_id store in
      subst (λ s. All (λ d. struck d.service_id s.1 ≡ true) (c ∷ run))
        (screen-out against c run store reason found)
        (
          screen-struck against run c.service_id after (
              passing-update_own is_struck (eliminate reason) c.service_id store (λ r. refl)
                (eliminate-strikes reason) (present_is_some _ here)),
          screen_none-struck against run after
              (All-weaken _ _ run
                (λ d h.
                  passing-update_result (λ r. true) (eliminate reason) c.service_id d.service_id
                    store (λ r. refl) (λ r k. refl) h)
                there)
              (rw (screen, found) at e),
        )
]
  where
    present_is_some :
        (o : Option CandidateResult) → passes_at (λ r. true) o ≡ true → is_some o ≡ true
    present_is_some none h = h
    present_is_some (some r) h = refl

-- A predicate of the results that a reason does not touch.
pub screen-All :
    (P : CandidateResult → Type 0) (against : RunCandidate → Option EliminationReason)
    (run : List RunCandidate) (store : Store)
    → ((reason : EliminationReason) (r : CandidateResult) → P r → P (eliminate reason r))
    → All P store
    → All P (screen against run store).1
unfolding screen
screen-All P against [] store keep h = h
screen-All P against (c ∷ run) store keep h = elim (Option-cases (against c)) [
  | inl clear ↦ rw (screen, clear) (screen-All P against run store keep h)
  | inr (reason, found) ↦
      rw (screen, found)
        (screen-All P against run _ keep (
          All-update_result P (eliminate reason) c.service_id store (λ r own p. keep reason r p) h))
]

-- What holds of all that a screen keeps holds of all that has nothing against it.
pub screen-covers :
    (Q : RunCandidate → Type 0) (against : RunCandidate → Option EliminationReason)
    (run : List RunCandidate) (store : Store)
    → All Q (screen against run store).0
    → All (λ c. against c ≡ none → Q c) run
unfolding screen
screen-covers Q against [] store h = tt
screen-covers Q against (c ∷ run) store h = elim (Option-cases (against c)) [
  | inl clear ↦
      let h' : Q c × All Q (screen against run store).0 = rw (screen, clear) at h in
      (λ _. h'.0, screen-covers Q against run store h'.1)
  | inr (reason, found) ↦ (
    λ clear. let e : none ≡ some reason = sym clear ∙ found in cc,
    screen-covers Q against run _ (rw (screen, found) at h),
  )
]
