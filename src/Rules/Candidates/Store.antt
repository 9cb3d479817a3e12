-- ===== src/Rules/Candidates/Store.antt =====
-- What the writes to the candidate results keep: entries are found by their service, and a predicate
-- that a write keeps holds of every result.
use jsyxi_shipping.Prelude.{
  ◌≡◌, refl, subst, inl, inr, Bool, true, false, Option, none, some, List, [], ◌∷◌, ◌++◌, Text, All,
  All-append, Bool-cases, Option-cases, find, text_eq, arith, if◌then◌else◌,
}
use jsyxi_shipping.Rules.Model.{CandidateFacts, CandidateResult}
use jsyxi_shipping.Rules.Filters.{is_some}
use jsyxi_shipping.Rules.Candidates.{
  Store, facts_for, new_result, has_id, get_result, result_for, update_result,
}

pub text_eq_refl : (s : Text) → text_eq s s ≡ true
unfolding text_eq
text_eq_refl [] = refl
text_eq_refl (c ∷ s) = ground (arith, text_eq_refl s)

pub text_eq→≡ : (s t : Text) → text_eq s t ≡ true → s ≡ t
unfolding text_eq
text_eq→≡ [] [] h = refl
text_eq→≡ [] (_ ∷ _) h = cc
text_eq→≡ (_ ∷ _) [] h = cc
text_eq→≡ (c ∷ s) (d ∷ t) h = ground (arith, text_eq→≡ s t)

-- What is found passes the test, and what held of the list holds of it.
pub find-All {ℓ κ} :
    {A : Type ℓ} (P : A → Type κ) (test : A → Bool) (xs : List A) (r : A)
    → All P xs
    → find test xs ≡ some r
    → P r × (test r ≡ true)
find-All P test [] r h e = cc
find-All P test (x ∷ xs) r (p, h) e = elim (Bool-cases (test x)) [
  | inl hit ↦
      let same : some x ≡ some r = rw hit at e in
      let x_is_r : x ≡ r = cc in (subst (λ z. P z) x_is_r p, rw (← x_is_r) hit)
  | inr miss ↦ find-All P test xs r h (rw miss at e)
]

abbrev pub KeepsId : (CandidateResult → CandidateResult) → Type 0
KeepsId write = (r : CandidateResult) → (write r).service_id ≡ r.service_id

-- A result that passes a test which the write keeps is still there.
abbrev pub passes_at : (CandidateResult → Bool) → Option CandidateResult → Bool
passes_at test none = false
passes_at test (some r) = test r

abbrev pub passing : (CandidateResult → Bool) → Text → Store → Bool
passing test id store = passes_at test (get_result id store)

if_KeepsId :
    (write : CandidateResult → CandidateResult) (b : Bool) (r : CandidateResult)
    → KeepsId write
    → (if b then write r else r).service_id ≡ r.service_id
if_KeepsId write true r same = same r
if_KeepsId write false r same = refl

find-append {ℓ} :
    {A : Type ℓ} (test : A → Bool) (xs ys : List A) (r : A)
    → find test xs ≡ some r
    → find test (xs ++ ys) ≡ some r
find-append test [] ys r e = cc
find-append test (x ∷ xs) ys r e = elim (Bool-cases (test x)) [
  | inl hit ↦ rw hit (rw hit at e)
  | inr miss ↦ rw miss (find-append test xs ys r (rw miss at e))
]

find-append_none {ℓ} :
    {A : Type ℓ} (test : A → Bool) (xs ys : List A)
    → find test xs ≡ none
    → find test (xs ++ ys) ≡ find test ys
find-append_none test [] ys e = refl
find-append_none test (x ∷ xs) ys e = elim (Bool-cases (test x)) [
  | inl hit ↦ let e' : some x ≡ none = rw hit at e in cc
  | inr miss ↦ rw miss (find-append_none test xs ys (rw miss at e))
]

module _ (candidates : List CandidateFacts) (id : Text) (store : Store) where
  pub result_for-kept :
      {r : CandidateResult} → get_result id store ≡ some r → result_for candidates id store ≡ store
  unfolding result_for
  result_for-kept there = rw (result_for, there) refl

  pub result_for-created :
      get_result id store ≡ none
      → result_for candidates id store ≡ store ++ new_result (facts_for candidates id) id ∷ []
  unfolding result_for
  result_for-created absent = rw (result_for, absent) refl

module _ (test : CandidateResult → Bool) where
  abbrev pub KeepsTest : (CandidateResult → CandidateResult) → Type 0
  KeepsTest write = (r : CandidateResult) → test r ≡ true → test (write r) ≡ true

  if_KeepsTest :
      (write : CandidateResult → CandidateResult) (b : Bool) (r : CandidateResult)
      → KeepsTest write
      → test r ≡ true
      → test (if b then write r else r) ≡ true
  if_KeepsTest write true r keep h = keep r h
  if_KeepsTest write false r keep h = h

  pub passing-update_result :
      (write : CandidateResult → CandidateResult) (id' id : Text) (store : Store)
      → KeepsId write
      → KeepsTest write
      → passing test id store ≡ true
      → passing test id (update_result write id' store) ≡ true
  unfolding update_result
  passing-update_result write id' id [] same keep h = h
  passing-update_result write id' id (r ∷ store) same keep h =
      rw (if_KeepsId write (has_id id' r) r same) (elim (Bool-cases (has_id id r)) [
        | inl hit ↦ rw hit (if_KeepsTest write (has_id id' r) r keep (rw hit at h))
        | inr miss ↦ rw miss (passing-update_result write id' id store same keep (rw miss at h))
      ])

  -- A write to an entry that is there, after which its result passes.
  pub passing-update_own :
      (write : CandidateResult → CandidateResult) (id : Text) (store : Store)
      → KeepsId write
      → ((r : CandidateResult) → test (write r) ≡ true)
      → is_some (get_result id store) ≡ true
      → passing test id (update_result write id store) ≡ true
  unfolding update_result
  passing-update_own write id [] same make h = cc
  passing-update_own write id (r ∷ store) same make h =
      rw (if_KeepsId write (has_id id r) r same) (elim (Bool-cases (has_id id r)) [
        | inl hit ↦ rw hit (make r)
        | inr miss ↦ rw miss (passing-update_own write id store same make (rw miss at h))
      ])

  pub passing-result_for :
      (candidates : List CandidateFacts) (id' id : Text) (store : Store)
      → passing test id store ≡ true
      → passing test id (result_for candidates id' store) ≡ true
  passing-result_for candidates id' id store h = elim (Option-cases (get_result id' store)) [
    | inr (r, there) ↦ rw (result_for-kept candidates id' store there) h
    | inl absent ↦
        rw (result_for-created candidates id' store absent)
          (elim (Option-cases (get_result id store)) [
            | inl nothing ↦ let e : false ≡ true = rw nothing at h in cc
            | inr (r, there) ↦ rw (find-append (has_id id) store _ r there) (rw there at h)
          ])
  ]

-- The entry of a service is there once it has been asked for.
pub present-result_for :
    (candidates : List CandidateFacts) (id : Text) (store : Store)
    → is_some (get_result id (result_for candidates id store)) ≡ true
present-result_for candidates id store = elim (Option-cases (get_result id store)) [
  | inr (r, there) ↦ rw (result_for-kept candidates id store there, there)
  | inl absent ↦
      rw
        (result_for-created candidates id store absent, find-append_none (has_id id) store _ absent)
        (unfold new_result in rw (text_eq_refl id))
]

-- A predicate of every result.
module _ (P : CandidateResult → Type 0) where
  pub All-update_result :
      (write : CandidateResult → CandidateResult) (id : Text) (store : Store)
      → ((r : CandidateResult) → r.service_id ≡ id → P r → P (write r))
      → All P store
      → All P (update_result write id store)
  unfolding update_result
  All-update_result write id [] keep h = tt
  All-update_result write id (r ∷ store) keep (p, h) = elim (Bool-cases (has_id id r)) [
    | inl own ↦
        rw own (keep r (text_eq→≡ r.service_id id own) p, All-update_result write id store keep h)
    | inr other ↦ rw other (p, All-update_result write id store keep h)
  ]

  update_result-last :
      (write : CandidateResult → CandidateResult) (id : Text) (store : Store) (r : CandidateResult)
      → has_id id r ≡ true
      → update_result write id (store ++ r ∷ []) ≡ update_result write id store ++ write r ∷ []
  unfolding update_result
  update_result-last write id [] r own = rw own refl
  update_result-last write id (first ∷ store) r own = rw (update_result-last write id store r own)

  -- Asking for a result and writing to it: the new one is written to as well.
  pub All-write_for :
      (write : CandidateResult → CandidateResult) (candidates : List CandidateFacts) (id : Text)
      (store : Store)
      → ((r : CandidateResult) → r.service_id ≡ id → P r → P (write r))
      → P (write (new_result (facts_for candidates id) id))
      → All P store
      → All P (update_result write id (result_for candidates id store))
  All-write_for write candidates id store keep make h = elim (Option-cases (get_result id store)) [
    | inr (r, there) ↦
        rw (result_for-kept candidates id store there) (All-update_result write id store keep h)
    | inl absent ↦
        rw
          (
            result_for-created candidates id store absent,
            update_result-last write id store (new_result (facts_for candidates id) id)
                (unfold new_result in text_eq_refl id),
          )
          (All-append P (update_result write id store) _ (All-update_result write id store keep h)
            (make, tt))
  ]
