-- ===== src/Courier/Transport/Breaker.antt =====
-- The breaker and the health of an account over all histories of calls.
use jsyxi_shipping.Prelude.{
  ℕ, suc, ◌+◌, ◌-◌, ◌<◌, ◌≡◌, refl, ◌∙◌, sym, inl, inr, Bool, true, false, ◌||◌, ◌&&◌, Bool-cases,
  Option, none, some, List, [], ◌∷◌, arith, ltb, leb, if◌then◌else◌,
}
use jsyxi_shipping.Courier.Transport.{
  CourierAccountHealth, healthy, degraded, disconnected, disabled, AdapterError, FailureDisposition,
  not_a_failure, auth, counted, classify_adapter_error, BreakerKey, Account, failures_of,
  open_until_of, health_eq, transition, before_call, after_success, count_failure, dispose,
  after_failure,
}

-- What happens to an account: a call returns, a call throws at an instant, the Redis key expires.
pub data Event : Type 0 where
  success : Event
  failure : AdapterError → ℕ → Event
  key_expiry : Event

module _ (failure_threshold cooldown : ℕ) where
  abbrev pub step : Event → Account → Account
  step success a = after_success a
  step (failure e now) a = after_failure failure_threshold cooldown a e now
  step key_expiry a = record a { breaker = none }

  -- The account after the events, the last one first.
  abbrev pub run : Account → List Event → Account
  run a [] = a
  run a (e ∷ es) = step e (run a es)

-- The counted failures since the last success or expiry, and the instant of the last of them.
abbrev pub bump : FailureDisposition → ℕ → ℕ
bump counted n = suc n
bump _ n = n

abbrev pub consecutive : List Event → ℕ
consecutive [] = 0
consecutive (success ∷ es) = 0
consecutive (key_expiry ∷ es) = 0
consecutive (failure e now ∷ es) = bump (classify_adapter_error e) (consecutive es)

abbrev pub latest : FailureDisposition → ℕ → ℕ → ℕ
latest counted now t = now
latest _ now t = t

abbrev pub last_counted : List Event → ℕ
last_counted [] = 0
last_counted (success ∷ es) = 0
last_counted (key_expiry ∷ es) = 0
last_counted (failure e now ∷ es) = latest (classify_adapter_error e) now (last_counted es)

breaker-transition :
    (a : Account) (to : CourierAccountHealth) → (transition a to).breaker ≡ a.breaker
unfolding transition
breaker-transition a to = elim (Bool-cases (health_eq a.health to || health_eq a.health disabled)) [
  | inl kept ↦ rw kept
  | inr moved ↦ rw moved
]

or_true : (b : Bool) → (b || true) ≡ true
or_true true = refl
or_true false = refl

transition-disabled :
    (a : Account) (to : CourierAccountHealth) → a.health ≡ disabled → transition a to ≡ a
unfolding transition health_eq
transition-disabled a to h = rw (shut a.health h) refl
  where
    shut :
        (from : CourierAccountHealth)
        → from ≡ disabled
        → (health_eq from to || health_eq from disabled) ≡ true
    shut from e = rw e (or_true (health_eq disabled to))

module _ (failure_threshold cooldown : ℕ) where
  abbrev pub Untouched : Account → Account → Type 0
  Untouched a b = (b.health ≡ disabled) × (b.audited ≡ a.audited)

  dispose-disabled :
      (d : FailureDisposition) (a : Account) (now : ℕ)
      → a.health ≡ disabled
      → Untouched a (dispose failure_threshold cooldown d a now)
  unfolding dispose count_failure
  dispose-disabled not_a_failure a now h = (h, refl)
  dispose-disabled auth a now h = rw (transition-disabled a disconnected h) (h, refl)
  dispose-disabled counted a now h =
      let n = suc (failures_of a.breaker) in
      let opened : Account = record a {
        breaker = some (record { failures = n; open_until = now + cooldown });
      } in
      elim (Bool-cases (leb failure_threshold n)) [
        | inl over ↦ rw (over, transition-disabled opened degraded h) (h, refl)
        | inr under ↦ rw under (h, refl)
      ]

  step-disabled :
      (e : Event) (a : Account)
      → a.health ≡ disabled
      → Untouched a (step failure_threshold cooldown e a)
  unfolding after_success after_failure
  step-disabled success a h =
      let cleared : Account = record a { breaker = none } in
      elim (Bool-cases (ltb 0 (failures_of a.breaker))) [
        | inl counts ↦ rw (counts, transition-disabled cleared healthy h) (h, refl)
        | inr none_ ↦ rw none_ (h, refl)
      ]
  step-disabled (failure e now) a h = dispose-disabled (classify_adapter_error e) a now h
  step-disabled key_expiry a h = (h, refl)

  -- An account that the merchant has DISABLED stays so, and no transition of it is audited, whatever
  -- calls return or throw and whenever its breaker's key expires.
  pub run-disabled :
      (a : Account) (es : List Event)
      → a.health ≡ disabled
      → Untouched a (run failure_threshold cooldown a es)
  run-disabled a [] h = (h, refl)
  run-disabled a (e ∷ es) h =
      let (still, same) = run-disabled a es h in
      let (after, audit) = step-disabled e (run failure_threshold cooldown a es) still in
      (after, audit ∙ same)

  abbrev pub opens_until : ℕ → ℕ → ℕ
  opens_until n t = if leb failure_threshold n then t + cooldown else 0

  abbrev pub Holds : Option BreakerKey → ℕ → ℕ → Type 0
  Holds k n t = (failures_of k ≡ n) × (open_until_of k ≡ opens_until n t)

  dispose-Holds :
      (d : FailureDisposition) (a : Account) (now n t : ℕ)
      → Holds a.breaker n t
      → Holds (dispose failure_threshold cooldown d a now).breaker (bump d n) (latest d now t)
  unfolding dispose count_failure
  dispose-Holds not_a_failure a now n t h = h
  dispose-Holds auth a now n t h = rw (breaker-transition a disconnected) h
  dispose-Holds counted a now n t (same, open_) =
      let opened : Account = record a {
        breaker = some (record { failures = suc n; open_until = now + cooldown });
      } in
      elim (Bool-cases (leb failure_threshold (suc n))) [
        | inl over ↦ rw (same, over, breaker-transition opened degraded) (refl, refl)
        | inr under ↦
            let below : leb failure_threshold n ≡ false = ground arith in
            rw (same, under) (refl, rw below at open_)
      ]

  closed_at_zero : 0 < failure_threshold → leb failure_threshold 0 ≡ false
  closed_at_zero h = ground arith

  run-Holds :
      (a : Account) (es : List Event)
      → 0 < failure_threshold
      → a.breaker ≡ none
      → Holds (run failure_threshold cooldown a es).breaker (consecutive es) (last_counted es)
  unfolding after_success after_failure
  run-Holds a [] positive fresh = rw (fresh, closed_at_zero positive) (refl, refl)
  run-Holds a (success ∷ es) positive fresh =
      let b = run failure_threshold cooldown a es in
      let (counts, until) = run-Holds a es positive fresh in
      let cleared : Account = record b { breaker = none } in
      elim (Bool-cases (ltb 0 (failures_of b.breaker))) [
        | inl some_ ↦
            rw (some_, breaker-transition cleared healthy, closed_at_zero positive) (refl, refl)
        | inr none_ ↦
            let zero_ : failures_of b.breaker ≡ 0 = ground arith in
            let nothing : consecutive es ≡ 0 = sym counts ∙ zero_ in
            rw (none_, closed_at_zero positive)
              (zero_, rw (nothing, closed_at_zero positive) at until)
      ]
  run-Holds a (failure e now ∷ es) positive fresh =
      dispose-Holds (classify_adapter_error e) (run failure_threshold cooldown a es) now
        (consecutive es) (last_counted es) (run-Holds a es positive fresh)
  run-Holds a (key_expiry ∷ es) positive fresh = rw (closed_at_zero positive) (refl, refl)

  -- Whether the next call is refused, and for how long.
  abbrev pub refusal : List Event → ℕ → Option ℕ
  refusal es now =
      let until = last_counted es + cooldown in
      if leb failure_threshold (consecutive es) && ltb now until then some (until - now) else none

  -- From a fresh account, and for a threshold that is not zero, the breaker refuses a call exactly
  -- when as many counted failures as the threshold have come since the last success or expiry of the
  -- key, and the cooldown since the last of them is not over; it then tells the time that is left.
  pub before_call-refusal :
      (a : Account) (es : List Event) (now : ℕ)
      → 0 < failure_threshold
      → a.breaker ≡ none
      → before_call (run failure_threshold cooldown a es) now ≡ refusal es now
  unfolding before_call
  before_call-refusal a es now positive fresh =
      let (counts, until) = run-Holds a es positive fresh in
      rw until (elim (Bool-cases (leb failure_threshold (consecutive es))) [
        | inl reached ↦ rw reached
        | inr short ↦ rw short (no_wait now)
      ])
    where
      no_wait : (now : ℕ) → (if ltb now 0 then some (0 - now) else none) ≡ none
      no_wait now = ground arith
