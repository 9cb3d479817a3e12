-- ===== src/Courier/Transport.antt =====
-- src/modules/courier-framework/transport-policy.ts and courier-health.service.ts: the circuit breaker of
-- a courier account and the health of the account. The two fields of the breaker's Redis hash are a
-- record, absent where the key is; that the key expires is an event of its own, which may come at
-- any time. An instant is a natural number. The token bucket, a script of Redis, is not modelled.
pub mod Breaker
use jsyxi_shipping.Prelude.{
  ℕ, suc, ◌+◌, ◌-◌, Bool, true, false, ◌||◌, Option, none, some, List, [], ◌∷◌, ltb, leb,
  if◌then◌else◌,
}

pub data CourierAccountHealth : Type 0 where
  unverified healthy degraded disconnected disabled : CourierAccountHealth

pub data AdapterError : Type 0 where
  unsupported_capability rate_limit budget_exhausted auth_error : AdapterError
  timeout provider_error unknown : AdapterError

pub data FailureDisposition : Type 0 where
  not_a_failure auth counted : FailureDisposition

unfoldable pub classify_adapter_error : AdapterError → FailureDisposition
classify_adapter_error unsupported_capability = not_a_failure
classify_adapter_error rate_limit = not_a_failure
classify_adapter_error budget_exhausted = not_a_failure
classify_adapter_error auth_error = auth
classify_adapter_error timeout = counted
classify_adapter_error provider_error = counted
classify_adapter_error unknown = counted

pub record BreakerKey : Type 0 where
  pub failures : ℕ
  pub open_until : ℕ

-- An account, with the audit rows of its health transitions, the last one first.
pub record Account : Type 0 where
  pub breaker : Option BreakerKey
  pub health : CourierAccountHealth
  pub audited : List (CourierAccountHealth × CourierAccountHealth)

abbrev pub failures_of : Option BreakerKey → ℕ
failures_of none = 0
failures_of (some k) = k.failures

abbrev pub open_until_of : Option BreakerKey → ℕ
open_until_of none = 0
open_until_of (some k) = k.open_until

unfoldable pub health_eq : CourierAccountHealth → CourierAccountHealth → Bool
health_eq unverified unverified = true
health_eq healthy healthy = true
health_eq degraded degraded = true
health_eq disconnected disconnected = true
health_eq disabled disabled = true
health_eq _ _ = false

-- The UPDATE with its two conditions, and the audit row where it hits.
unfoldable pub transition : Account → CourierAccountHealth → Account
transition a to =
    if health_eq a.health to || health_eq a.health disabled
    then a
    else record a { health = to; audited = (a.health, to) ∷ a.audited }

-- CircuitOpenError with the time to wait, or none.
unfoldable pub before_call : Account → ℕ → Option ℕ
before_call a now =
    let until = open_until_of a.breaker in if ltb now until then some (until - now) else none

unfoldable pub after_success : Account → Account
unfolding transition
after_success a =
    if ltb 0 (failures_of a.breaker) then transition (record a { breaker = none }) healthy else a

module _ (failure_threshold cooldown : ℕ) where
  -- A counted failure: `hincrby`, and `hset` and the transition at the threshold.
  unfoldable pub count_failure : Account → ℕ → Account
  count_failure a now =
      let failures = suc (failures_of a.breaker) in
      if leb failure_threshold failures
      then transition
          (record a {
            breaker = some (record { failures = failures; open_until = now + cooldown });
          })
          degraded
      else record a {
        breaker = some (record { failures = failures; open_until = open_until_of a.breaker });
      }

  unfoldable pub dispose : FailureDisposition → Account → ℕ → Account
  dispose not_a_failure a now = a
  dispose auth a now = transition a disconnected
  dispose counted a now = count_failure a now

  unfoldable pub after_failure : Account → AdapterError → ℕ → Account
  unfolding dispose
  after_failure a e now = dispose (classify_adapter_error e) a now
