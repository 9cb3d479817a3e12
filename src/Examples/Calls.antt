-- ===== src/Examples/Calls.antt =====
-- A courier account under failing calls, with a threshold of two failures and a cooldown of a minute.
use jsyxi_shipping.Prelude.{◌≡◌, refl, none, some, List, [], ◌∷◌, arith}
use jsyxi_shipping.Courier.Transport.{
  Account, timeout, provider_error, rate_limit, healthy, disabled, before_call, after_failure,
  after_success, count_failure, health_eq, classify_adapter_error,
}
use jsyxi_shipping.Courier.Transport.Breaker.{
  Event, success, failure, run, Untouched, run-disabled, refusal, before_call-refusal,
}

abbrev fresh_account : Account
fresh_account = record { breaker = none; health = healthy; audited = [] }

abbrev disabled_account : Account
disabled_account = record { breaker = none; health = disabled; audited = [] }

-- The last event first: a success, then two counted failures with a rate limit between them.
abbrev failing_calls : List Event
failing_calls =
    failure provider_error 300
    ∷ failure rate_limit 200
    ∷ failure timeout 100
    ∷ success
    ∷ failure timeout 50
    ∷ []

before_call-refusal_example :
    before_call (run 2 60_000 fresh_account failing_calls) 400 ≡ refusal 2 60_000 failing_calls 400
before_call-refusal_example =
    before_call-refusal 2 60_000 fresh_account failing_calls 400 (omega arith) refl

test_before_call : before_call (run 2 60_000 fresh_account failing_calls) 400 ≡ some 59_900
unfolding before_call after_failure after_success count_failure classify_adapter_error health_eq
test_before_call = refl

run-disabled_example :
    Untouched 2 60_000 disabled_account (run 2 60_000 disabled_account failing_calls)
run-disabled_example = run-disabled 2 60_000 disabled_account failing_calls refl
