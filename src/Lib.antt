-- ===== src/Lib.antt =====
-- Jsyxi Shipping: the rules of a shipping application for Shopify merchants, in its server's
-- TypeScript under `src/`. The application imports orders, derives what a parcel weighs and what is
-- to be collected for it, prices lanes with couriers, follows parcels through carrier events, and
-- reconciles cash on delivery and tax.
--
-- The program's parts here, and the files that model them, in that order:
--   `src/common/money.ts`: paise, millionths, half-up rounding. Money, with the printing and
--   reading of amounts in Money/RoundTrip and rounding in Money/Rounding. `Result` is the value or
--   the fault that the source throws; Prelude/Decimal has the decimal texts and regular expressions.
--   `src/modules/order-derivation`: `weight.ts` (Derivation/Weight), `payment.ts`
--   (Derivation/Payment), `order-status.ts` (Derivation/OrderStatus), `eligibility.ts`
--   (Derivation/Eligibility), `package-selection.ts` (Derivation/Packaging). Each returns texts
--   that the next reads: the weight goes to the rate engine and to the booking checks, the
--   outstanding amount to the payment mode and the assignment.
--   `src/modules/rate-engine/pricing.ts`: weights F-1 to F-3 (RateEngine/Weights), the zone F-4
--   (RateEngine/Zone), freight F-5 to F-11 (RateEngine/Freight), the return F-12 (RateEngine/Rto).
--   `src/modules/rules/evaluate.ts`: the rule engine that picks a service for a shipment. Rules/Model has
--   its data; Rules/Decimals, Rules/LocalTime, Rules/Condition, Rules/OrderCondition the conditions;
--   Rules/Filters the conditions on a candidate; Rules/Scan the scan of the rules; Rules/Candidates the
--   results of the candidates; Rules/Choice and Rules/Evaluate the actions. The proofs are in
--   Rules/Selection, Rules/FirstMatch, Rules/MatchedRule, Rules/PriorityChain, Rules/Selectable,
--   Rules/Cheapest and Rules/Results. It reads the prices of the rate engine as quotes.
--   `src/modules/tracking/movement-reducer.service.ts`: the transition and the optimistic
--   update loop of a shipment (Tracking/Reducer), on the state enums of States.
--   `src/modules/courier-framework/transport-policy.ts` and `courier-health.service.ts`: the circuit
--   breaker and the health of a courier account (Courier/Transport), as events on an account, with
--   the threshold and the cooldown as parameters of the theorems.
--   `src/modules/booking/booking-worker.service.ts`: the worker that creates a shipment with its courier, and
--   the resolution of a booking whose outcome is unknown. Booking/Model has the rows of the tables,
--   Booking/Request the request, Booking/Worker the claim of a job, Booking/Confirm the confirmation,
--   Booking/Settle the other outcomes and the resolutions. Each transaction is a function of the database,
--   since it holds the lock of the shipment's row and a confirmation that of the number; what follows the
--   commit is a list of effects. Booking/History has sequences of such transactions in any order, with
--   the answers of the courier as events; the proofs are in Booking/Uniqueness,
--   Booking/OneCreate, Booking/OneDebit and Booking/Outcomes.
--   `src/modules/order-sync/allocation-plan.ts`: the plan of an order's allocations
--   (OrderSync/Allocation).
--   `src/modules/gst/gst-tax.ts`: line tax, totals and numbers of invoices (Gst/Tax).
--   `src/modules/recon-cod/cod-state.ts`: the state of a COD expectation (Cod/State).
-- Examples has every theorem at a concrete input, and tests.
--
-- How the code is rendered: a function is one definition by clauses of its name in snake_case, and a
-- long one is cut at its steps, each named for what it computes. A BigInt is an integer of
-- Prelude/Int (division truncates), or a natural number where the source reads it from digits
-- without a sign. A string is the list of its UTF-16 codes, with `trim`, `padStart` and the anchored
-- decimal patterns written out. `null` and `undefined` are both `none`. A `throw` is an `err` of
-- `Result`; the message of the error is not kept. A stable sort by position is the insertion sort of
-- Prelude/Sort, and a position is a natural number. A sort by a comparison function is the stable one of
-- Prelude/Compare, which is the language's where the comparison is a total preorder. The Map of candidate
-- results, written through shared references, is a list of results by service id that each step returns.
--
-- Parameters, for what is not in the repository: String.prototype.toLowerCase in the zone rules; in the
-- rule engine a record `Host` of the case tables, Intl.DateTimeFormat, Date.parse and Number; in the
-- booking worker toUpperCase, and whether a shop's subscription has a running cycle; the
-- choice of locations that ship in house in the allocation plan, an argument in the source too; and
-- the other writers of a shipment's row, who act between the read and the conditional update of each
-- attempt. Where a theorem asks that they count the version up, that is what the UPDATEs of these columns
-- do in the repository (movement, custody, delivery instant, version). The expiry of the breaker's key in Redis is an event that may come at any time.
--
-- Bounds and fuel: `apply_attempts` counts down the five attempts of MAX_VERSION_RETRIES, and ends as
-- the loop of the source does, with a conflict. Decimal printing recurs on n + 1 for the number n,
-- more than its digits. All other recursion is on lists. BigInt has no bound.
--
-- Not modelled: the token bucket, a script that Redis runs; the NestJS services around these
-- functions with their SQL, queues and HTTP, the courier adapters, the user interface; of
-- `pricing.ts` the check of a matcher's shape when it is written; of `gst-tax.ts` and
-- `cod-state.ts` what asks Intl and Date for a local date; the text of a review reason, and a
-- shipment that is missing when it is loaded; of the booking worker the
-- timestamps, log lines and reasons, failing transactions and hooks, absent optional collaborators, and
-- the writers outside it, such as cancellation.
pub mod Prelude
pub mod Result
pub mod Money
pub mod States
pub mod Derivation
pub mod RateEngine
pub mod Rules
pub mod Tracking
pub mod OrderSync
pub mod Gst
pub mod Cod
pub mod Courier
pub mod Booking
mod Examples
