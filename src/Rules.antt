-- ===== src/Rules.antt =====
-- src/modules/rules/evaluate.ts: the courier rules engine (§9.4.4), which picks a service for a shipment.
-- What the language's host decides (case tables, Intl, Date.parse, Number) is the record `Host`.
pub mod Model
pub mod Decimals
pub mod LocalTime
pub mod Condition
pub mod OrderCondition
pub mod Filters
pub mod Scan
pub mod Candidates
pub mod Choice
pub mod Evaluate
pub mod Selection
pub mod FirstMatch
pub mod MatchedRule
pub mod PriorityChain
pub mod Selectable
pub mod Lexical
pub mod Cheapest
pub mod Results
