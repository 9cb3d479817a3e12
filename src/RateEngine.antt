-- ===== src/RateEngine.antt =====
-- src/modules/rate-engine: weights, zones and freight of a lane (pricing.ts).
pub mod Weights
pub mod Zone
pub mod Freight
pub mod Rto
