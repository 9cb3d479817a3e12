-- ===== src/Derivation.antt =====
-- src/modules/order-derivation: what is derived from an order and its shipments.
pub mod Weight
pub mod Payment
pub mod OrderStatus
pub mod Eligibility
pub mod Packaging
