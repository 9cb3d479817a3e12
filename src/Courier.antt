-- ===== src/Courier.antt =====
-- src/modules/courier-framework: what every call of a courier passes through.
pub mod Transport
