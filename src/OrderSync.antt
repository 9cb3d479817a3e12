-- ===== src/OrderSync.antt =====
-- src/modules/order-sync: how the fulfillment orders of an order become allocations.
pub mod Allocation
