-- ===== src/Cod.antt =====
-- src/modules/recon-cod: the reconciliation of cash on delivery.
pub mod State
