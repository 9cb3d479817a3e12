-- ===== src/Gst.antt =====
-- src/modules/gst: tax invoices.
pub mod Tax
