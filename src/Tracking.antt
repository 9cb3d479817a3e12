-- ===== src/Tracking.antt =====
-- src/modules/tracking: the reducer of carrier events into movement states.
pub mod Reducer
