-- ===== src/Activity.antt =====
-- The activity log and the outbox that mirrors it.
pub mod Service
pub mod Mirror
