-- ===== src/Worker.antt =====
-- apps/worker/src: the delivery of webhooks and the dispatcher of the outbox
pub mod Delivery
pub mod Dispatcher
pub mod Failures
pub mod Claims
pub mod Once
pub mod ResetRequest
