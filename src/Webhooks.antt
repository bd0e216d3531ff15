-- ===== src/Webhooks.antt =====
-- apps/api/src/modules/webhooks
pub mod Service
pub mod Operations
pub mod Health
pub mod Url
pub mod Blocks
pub mod Allowed
