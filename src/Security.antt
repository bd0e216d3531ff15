-- ===== src/Security.antt =====
-- packages/shared/src/security: how the deliveries of a webhook are signed
pub mod Split
pub mod Signature
pub mod Verified
