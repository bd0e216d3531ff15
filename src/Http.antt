-- ===== src/Http.antt =====
-- apps/api/src/shared/http: the limit on the attempts that a client may make
pub mod Redact
pub mod Redis
pub mod RateLimit
pub mod Attempt
pub mod Window
pub mod Memory
