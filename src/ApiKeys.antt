-- ===== src/ApiKeys.antt =====
-- apps/api/src/modules/api-keys, and the middleware that authenticates with a key or a token.
pub mod Service
pub mod Scopes
pub mod Authentication
pub mod Validity
pub mod Controller
pub mod Catalog
pub mod Invariant
