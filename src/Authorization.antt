-- ===== src/Authorization.antt =====
-- apps/api/src/shared/authorization: who may do what.
pub mod Permissions
pub mod Actor
