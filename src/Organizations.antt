-- ===== src/Organizations.antt =====
-- apps/api/src/modules/organizations, and the registration of a user with an organization
-- (apps/api/src/modules/auth/auth.service.ts)
pub mod Service
pub mod Slugs
pub mod Lists
pub mod Ownership
