-- ===== src/Projects.antt =====
-- The projects of an organization.
pub mod Gate
pub mod Service
pub mod Keys
