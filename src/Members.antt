-- ===== src/Members.antt =====
-- apps/api/src/modules/members, and the middleware that resolves a membership.
pub mod Repository
pub mod Service
pub mod Gate
pub mod Ownership
pub mod Transfer
pub mod Controller
pub mod Admission
pub mod Invariant
pub mod Escalation
