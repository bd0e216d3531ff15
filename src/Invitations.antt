-- ===== src/Invitations.antt =====
-- apps/api/src/modules/invitations
pub mod Repository
pub mod Service
pub mod Acceptance
pub mod Controller
pub mod Machine
pub mod Lifecycle
pub mod Creation
