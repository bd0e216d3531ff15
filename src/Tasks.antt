-- ===== src/Tasks.antt =====
-- The tasks of a project.
pub mod Repository
pub mod Service
pub mod Controller
pub mod Update
pub mod Effects
pub mod Changes
pub mod Sound
pub mod Invariant
pub mod Lists
pub mod Labels
