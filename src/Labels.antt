-- ===== src/Labels.antt =====
-- apps/api/src/modules/labels, and the labels of a task (apps/api/src/modules/tasks)
pub mod Service
pub mod Replaced
pub mod Controller
pub mod Agreement
pub mod Invariant
