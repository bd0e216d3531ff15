-- ===== src/Comments.antt =====
-- apps/api/src/modules/comments
pub mod Service
pub mod Controller
pub mod Entry
pub mod Changes
pub mod Authors
