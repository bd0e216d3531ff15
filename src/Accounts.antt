-- ===== src/Accounts.antt =====
-- The accounts of users: sessions, tokens sent by email, and what they change.
pub mod Sessions
pub mod Rotation
pub mod Families
pub mod Tokens
pub mod Recovery
pub mod Users
pub mod Verification
