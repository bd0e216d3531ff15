-- ===== src/Examples.antt =====
-- The theorems applied to concrete inputs, and runs of the code at fixed ones.
pub mod Rows
pub mod Access
pub mod Tasks
pub mod Comments
pub mod Accounts
pub mod Projects
pub mod Invitations
pub mod Organizations
pub mod Integrations
pub mod Webhooks
pub mod Lists
pub mod Labels
pub mod Security
