-- ===== src/Database.antt =====
-- The database and the Prisma client, which the source only calls, as an interface: what the
-- services rely on of a table and of a transaction.
pub mod Table
pub mod Schema
pub mod Integrations
pub mod Labels
pub mod Memory
pub mod Client
pub mod Steps
pub mod Outcomes
pub mod Instance
