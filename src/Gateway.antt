-- ===== src/Gateway.antt =====
-- apps/gateway: the accounts of the users, their sessions and the messages about them.
pub mod Text
pub mod Types
pub mod World
pub mod UserEntity
pub mod Repositories
pub mod Auth
pub mod Database
pub mod Logic
pub mod Following
pub mod Commands
pub mod Accounts
mod Tests
