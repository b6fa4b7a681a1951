-- ===== src/Gateway/Repositories.antt =====
-- The repositories of the accounts: users, confirmations, codes and sessions.
pub mod Users
pub mod Codes
pub mod Devices
pub mod Follows
