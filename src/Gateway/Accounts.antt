-- ===== src/Gateway/Accounts.antt =====
-- What the use cases of features/auth do to the accounts.
pub mod Rows
pub mod SignUp
pub mod Confirming
pub mod Recovery
pub mod SignIn
pub mod Devices
pub mod Providers
pub mod Follows
pub mod Steps
pub mod Invariant
pub mod Emails
pub mod Spent
pub mod Alone
pub mod Rotation
pub mod Lasting
pub mod Journey
