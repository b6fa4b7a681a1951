-- ===== src/Gateway/Auth.antt =====
-- features/auth and the use cases of features/security-devices.
pub mod Service
pub mod Names
pub mod Guards
pub mod Registration
pub mod Passwords
pub mod Sessions
pub mod Providers
