-- ===== src/Gateway/Accounts/Journey.antt =====
-- From the registration to the first session, where no call fails.
pub mod Steady
pub mod Entering
pub mod Proving
pub mod Arriving
