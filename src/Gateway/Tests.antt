-- ===== src/Gateway/Tests.antt =====
-- The gateway on a small database: an environment for which the laws hold, and the cases of
-- features/auth on it.
mod Sample
mod Runs
mod Followers
