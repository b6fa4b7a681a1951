-- ===== src/Payments/Jobs.antt =====
-- The midnight jobs of the payments service.
pub mod Notices
pub mod Sweeping
