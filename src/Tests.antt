-- ===== src/Tests.antt =====
-- The theorems at concrete inputs.
pub mod Batch
pub mod Sweep
pub mod Backup
pub mod Activation
pub mod Vanity
