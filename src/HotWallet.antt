-- ===== src/HotWallet.antt =====
-- src/hot_wallet/mod.rs: the phone.
pub mod World
pub mod Names
pub mod Files
pub mod Activate
pub mod Commit
pub mod Respects
pub mod Staged
pub mod Intact
pub mod Steps
pub mod Activated
pub mod Succeeded
pub mod Superseded
pub mod Finishes
pub mod Restage
pub mod Resumable
pub mod Attempts
pub mod Cleared
pub mod Recheck
pub mod Retry
pub mod Resumes
pub mod Vanity
