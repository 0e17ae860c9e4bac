-- ===== src/Transactions.antt =====
-- src/core/transactions.rs: PSBT construction, size estimates, signing and verification.
pub mod Roles
pub mod Partition
pub mod Vsize
pub mod Construct
pub mod Unsigned
pub mod Signing
pub mod Signatures
pub mod Updates
pub mod SignVerify
pub mod Revocation
pub mod Sums
pub mod Revokes
