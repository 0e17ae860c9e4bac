-- ===== src/Recovery.antt =====
-- src/core/recovery.rs: the sweeps of the vault and the rotation of the phone key.
pub mod Sweep
pub mod Cooperative
pub mod Rotation
pub mod Maturity
pub mod Prepared
pub mod Accepted
pub mod Renewal
