-- ===== src/Samples.antt =====
-- A concrete library and a concrete batch, at which the theorems are applied.
pub mod Unary
pub mod Toy
pub mod Batch
pub mod Approved
pub mod Sweeps
pub mod Selection
pub mod Emergency
pub mod Backup
pub mod Keys
pub mod Activation
