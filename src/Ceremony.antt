-- ===== src/Ceremony.antt =====
-- src/core/ceremony.rs: the annual policy batch, how the phone builds it and how it is checked.
pub mod Types
pub mod Schedule
pub mod Package
pub mod Workspace
pub mod Amounts
pub mod Templates
pub mod Validate
pub mod ChainValue
pub mod Approved
pub mod Selection
pub mod EmergencyBuild
