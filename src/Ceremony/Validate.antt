-- ===== src/Ceremony/Validate.antt =====
-- `validate_batch`: the checks that the parts share, then each part of a batch.
pub mod Parts
pub mod Child
pub mod Allowances
pub mod Chain
pub mod Emergency
pub mod Rollover
pub mod Outputs
pub mod Inputs
pub mod Triggers
pub mod Withdrawal
pub mod Total
pub mod Accepted
pub mod Funds
pub mod Access
pub mod NoPanicRollover
pub mod NoPanic
