-- ===== src/Constants.antt =====
-- The protocol constants of src/core/mod.rs.
use anzen.Prelude.{ℕ}

abbrev pub phone_recovery_blocks : ℕ
phone_recovery_blocks = 61200

abbrev pub hww_recovery_blocks : ℕ
hww_recovery_blocks = 65535

abbrev pub months_per_rollover : ℕ
months_per_rollover = 12

abbrev pub default_fee_rate_sat_vb : ℕ
default_fee_rate_sat_vb = 1

abbrev pub connector_value_sats : ℕ
connector_value_sats = 1000

-- 5_063 * 512
abbrev pub monthly_allowance_delay_seconds : ℕ
monthly_allowance_delay_seconds = 2592256

-- 1_182 * 512
abbrev pub emergency_access_delay_seconds : ℕ
emergency_access_delay_seconds = 605184
