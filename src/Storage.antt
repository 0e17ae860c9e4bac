-- ===== src/Storage.antt =====
-- src/core/storage.rs: the vault configuration and the names of networks.
pub mod Names
use anzen.Prelude.{ℕ, String, Result, ok, err, ◌||◌, ◌==◌, string_eq, if◌then◌else◌}
use anzen.Bitcoin.{Network, bitcoin, testnet, signet, regtest}

pub record VaultConfig : Type 0 where
  pub version : ℕ
  pub network : String
  pub phone_vault_pubkey : String
  pub hww_vault_pubkey : String
  pub phone_hot_external_descriptor : String
  pub phone_hot_internal_descriptor : String
  pub vault_descriptor : String
  pub vault_address : String
  pub phone_recovery_blocks : ℕ
  pub hww_recovery_blocks : ℕ
  pub monthly_limit_sats : ℕ
  pub emergency_access_limit_sats : ℕ

unfoldable pub network_name : Network → String
network_name bitcoin = "mainnet"
network_name regtest = "regtest"
network_name testnet = "unsupported"
network_name signet = "unsupported"

unfoldable pub parse_network_name : String → Result Network
parse_network_name name =
    if name == "mainnet" || name == "bitcoin"
    then ok bitcoin
    else if name == "regtest"
    then ok regtest
    else err "unsupported vault network: {name}"

unfoldable pub validate_supported_network : Network → Result (Unit {0})
validate_supported_network bitcoin = ok tt
validate_supported_network regtest = ok tt
validate_supported_network testnet = err "unsupported vault network: {other}"
validate_supported_network signet = err "unsupported vault network: {other}"

-- `VaultConfig::bitcoin_network`
unfoldable pub bitcoin_network : VaultConfig → Result Network
unfolding parse_network_name
bitcoin_network config = parse_network_name config.network
