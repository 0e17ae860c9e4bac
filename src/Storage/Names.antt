-- ===== src/Storage/Names.antt =====
-- The names of networks against the networks that are supported.
use anzen.Prelude.{◌≡◌, ◌↔◌, ok, refl, string_eq}
use anzen.Bitcoin.{Network, bitcoin, testnet, signet, regtest}
use anzen.Storage.{network_name, parse_network_name, validate_supported_network}

-- The name of a network reads back as that network exactly if the network is supported.
pub parse_network_name-network_name :
    (network : Network)
    → parse_network_name (network_name network) ≡ ok network
      ↔ validate_supported_network network ≡ ok tt
unfolding network_name parse_network_name validate_supported_network string_eq
parse_network_name-network_name bitcoin = (λ h. refl, λ h. refl)
parse_network_name-network_name regtest = (λ h. refl, λ h. refl)
parse_network_name-network_name testnet = (λ h. cc, λ h. cc)
parse_network_name-network_name signet = (λ h. cc, λ h. cc)
