-- ===== src/Keys.antt =====
-- src/core/keys.rs: the keys of a device, derived from its mnemonic.
pub mod Rederive
use anzen.Prelude.{
  ℕ, String, ◌<>◌, Bool, Option, Result, ok, err, ◌>>=◌, context, ltb, if◌then◌else◌,
}
use anzen.Bitcoin.{
  Bitcoin, Bytes, Network, bitcoin, testnet, signet, regtest, Keypair, XOnlyPublicKey,
}

-- A mnemonic by its words; an extended private key by its number.
abbrev pub Mnemonic : Type 0
Mnemonic = String

abbrev pub Xpriv : Type 0
Xpriv = ℕ

-- What the source calls of bip39 and bip32. `none` is a failure of the call.
pub record Bip32 : Type 0 where
  -- `Mnemonic::parse_in_normalized`, `Mnemonic::from_entropy_in`, `to_seed_normalized("")`
  pub parse_mnemonic : String → Option Mnemonic
  pub mnemonic_from_entropy : Bytes → Option Mnemonic
  pub to_seed : Mnemonic → Bytes
  -- `Xpriv::new_master`, `derive_priv(path)`, `derive_priv(child)`
  pub new_master : Network → Bytes → Option Xpriv
  pub derive_path : Xpriv → String → Option Xpriv
  pub derive_child : Xpriv → ℕ → Option Xpriv
  -- `Keypair::from_secret_key(&xpriv.private_key)`
  pub keypair_of : Xpriv → Keypair
  -- `fingerprint`, `Xpriv::to_string`, `Xpub::from_priv(..).to_string()`
  pub fingerprint : Xpriv → String
  pub xpriv_text : Xpriv → String
  pub xpub_text : Xpriv → String

pub record DeviceKeys : Type 0 where
  pub network : Network
  pub mnemonic : Mnemonic
  pub vault_key_index : ℕ
  pub seed : Bytes
  pub master_xpriv : Xpriv
  pub vault_xpriv : Xpriv
  pub vault_keypair : Keypair
  pub vault_pubkey : XOnlyPublicKey

-- The number of the coin type, as the paths write it.
unfoldable pub coin_type : Network → Result String
coin_type bitcoin = ok "0"
coin_type regtest = ok "1"
coin_type testnet = err "unsupported device-key network: {other}"
coin_type signet = err "unsupported device-key network: {other}"

-- `m/86'/{coin_type}'/100'/0` and `m/86'/{coin_type}'/0'`
abbrev pub vault_parent_path : String → String
vault_parent_path coin = "m/86'/" <> (coin <> "'/100'/0")

abbrev pub account_path : String → String
account_path coin = "m/86'/" <> (coin <> "'/0'")

-- `ChildNumber::from_normal_idx` takes the indexes below 2^31.
abbrev pub normal_index_limit : ℕ
normal_index_limit = 2147483648

-- `tr([{fingerprint}/86'/{coin_type}'/0']{key}/{chain}/*)`
abbrev pub descriptor_text : String → String → String → String → String
descriptor_text fingerprint coin key chain =
    "tr(["
    <> (fingerprint <> ("/86'/" <> (coin <> ("'/0']" <> (key <> ("/" <> (chain <> "/*)")))))))

module _ (lib : Bitcoin) (bip : Bip32) where
  unfoldable pub derive_vault_key_from_parent :
      Xpriv → ℕ → Result (Xpriv × Keypair × XOnlyPublicKey)
  derive_vault_key_from_parent parent vault_key_index = do
    child ←
        context
          (if ltb vault_key_index normal_index_limit
            then Option.some vault_key_index
            else Option.none)
          "vault key index must be below 2^31"
    vault_xpriv ← context (bip.derive_child parent child) "derivation failed"
    let vault_keypair = bip.keypair_of vault_xpriv
    ok (vault_xpriv, vault_keypair, lib.keypair_pubkey vault_keypair)

  unfoldable pub from_mnemonic : Mnemonic → Network → ℕ → Result DeviceKeys
  from_mnemonic mnemonic network vault_key_index = do
    coin ← coin_type network
    let seed = bip.to_seed mnemonic
    master_xpriv ← context (bip.new_master network seed) "invalid seed"
    parent ← context (bip.derive_path master_xpriv (vault_parent_path coin)) "derivation failed"
    (vault_xpriv, vault_keypair, vault_pubkey) ← derive_vault_key_from_parent parent vault_key_index
    ok (record {
      network = network;
      mnemonic = mnemonic;
      vault_key_index = vault_key_index;
      seed = seed;
      master_xpriv = master_xpriv;
      vault_xpriv = vault_xpriv;
      vault_keypair = vault_keypair;
      vault_pubkey = vault_pubkey;
    })

  unfoldable pub vault_parent_xpriv : DeviceKeys → Result Xpriv
  vault_parent_xpriv keys = do
    coin ← coin_type keys.network
    context (bip.derive_path keys.master_xpriv (vault_parent_path coin)) "derivation failed"

  unfoldable pub with_vault_key_index : DeviceKeys → ℕ → Result DeviceKeys
  with_vault_key_index keys vault_key_index = do
    parent ← vault_parent_xpriv keys
    (vault_xpriv, vault_keypair, vault_pubkey) ← derive_vault_key_from_parent parent vault_key_index
    ok (record keys {
      vault_key_index = vault_key_index;
      vault_xpriv = vault_xpriv;
      vault_keypair = vault_keypair;
      vault_pubkey = vault_pubkey;
    })

  -- The entropy is the crate's random bytes.
  unfoldable pub generate_for_network_at_index : Bytes → Network → ℕ → Result DeviceKeys
  generate_for_network_at_index entropy network vault_key_index = do
    mnemonic ← context (bip.mnemonic_from_entropy entropy) "failed to generate mnemonic"
    from_mnemonic mnemonic network vault_key_index

  unfoldable pub generate_for_network : Bytes → Network → Result DeviceKeys
  unfolding generate_for_network_at_index
  generate_for_network entropy network = generate_for_network_at_index entropy network 0

  unfoldable pub parse_for_network_at_index : String → Network → ℕ → Result DeviceKeys
  parse_for_network_at_index words network vault_key_index = do
    mnemonic ← context (bip.parse_mnemonic words) "invalid mnemonic"
    from_mnemonic mnemonic network vault_key_index

  unfoldable pub parse_for_network : String → Network → Result DeviceKeys
  unfolding parse_for_network_at_index
  parse_for_network words network = parse_for_network_at_index words network 0

  unfoldable pub hot_descriptors : DeviceKeys → Result (String × String)
  hot_descriptors keys = do
    coin ← coin_type keys.network
    account ← context (bip.derive_path keys.master_xpriv (account_path coin)) "derivation failed"
    let text = descriptor_text (bip.fingerprint keys.master_xpriv) coin (bip.xpub_text account)
    ok (text "0", text "1")

  unfoldable pub hot_private_descriptors : DeviceKeys → Result (String × String)
  hot_private_descriptors keys = do
    coin ← coin_type keys.network
    account ← context (bip.derive_path keys.master_xpriv (account_path coin)) "derivation failed"
    let text = descriptor_text (bip.fingerprint keys.master_xpriv) coin (bip.xpriv_text account)
    ok (text "0", text "1")
