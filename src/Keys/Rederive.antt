-- ===== src/Keys/Rederive.antt =====
-- Keys at another index, and the keys that a mnemonic restores.
use anzen.Prelude.{ℕ, ◌≡◌, some, ok, arith, context, >>=-eq-ok}
use anzen.Bitcoin.{Bitcoin, Bytes, Network}
use anzen.Keys.{
  Bip32, DeviceKeys, Mnemonic, coin_type, vault_parent_path, derive_vault_key_from_parent,
  from_mnemonic, vault_parent_xpriv, with_vault_key_index, generate_for_network_at_index,
  parse_for_network_at_index,
}

module _ (lib : Bitcoin) (bip : Bip32) where
  from_mnemonic-fields :
      (mnemonic : Mnemonic) (network : Network) (i : ℕ) (keys : DeviceKeys)
      → from_mnemonic lib bip mnemonic network i ≡ ok keys
      → (keys.mnemonic ≡ mnemonic) × (keys.network ≡ network) × (keys.vault_key_index ≡ i)
  unfolding from_mnemonic
  from_mnemonic-fields mnemonic network i keys h = (ground arith, ground arith, ground arith)

  -- Keys that are moved to another index are the keys of their mnemonic at that index, errors
  -- included: a search over indexes finds nothing that the mnemonic and the index do not restore.
  pub with_vault_key_index-from_mnemonic :
      (mnemonic : Mnemonic) (network : Network) (i : ℕ) (keys : DeviceKeys)
      → from_mnemonic lib bip mnemonic network i ≡ ok keys
      → (j : ℕ) → with_vault_key_index lib bip keys j ≡ from_mnemonic lib bip mnemonic network j
  unfolding from_mnemonic with_vault_key_index vault_parent_xpriv
  with_vault_key_index-from_mnemonic mnemonic network i keys h j =
      let (coin, known, h1) = >>=-eq-ok (coin_type network) _ h in
      let (master, minted, h2) =
        >>=-eq-ok (context (bip.new_master network (bip.to_seed mnemonic)) "invalid seed") _ h1 in
      let (parent, derived, h3) =
        >>=-eq-ok (context (bip.derive_path master (vault_parent_path coin)) "derivation failed") _
          h2 in
      let (triple, found, h4) = >>=-eq-ok (derive_vault_key_from_parent lib bip parent i) _ h3 in
      ground arith

  parse-known :
      (mnemonic : Mnemonic) (network : Network) (i : ℕ) (keys : DeviceKeys)
      → bip.parse_mnemonic mnemonic ≡ some mnemonic
      → from_mnemonic lib bip mnemonic network i ≡ ok keys
      → parse_for_network_at_index lib bip mnemonic network i ≡ ok keys
  unfolding parse_for_network_at_index
  parse-known mnemonic network i keys known derived = rw known derived

  -- A device that is generated is restored by its words and its index, if the words of a mnemonic
  -- parse to it.
  pub generate-parse :
      (entropy : Bytes) (network : Network) (i : ℕ) (keys : DeviceKeys)
      → ((mnemonic : Mnemonic)
          → bip.mnemonic_from_entropy entropy ≡ some mnemonic
          → bip.parse_mnemonic mnemonic ≡ some mnemonic)
      → generate_for_network_at_index lib bip entropy network i ≡ ok keys
      → parse_for_network_at_index lib bip keys.mnemonic keys.network keys.vault_key_index ≡ ok keys
  unfolding generate_for_network_at_index
  generate-parse entropy network i keys parses h =
      let (mnemonic, made, derived) =
        >>=-eq-ok (context (bip.mnemonic_from_entropy entropy) "failed to generate mnemonic") _ h in
      let known = parses mnemonic (ground arith) in
      let (same_mnemonic, same_network, same_index) =
        from_mnemonic-fields mnemonic network i keys derived in
      let parsed = parse-known mnemonic network i keys known derived in cc
