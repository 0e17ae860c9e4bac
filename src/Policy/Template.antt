-- ===== src/Policy/Template.antt =====
-- `VaultAddressTemplate` of src/core/policy.rs: the vault's output key, without its descriptor.
use anzen.Prelude.{ℕ, String, Option, List, [], ◌∷◌, Result, ok, ◌>>=◌, context}
use anzen.Constants.{phone_recovery_blocks, hww_recovery_blocks}
use anzen.Bitcoin.{Bytes, Script, XOnlyPublicKey, Network, Address}
use anzen.Policy.{bip341_nums_key}

-- One call of the crate's script `Builder`.
pub data Push : Type 0 where
  x_only_key : XOnlyPublicKey → Push
  int : ℕ → Push
  op_checksig op_checksigadd op_numequal op_csv op_verify : Push

abbrev pub TapNodeHash : Type 0
TapNodeHash = ℕ

-- What the source calls of the bitcoin crate. An output key is a key.
pub record Taproot : Type 0 where
  pub into_script : List Push → Script
  pub pubkey_from_str : String → Option XOnlyPublicKey
  -- `TapNodeHash::from_script(script, LeafVersion::TapScript)`, `TapNodeHash::from_node_hashes`
  pub from_script : Script → TapNodeHash
  pub from_node_hashes : TapNodeHash → TapNodeHash → TapNodeHash
  -- `tap_tweak(secp, Some(root)).0`, `to_x_only_public_key().serialize()`, `Address::p2tr_tweaked`
  pub tap_tweak : XOnlyPublicKey → TapNodeHash → XOnlyPublicKey
  pub serialize : XOnlyPublicKey → Bytes
  pub p2tr_tweaked : XOnlyPublicKey → Network → Address

pub record VaultAddressTemplate : Type 0 where
  pub internal_key : XOnlyPublicKey
  pub hww_pubkey : XOnlyPublicKey
  pub hww_recovery_node : TapNodeHash

module _ (tap : Taproot) where
  unfoldable pub cooperative_script : XOnlyPublicKey → XOnlyPublicKey → Script
  cooperative_script phone hww =
      tap.into_script (
        x_only_key phone ∷ op_checksig ∷ x_only_key hww ∷ op_checksigadd ∷ int 2 ∷ op_numequal ∷ [])

  unfoldable pub recovery_script : XOnlyPublicKey → ℕ → Script
  recovery_script key delay =
      tap.into_script (int delay ∷ op_csv ∷ op_verify ∷ x_only_key key ∷ op_checksig ∷ [])

  -- `VaultAddressTemplate::new`
  unfoldable pub template_new : XOnlyPublicKey → Result VaultAddressTemplate
  unfolding recovery_script
  template_new hww_pubkey = do
    internal_key ← context (tap.pubkey_from_str bip341_nums_key) "invalid BIP341 NUMS internal key"
    ok (record {
      internal_key = internal_key;
      hww_pubkey = hww_pubkey;
      hww_recovery_node = tap.from_script (recovery_script hww_pubkey hww_recovery_blocks);
    })

  unfoldable pub output_key : VaultAddressTemplate → XOnlyPublicKey → XOnlyPublicKey
  unfolding cooperative_script recovery_script
  output_key template phone_pubkey =
      let cooperative_node =
        tap.from_script (cooperative_script phone_pubkey template.hww_pubkey) in
      let phone_recovery_node =
        tap.from_script (recovery_script phone_pubkey phone_recovery_blocks) in
      let recovery_node = tap.from_node_hashes phone_recovery_node template.hww_recovery_node in
      let merkle_root = tap.from_node_hashes cooperative_node recovery_node in
      tap.tap_tweak template.internal_key merkle_root

  -- `VaultAddressTemplate::address`
  unfoldable pub template_address : VaultAddressTemplate → XOnlyPublicKey → Network → Address
  unfolding output_key
  template_address template phone_pubkey network =
      tap.p2tr_tweaked (output_key template phone_pubkey) network
