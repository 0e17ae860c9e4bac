-- ===== src/Bitcoin/Library.antt =====
-- What the source calls of third-party crates. `none` is a failure of the call.
use anzen.Prelude.{ℕ, String, Bool, Option, List}
use anzen.Bitcoin.Data.{
  Bytes, Script, Txid, XOnlyPublicKey, LeafHash, Network, Transaction, Address, Psbt, Keypair,
  Descriptor,
}

pub record Bitcoin : Type 0 where
  -- `Transaction::compute_txid`, `Txid::to_string`, `Transaction::vsize`
  pub compute_txid : Transaction → Txid
  pub txid_to_string : Txid → String
  pub vsize : Transaction → ℕ
  -- `Script::minimal_non_dust`
  pub minimal_non_dust : Script → ℕ
  -- `Sequence::MAX`, `Sequence::ENABLE_RBF_NO_LOCKTIME`, `Sequence::from_seconds_ceil`
  pub sequence_max : ℕ
  pub sequence_enable_rbf_no_locktime : ℕ
  pub from_seconds_ceil : ℕ → Option ℕ
  -- `Address::from_str(text)?.require_network(network)?`
  pub parse_address : String → Network → Option Address
  -- `Psbt::from_str`, `Psbt::to_string`, `Psbt::from_unsigned_tx`
  pub psbt_from_str : String → Option Psbt
  pub psbt_to_string : Psbt → String
  pub from_unsigned_tx : Transaction → Option Psbt
  -- `PsbtExt::update_input_with_descriptor`, `at_derivation_index(0)`
  pub update_input_with_descriptor : Psbt → ℕ → Descriptor → Option Psbt
  pub at_derivation_index : Descriptor → Option Descriptor
  -- `Descriptor::from_str`, `derived_descriptor(_, 0)`, `.address(network)`
  pub descriptor_from_str : String → Option Descriptor
  pub derived_descriptor : Descriptor → Option Descriptor
  pub descriptor_address : Descriptor → Network → Option Address
  -- whether the descriptor is `Descriptor::Tr`; `iter_scripts` with each script encoded;
  -- `spend_info().control_block(..)` serialized; `TapLeafHash::from_script`
  pub is_taproot : Descriptor → Bool
  pub iter_scripts : Descriptor → List (ℕ × Script)
  pub control_block : Descriptor → Script → Option Bytes
  pub leaf_hash : Script → LeafHash
  -- `Builder::new().push_int(n)` and `.push_x_only_key(key).push_opcode(OP_CHECKSIG)`
  pub push_int_script : ℕ → Script
  pub checksig_script : XOnlyPublicKey → Script
  -- `XOnlyPublicKey::from_str`, `.to_string()`, `XOnlyPublicKey::from_keypair`
  pub pubkey_from_str : String → Option XOnlyPublicKey
  pub pubkey_to_string : XOnlyPublicKey → String
  pub keypair_pubkey : Keypair → XOnlyPublicKey
  -- `TapSighashType::Default`
  pub sighash_default : ℕ
  -- `sighash_msg(index, cache, Some(leaf))` when it is a taproot sighash
  pub sighash_msg : Psbt → ℕ → LeafHash → Option Bytes
  pub sign_schnorr : Bytes → Keypair → Bytes
  pub verify_schnorr : Bytes → Bytes → XOnlyPublicKey → Bool
  -- `finalize_inp_mut`, `finalize_mut`, `extract`
  pub finalize_input : Psbt → ℕ → Option Psbt
  pub finalize : Psbt → Option Psbt
  pub extract : Psbt → Option Transaction
