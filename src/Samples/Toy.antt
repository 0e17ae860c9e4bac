-- ===== src/Samples/Toy.antt =====
-- Functions that stand for the third-party calls in tests.
use anzen.Prelude.{
  ℕ, ◌+◌, ◌*◌, ◌/◌, String, true, none, some, List, [], ◌∷◌, map, ◌==◌, nat_eq, string_eq, list_eq,
  if◌then◌else◌, length,
}
use anzen.Bitcoin.{Bitcoin, Address, Transaction, PsbtInput, Psbt}
use anzen.Samples.Unary.{encode_number}
use anzen.Storage.{VaultConfig}

abbrev pub vault_address : Address
vault_address = record { text = "vault-address"; script_pubkey = 1 ∷ [] }

abbrev pub controller_address : Address
controller_address = record { text = "controller-address"; script_pubkey = 9 ∷ [] }

abbrev pub blank_input : PsbtInput
blank_input = record {
  witness_utxo = none;
  sighash_type = none;
  tap_key_origins = (11, 14 ∷ 15 ∷ 16 ∷ 13 ∷ 12 ∷ []) ∷ (12, 14 ∷ 15 ∷ 16 ∷ 13 ∷ 12 ∷ []) ∷ [];
  tap_script_sigs = [];
}

abbrev txid_of : Transaction → ℕ
txid_of tx = elim tx.input [
  | [] ↦ 0
  | i ∷ _ ↦ i.previous_output.txid + 100 * length tx.output + i.previous_output.vout
]

abbrev pub txid_text : ℕ → String
txid_text n =
    if n == 405
    then "405"
    else if n == 705
    then "705"
    else if n == 706
    then "706"
    else if n == 806
    then "806"
    else encode_number n String.[]

-- The stored texts are read by `parse`.
abbrev pub toy_with : (String → List (String × Psbt)) → Bitcoin
toy_with parse = record {
  compute_txid = txid_of;
  txid_to_string = txid_text;
  vsize = λ tx. 50 * length tx.input + 20 * length tx.output;
  minimal_non_dust = λ script. 330;
  sequence_max = 0xffffffff;
  sequence_enable_rbf_no_locktime = 0xfffffffd;
  from_seconds_ceil = λ seconds. some (4194304 + (seconds + 511) / 512);
  parse_address = λ text network. some (record { text = text; script_pubkey = 2 ∷ [] });
  psbt_from_str = λ text. elim (parse text) [ [] ↦ none | (name, psbt) ∷ _ ↦ some psbt ];
  psbt_to_string = λ psbt. "";
  from_unsigned_tx =
      λ tx. some (record { unsigned_tx = tx; inputs = map (λ i. blank_input) tx.input });
  update_input_with_descriptor = λ psbt index descriptor. some psbt;
  at_derivation_index = λ descriptor. some descriptor;
  descriptor_from_str = λ text. some text;
  derived_descriptor = λ descriptor. some descriptor;
  descriptor_address = λ descriptor network.
      if descriptor == "vault" then some vault_address else some controller_address;
  is_taproot = λ descriptor. true;
  iter_scripts = λ descriptor.
      if descriptor == "vault"
      then (1, 20 ∷ []) ∷ (2, 61200 ∷ 11 ∷ []) ∷ (2, 65535 ∷ 12 ∷ []) ∷ []
      else (1, 11 ∷ 172 ∷ []) ∷ (1, 12 ∷ 172 ∷ []) ∷ [];
  control_block = λ descriptor script. some [];
  leaf_hash = λ script. 12 + length script;
  push_int_script = λ n. n ∷ [];
  checksig_script = λ key. key ∷ 172 ∷ [];
  pubkey_from_str =
      λ text. if text == "phone" then some 11 else if text == "hww" then some 12 else none;
  pubkey_to_string = λ key. if key == 11 then "phone" else "hww";
  keypair_pubkey = λ keypair. keypair;
  sighash_default = 0;
  sighash_msg = λ psbt index leaf. some (index ∷ leaf ∷ []);
  sign_schnorr = λ message keypair. keypair ∷ message;
  verify_schnorr = λ signature message key. signature == key ∷ message;
  finalize_input = λ psbt index. some psbt;
  finalize = λ psbt. some psbt;
  extract = λ psbt. some psbt.unsigned_tx;
}

abbrev pub config : VaultConfig
config = record {
  version = 1;
  network = "regtest";
  phone_vault_pubkey = "phone";
  hww_vault_pubkey = "hww";
  phone_hot_external_descriptor = "external";
  phone_hot_internal_descriptor = "internal";
  vault_descriptor = "vault";
  vault_address = "vault-address";
  phone_recovery_blocks = 61200;
  hww_recovery_blocks = 65535;
  monthly_limit_sats = 100000;
  emergency_access_limit_sats = 50000;
}
