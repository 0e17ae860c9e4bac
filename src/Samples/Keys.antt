-- ===== src/Samples/Keys.antt =====
-- The keys of a phone, derived by numbers.
use anzen.Prelude.{◌+◌, ◌≡◌, refl, some, [], ◌∷◌, Result, ok, string_eq, nat_eq}
use anzen.Bitcoin.{regtest}
use anzen.Keys.{
  Bip32, DeviceKeys, coin_type, derive_vault_key_from_parent, from_mnemonic,
  generate_for_network_at_index,
}
use anzen.Samples.Batch.{toy}

abbrev pub bip : Bip32
bip = record {
  parse_mnemonic = λ words. some words;
  mnemonic_from_entropy = λ entropy. some "words";
  to_seed = λ mnemonic. 4 ∷ [];
  new_master = λ network seed. some 5;
  derive_path = λ xpriv path. some (xpriv + 3);
  derive_child = λ xpriv index. some (xpriv + index);
  keypair_of = λ xpriv. xpriv;
  fingerprint = λ xpriv. "fingerprint";
  xpriv_text = λ xpriv. "xpriv";
  xpub_text = λ xpriv. "xpub";
}

abbrev pub phone : DeviceKeys
phone = record {
  network = regtest;
  mnemonic = "words";
  vault_key_index = 3;
  seed = 4 ∷ [];
  master_xpriv = 5;
  vault_xpriv = 11;
  vault_keypair = 11;
  vault_pubkey = 11;
}

-- Every function that the proofs below run.
unfoldable pub run_keys : Result DeviceKeys
unfolding coin_type derive_vault_key_from_parent from_mnemonic generate_for_network_at_index
run_keys = generate_for_network_at_index toy bip [] regtest 3

pub generated : generate_for_network_at_index toy bip [] regtest 3 ≡ ok phone
unfolding run_keys
generated = refl

pub derived : from_mnemonic toy bip "words" regtest 3 ≡ ok phone
unfolding run_keys
derived = refl
