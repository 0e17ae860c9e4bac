-- ===== src/Samples/Backup.antt =====
-- A backup for the hardware wallet and one friend, to which a second friend is added.

use anzen.Prelude.{
  ℕ, ◌≡◌, refl, String, true, false, none, some, [], ◌∷◌, Result, ok, ◌==◌, nat_eq, string_eq,
  list_eq, if◌then◌else◌, replicate, length, arith,
}
use anzen.Bitcoin.{Bytes}
use anzen.Samples.Unary.{encode, decode_from, encode-decodes}
use anzen.Crypto.{Ciphers, EncryptedBlob, Opens, encrypt, decrypt, derive_key}
use anzen.Social.Friends.{
  FriendKeyWrapper, insert_friend, sort_by_fingerprint, dedup_after, dedup_by_fingerprint,
  find_friend,
}
use anzen.Social.Opens.{OpensMessages, Decodes}
use anzen.Social.{
  RecoveryPayload, CloudRecoveryBackup, Envelopes, Draws, create_backup, add_friend,
  wrap_new_friend, wrap_friends, wrap_for_friend, encrypt_friend_manifest, validate_backup,
  validate_friend_manifest,
}

-- A ciphertext starts with the length of its key.
abbrev pub ciphers : Ciphers
ciphers = record {
  hkdf = λ seed purpose. some seed;
  seal = λ key nonce plaintext. some (length key ∷ plaintext);
  unseal = λ key nonce ciphertext. elim ciphertext [
    | [] ↦ none
    | n ∷ plaintext ↦ if n == length key then some plaintext else none
  ];
}

pub ciphers-Opens : Opens ciphers
ciphers-Opens key nonce plaintext ciphertext sealed = ground arith

abbrev pub payload : RecoveryPayload
payload = record {
  version = 1;
  kind = "vault-recovery-payload";
  network = "regtest";
  phone_mnemonic = "words";
  phone_vault_key_index = 3;
  phone_vault_pubkey = "phone";
  vault_descriptor = "vault";
  vault_address = "vault-address";
}

abbrev fingerprint_of : Bytes → String
fingerprint_of key = if length key == 1 then "b" else "a"

-- A friend's public and private key are the same bytes.
abbrev pub envelopes : Envelopes
envelopes = record {
  payload_to_vec = λ payload. some (payload.phone_vault_key_index ∷ []);
  payload_from_slice = λ bytes. if bytes == 3 ∷ [] then some payload else none;
  friends_to_vec = λ friends. some (length friends ∷ []);
  parse_public = λ bytes. some bytes;
  verify_public = λ key. true;
  public_fingerprint = fingerprint_of;
  public_armored = λ key. some "key";
  encryption_subkeys = λ key. (0 ∷ key) ∷ [];
  encrypt_to_key = λ random plaintext subkey. some plaintext;
  message_to_vec = λ random builder. some (random ∷ builder);
  parse_secret = λ bytes. some bytes;
  verify_secret = λ secret. true;
  secret_fingerprint = fingerprint_of;
  message_from_bytes = λ bytes. elim bytes [ [] ↦ none | n ∷ message ↦ some message ];
  decrypt_message = λ message secret. some message;
  is_compressed = λ message. false;
  decompress = λ message. none;
  as_data_vec = λ message. some message;
  base64_encode = encode;
  base64_decode = decode_from 0;
  as_bytes = λ text. if text == "first" then 1 ∷ [] else 1 ∷ 2 ∷ [];
}

pub envelopes-Decodes : Decodes envelopes
envelopes-Decodes = encode-decodes

pub envelopes-OpensMessages : (secret key : Bytes) → OpensMessages envelopes secret key
envelopes-OpensMessages secret key random subkey plaintext builder encrypted listed built written =
    (plaintext, plaintext, ground arith, refl, refl, refl)

pub payload-reads :
    (bytes : Bytes)
    → envelopes.payload_to_vec payload ≡ some bytes
    → envelopes.payload_from_slice bytes ≡ some payload
payload-reads bytes written = grind arith

abbrev pub draws : Draws
draws = record {
  symmetric_key = replicate 32 7;
  payload_nonce = 1 ∷ [];
  hww_nonce = 2 ∷ [];
  manifest_nonce = 3 ∷ [];
  friend_random = λ index. index;
}

abbrev pub hww_seed : Bytes
hww_seed = 4 ∷ 4 ∷ []

abbrev pub wrapper_of : String → ℕ → FriendKeyWrapper
wrapper_of name random = record {
  fingerprint = name;
  public_key_armored = "key";
  encrypted_symmetric_key = encode (random ∷ replicate 32 7);
}

abbrev pub backup : CloudRecoveryBackup
backup = record {
  version = 1;
  kind = "vault-cloud-recovery";
  encrypted_payload = record {
    version = 1;
    purpose = "cloud/vault-recovery-payload/v1";
    nonce = 1 ∷ [];
    ciphertext = 32 ∷ 3 ∷ [];
  };
  hww_encrypted_symmetric_key = record {
    version = 1;
    purpose = "cloud/vault-recovery-key/hww/v1";
    nonce = 2 ∷ [];
    ciphertext = 2 ∷ replicate 32 7;
  };
  friends = wrapper_of "b" 0 ∷ [];
  encrypted_friend_manifest = record {
    version = 1;
    purpose = "cloud/vault-recovery-friends/v1";
    nonce = 3 ∷ [];
    ciphertext = 32 ∷ 1 ∷ [];
  };
}

abbrev pub added : CloudRecoveryBackup
added = record backup {
  friends = wrapper_of "a" 5 ∷ wrapper_of "b" 0 ∷ [];
  encrypted_friend_manifest = record {
    version = 1;
    purpose = "cloud/vault-recovery-friends/v1";
    nonce = 6 ∷ [];
    ciphertext = 32 ∷ 2 ∷ [];
  };
}

-- Every function that the proofs below run.
run_backup : Result CloudRecoveryBackup
unfolding derive_key encrypt decrypt insert_friend sort_by_fingerprint dedup_after
    dedup_by_fingerprint find_friend create_backup add_friend wrap_new_friend wrap_friends
    wrap_for_friend encrypt_friend_manifest validate_backup validate_friend_manifest nat_eq
    string_eq list_eq
run_backup = create_backup ciphers envelopes draws payload hww_seed ("first" ∷ [])

pub created : create_backup ciphers envelopes draws payload hww_seed ("first" ∷ []) ≡ ok backup
unfolding run_backup
created = refl

pub extended :
    add_friend ciphers envelopes 5 (6 ∷ []) backup hww_seed (1 ∷ 2 ∷ []) ≡ (added, ok "a")
unfolding run_backup
extended = refl

pub listed :
    find_friend (envelopes.secret_fingerprint (1 ∷ [])) backup.friends ≡ some (wrapper_of "b" 0)
unfolding run_backup
listed = refl

pub named : envelopes.secret_fingerprint (1 ∷ 2 ∷ []) ≡ "a"
unfolding run_backup
named = refl

abbrev pub purpose : String
purpose = "purpose"

abbrev pub other_purpose : String
other_purpose = "other"

abbrev pub note : EncryptedBlob
note = record { version = 1; purpose = "purpose"; nonce = 2 ∷ []; ciphertext = 2 ∷ 9 ∷ [] }

pub sealed : encrypt ciphers (2 ∷ []) hww_seed "purpose" (9 ∷ []) ≡ ok note
unfolding run_backup
sealed = refl
