-- ===== src/Social.antt =====
-- src/core/social.rs: the cloud backup, whose key the hardware wallet and each friend can open.
pub mod Friends
pub mod Finds
pub mod Opens
pub mod Recovers
pub mod Added
use anzen.Prelude.{
  ℕ, zero, suc, String, Bool, not, ◌||◌, Option, none, some, List, [], ◌∷◌, ◌++◌, map, Result,
  panic, ok, err, ◌>>=◌, ◌>>◌, bail_if, context, ◌==◌, ◌!=◌, nat_eq, string_eq, list_eq, length,
  any, if◌then◌else◌,
}
use anzen.Bitcoin.{Bitcoin, Bytes}
use anzen.Storage.{VaultConfig, bitcoin_network}
use anzen.Keys.{Bip32, DeviceKeys, parse_for_network_at_index}
use anzen.Crypto.{Ciphers, EncryptedBlob, encrypt, decrypt}
use anzen.Social.Friends.{FriendKeyWrapper, sort_by_fingerprint, dedup_by_fingerprint, find_friend}

abbrev pub payload_purpose : String
payload_purpose = "cloud/vault-recovery-payload/v1"

abbrev pub hww_key_purpose : String
hww_key_purpose = "cloud/vault-recovery-key/hww/v1"

abbrev pub friend_manifest_purpose : String
friend_manifest_purpose = "cloud/vault-recovery-friends/v1"

pub record RecoveryPayload : Type 0 where
  pub version : ℕ
  pub kind : String
  pub network : String
  pub phone_mnemonic : String
  pub phone_vault_key_index : ℕ
  pub phone_vault_pubkey : String
  pub vault_descriptor : String
  pub vault_address : String

pub record CloudRecoveryBackup : Type 0 where
  pub version : ℕ
  pub kind : String
  pub encrypted_payload : EncryptedBlob
  pub hww_encrypted_symmetric_key : EncryptedBlob
  pub friends : List FriendKeyWrapper
  pub encrypted_friend_manifest : EncryptedBlob

-- What the source calls of pgp, base64 and serde_json. A key and a message are their bytes.
pub record Envelopes : Type 0 where
  -- `serde_json::to_vec` and `from_slice`
  pub payload_to_vec : RecoveryPayload → Option Bytes
  pub payload_from_slice : Bytes → Option RecoveryPayload
  pub friends_to_vec : List FriendKeyWrapper → Option Bytes
  -- `SignedPublicKey::from_reader_single`, `verify`, `fingerprint`, `to_armored_string`
  pub parse_public : Bytes → Option Bytes
  pub verify_public : Bytes → Bool
  pub public_fingerprint : Bytes → String
  pub public_armored : Bytes → Option String
  -- `public_subkeys` that are encryption keys, in order
  pub encryption_subkeys : Bytes → List Bytes
  -- `MessageBuilder` with `encrypt_to_key`, then `to_vec`, with the random numbers they draw
  pub encrypt_to_key : ℕ → Bytes → Bytes → Option Bytes
  pub message_to_vec : ℕ → Bytes → Option Bytes
  -- `SignedSecretKey::from_reader_single`, `verify`, `fingerprint`
  pub parse_secret : Bytes → Option Bytes
  pub verify_secret : Bytes → Bool
  pub secret_fingerprint : Bytes → String
  -- `Message::from_bytes`, `decrypt`, `is_compressed`, `decompress`, `as_data_vec`
  pub message_from_bytes : Bytes → Option Bytes
  pub decrypt_message : Bytes → Bytes → Option Bytes
  pub is_compressed : Bytes → Bool
  pub decompress : Bytes → Option Bytes
  pub as_data_vec : Bytes → Option Bytes
  -- `STANDARD.encode`, `STANDARD.decode`, `str::as_bytes`
  pub base64_encode : Bytes → String
  pub base64_decode : String → Option Bytes
  pub as_bytes : String → Bytes

-- The random bytes that `create_backup` draws.
pub record Draws : Type 0 where
  pub symmetric_key : Bytes
  pub payload_nonce : Bytes
  pub hww_nonce : Bytes
  pub manifest_nonce : Bytes
  pub friend_random : ℕ → ℕ

unfoldable pub validate_backup : CloudRecoveryBackup → Result (Unit {0})
validate_backup backup =
    bail_if (backup.version != 1 || backup.kind != "vault-cloud-recovery")
      "unsupported cloud recovery backup"

abbrev pub friend_public_keys : CloudRecoveryBackup → List String
friend_public_keys backup = map (λ friend. friend.public_key_armored) backup.friends

abbrev pub first {ℓ} : {A : Type ℓ} → List A → Option A
first [] = none
first (x ∷ xs) = some x

module _ (lib : Bitcoin) (bip : Bip32) where
  -- `RecoveryPayload::new`
  unfoldable pub payload_new : VaultConfig → DeviceKeys → Result RecoveryPayload
  payload_new config phone = do
    bail_if (lib.pubkey_to_string phone.vault_pubkey != config.phone_vault_pubkey)
        "phone key does not match the configured vault policy"
    ok (record {
      version = 1;
      kind = "vault-recovery-payload";
      network = config.network;
      phone_mnemonic = phone.mnemonic;
      phone_vault_key_index = phone.vault_key_index;
      phone_vault_pubkey = lib.pubkey_to_string phone.vault_pubkey;
      vault_descriptor = config.vault_descriptor;
      vault_address = config.vault_address;
    })

  -- `RecoveryPayload::validate_against`
  unfoldable pub validate_against : RecoveryPayload → VaultConfig → Result (Unit {0})
  validate_against payload config = do
    bail_if
        (payload.version != 1
          || (payload.kind != "vault-recovery-payload"
              || (payload.network != config.network
                  || (payload.phone_vault_pubkey != config.phone_vault_pubkey
                      || (payload.vault_descriptor != config.vault_descriptor
                          || payload.vault_address != config.vault_address)))))
        "recovery payload does not match the configured vault"
    network ← bitcoin_network config
    phone ←
        parse_for_network_at_index lib bip payload.phone_mnemonic network
          payload.phone_vault_key_index
    bail_if (lib.pubkey_to_string phone.vault_pubkey != payload.phone_vault_pubkey)
        "recovery payload mnemonic does not match its phone public key"

module _ (ciphers : Ciphers) (envelopes : Envelopes) where
  unfoldable pub friend_fingerprint : Bytes → Result String
  friend_fingerprint public_key = do
    key ←
        context (envelopes.parse_public public_key)
          "failed to parse recovery friend's OpenPGP public key"
    bail_if (not (envelopes.verify_public key))
        "recovery friend's OpenPGP public key failed self-signature validation"
    subkey ←
        context (first (envelopes.encryption_subkeys key))
          "recovery friend's OpenPGP key has no encryption-capable subkey"
    ok (envelopes.public_fingerprint key)

  unfoldable pub wrap_for_friend : ℕ → Bytes → Bytes → Result FriendKeyWrapper
  wrap_for_friend random public_key symmetric_key = do
    key ←
        context (envelopes.parse_public public_key)
          "failed to parse recovery friend's OpenPGP public key"
    bail_if (not (envelopes.verify_public key))
        "recovery friend's OpenPGP public key failed self-signature validation"
    subkey ←
        context (first (envelopes.encryption_subkeys key))
          "recovery friend's OpenPGP key has no encryption-capable subkey"
    builder ←
        context (envelopes.encrypt_to_key random symmetric_key subkey)
          "failed to wrap recovery key for friend"
    encrypted ←
        context (envelopes.message_to_vec random builder)
          "failed to serialize friend recovery key wrapper"
    armored ← context (envelopes.public_armored key) "failed to write public key"
    ok (record {
      fingerprint = envelopes.public_fingerprint key;
      public_key_armored = armored;
      encrypted_symmetric_key = envelopes.base64_encode encrypted;
    })

  unfoldable pub decrypt_payload : CloudRecoveryBackup → Bytes → Result RecoveryPayload
  decrypt_payload backup symmetric_key = do
    plaintext ← decrypt ciphers symmetric_key payload_purpose backup.encrypted_payload
    context (envelopes.payload_from_slice plaintext) "decrypted cloud recovery payload is invalid"

  unfoldable pub encrypt_friend_manifest :
      Bytes → Bytes → List FriendKeyWrapper → Result EncryptedBlob
  encrypt_friend_manifest nonce symmetric_key friends = do
    bytes ← context (envelopes.friends_to_vec friends) "failed to serialize friends"
    encrypt ciphers nonce symmetric_key friend_manifest_purpose bytes

  unfoldable pub validate_friend_manifest : CloudRecoveryBackup → Bytes → Result (Unit {0})
  validate_friend_manifest backup symmetric_key = do
    authenticated ←
        decrypt ciphers symmetric_key friend_manifest_purpose backup.encrypted_friend_manifest
    expected ← context (envelopes.friends_to_vec backup.friends) "failed to serialize friends"
    bail_if (authenticated != expected) "cloud recovery friend list failed authentication"

  -- The loop over the public keys of the friends.
  unfoldable pub wrap_friends : (ℕ → ℕ) → ℕ → List String → Bytes → Result (List FriendKeyWrapper)
  wrap_friends random index [] symmetric_key = ok []
  wrap_friends random index (public_key ∷ public_keys) symmetric_key = do
    wrapper ← wrap_for_friend (random index) (envelopes.as_bytes public_key) symmetric_key
    wrappers ← wrap_friends random (suc index) public_keys symmetric_key
    ok (wrapper ∷ wrappers)

  unfoldable pub create_backup :
      Draws → RecoveryPayload → Bytes → List String → Result CloudRecoveryBackup
  create_backup draws payload hww_seed friend_public_keys = do
    payload_bytes ← context (envelopes.payload_to_vec payload) "failed to serialize payload"
    encrypted_payload ←
        encrypt ciphers draws.payload_nonce draws.symmetric_key payload_purpose payload_bytes
    hww_encrypted_symmetric_key ←
        encrypt ciphers draws.hww_nonce hww_seed hww_key_purpose draws.symmetric_key
    wrapped ← wrap_friends draws.friend_random 0 friend_public_keys draws.symmetric_key
    let friends = dedup_by_fingerprint (sort_by_fingerprint wrapped)
    encrypted_friend_manifest ←
        encrypt_friend_manifest draws.manifest_nonce draws.symmetric_key friends
    ok (record {
      version = 1;
      kind = "vault-cloud-recovery";
      encrypted_payload = encrypted_payload;
      hww_encrypted_symmetric_key = hww_encrypted_symmetric_key;
      friends = friends;
      encrypted_friend_manifest = encrypted_friend_manifest;
    })

  -- The checks of `add_friend`, with the key and the wrapper that they yield.
  unfoldable pub wrap_new_friend :
      ℕ → CloudRecoveryBackup → Bytes → Bytes → Result (Bytes × FriendKeyWrapper)
  wrap_new_friend random backup hww_seed public_key = do
    validate_backup backup
    symmetric_key ← decrypt ciphers hww_seed hww_key_purpose backup.hww_encrypted_symmetric_key
    bail_if (length symmetric_key != 32) "cloud backup contains an invalid symmetric key"
    validate_friend_manifest backup symmetric_key
    wrapper ← wrap_for_friend random public_key symmetric_key
    bail_if (any (λ friend. friend.fingerprint == wrapper.fingerprint) backup.friends)
        "recovery friend {} is already configured"
    ok (symmetric_key, wrapper)

  -- The caller's backup after the call, beside the outcome: the friend is in it already when the
  -- manifest is encrypted.
  unfoldable pub add_friend :
      ℕ → Bytes → CloudRecoveryBackup → Bytes → Bytes → CloudRecoveryBackup × Result String
  add_friend random nonce backup hww_seed public_key =
      elim (wrap_new_friend random backup hww_seed public_key) [
        | panic ↦ (backup, panic)
        | err message ↦ (backup, err message)
        | ok (symmetric_key, wrapper) ↦
            let pushed : CloudRecoveryBackup = record backup {
              friends = sort_by_fingerprint (backup.friends ++ (wrapper ∷ []));
            } in
            elim (encrypt_friend_manifest nonce symmetric_key pushed.friends) [
              | panic ↦ (pushed, panic)
              | err message ↦ (pushed, err message)
              | ok sealed ↦
                  (record pushed { encrypted_friend_manifest = sealed }, ok wrapper.fingerprint)
            ]
      ]

  unfoldable pub decrypt_with_hww : CloudRecoveryBackup → Bytes → Result RecoveryPayload
  decrypt_with_hww backup hww_seed = do
    validate_backup backup
    symmetric_key ← decrypt ciphers hww_seed hww_key_purpose backup.hww_encrypted_symmetric_key
    validate_friend_manifest backup symmetric_key
    decrypt_payload backup symmetric_key

  -- The part of `decrypt_with_friend` that opens the friend's wrapper.
  unfoldable pub unwrap_for_friend : FriendKeyWrapper → Bytes → Result Bytes
  unwrap_for_friend wrapper secret = do
    encrypted_key ←
        context (envelopes.base64_decode wrapper.encrypted_symmetric_key)
          "friend key wrapper is not valid base64"
    parsed ←
        context (envelopes.message_from_bytes encrypted_key)
          "friend key wrapper is not a valid OpenPGP message"
    message ←
        context (envelopes.decrypt_message parsed secret)
          "friend OpenPGP key could not decrypt the recovery key"
    plain ←
        if envelopes.is_compressed message
        then context (envelopes.decompress message)
            "failed to decompress friend recovery key message"
        else ok message
    symmetric_key ←
        context (envelopes.as_data_vec plain) "friend recovery key message contained no data"
    bail_if (length symmetric_key != 32) "friend recovery wrapper contains an invalid symmetric key"
    ok symmetric_key

  unfoldable pub decrypt_with_friend : CloudRecoveryBackup → Bytes → Result RecoveryPayload
  decrypt_with_friend backup private_key = do
    validate_backup backup
    secret ←
        context (envelopes.parse_secret private_key)
          "failed to parse recovery friend's OpenPGP private key"
    bail_if (not (envelopes.verify_secret secret))
        "recovery friend's OpenPGP private key failed self-signature validation"
    wrapper ←
        context (find_friend (envelopes.secret_fingerprint secret) backup.friends)
          "cloud backup has no wrapper for friend {fingerprint}"
    symmetric_key ← unwrap_for_friend wrapper secret
    validate_friend_manifest backup symmetric_key
    decrypt_payload backup symmetric_key
