-- ===== src/Social/Recovers.antt =====
-- The hardware wallet and every friend open the backup that names them.
use anzen.Prelude.{
  ◌≡◌, String, true, some, List, ok, >>=-eq-ok, context, arith, length, All, nat_eq, string_eq,
  list_eq,
}
use anzen.Bitcoin.{Bytes}
use anzen.Crypto.{Ciphers, Opens, encrypt}
use anzen.Social.Friends.{FriendKeyWrapper, sort_by_fingerprint, dedup_by_fingerprint, find_friend}
use anzen.Social.Finds.{find_friend-sort_by_fingerprint, find_friend-dedup_by_fingerprint}
use anzen.Social.{
  RecoveryPayload, CloudRecoveryBackup, Envelopes, Draws, payload_purpose, hww_key_purpose,
  validate_backup, wrap_friends, decrypt_payload, encrypt_friend_manifest, create_backup,
  decrypt_with_hww, decrypt_with_friend,
}
use anzen.Social.Opens.{Pairs, Decodes, decrypt-same, wrap_friends-unwraps, manifest-opens}

module _ (ciphers : Ciphers) (opens : Opens ciphers) (envelopes : Envelopes) where
  validate_backup-eq-ok :
      (backup : CloudRecoveryBackup)
      → backup.version ≡ 1
      → backup.kind ≡ "vault-cloud-recovery"
      → validate_backup backup ≡ ok tt
  unfolding validate_backup
  validate_backup-eq-ok backup first_version cloud = grind arith

  -- What a successful `create_backup` has done.
  record Created (draws : Draws) (payload : RecoveryPayload) (hww_seed : Bytes)
      (public_keys : List String) (backup : CloudRecoveryBackup) : Type 0 where
    payload_bytes : Bytes
    serialized : envelopes.payload_to_vec payload ≡ some payload_bytes
    payload_sealed :
        encrypt ciphers draws.payload_nonce draws.symmetric_key payload_purpose payload_bytes
        ≡ ok backup.encrypted_payload
    key_sealed :
        encrypt ciphers draws.hww_nonce hww_seed hww_key_purpose draws.symmetric_key
        ≡ ok backup.hww_encrypted_symmetric_key
    wrapped : List FriendKeyWrapper
    wraps :
        wrap_friends ciphers envelopes draws.friend_random 0 public_keys draws.symmetric_key
        ≡ ok wrapped
    listed : backup.friends ≡ dedup_by_fingerprint (sort_by_fingerprint wrapped)
    manifest_sealed :
        encrypt_friend_manifest ciphers envelopes draws.manifest_nonce draws.symmetric_key
          backup.friends
        ≡ ok backup.encrypted_friend_manifest
    valid : validate_backup backup ≡ ok tt

  create_backup-Created :
      (draws : Draws) (payload : RecoveryPayload) (hww_seed : Bytes) (public_keys : List String)
      (backup : CloudRecoveryBackup)
      → create_backup ciphers envelopes draws payload hww_seed public_keys ≡ ok backup
      → Created draws payload hww_seed public_keys backup
  unfolding create_backup
  create_backup-Created draws payload hww_seed public_keys backup h =
      let (bytes, serialized, h1) =
        >>=-eq-ok (context (envelopes.payload_to_vec payload) "failed to serialize payload") _ h in
      let (sealed, payload_sealed, h2) =
        >>=-eq-ok (encrypt ciphers draws.payload_nonce draws.symmetric_key payload_purpose bytes) _
          h1 in
      let (key, key_sealed, h3) =
        >>=-eq-ok (encrypt ciphers draws.hww_nonce hww_seed hww_key_purpose draws.symmetric_key) _
          h2 in
      let (wrapped, wraps, h4) =
        >>=-eq-ok
          (wrap_friends ciphers envelopes draws.friend_random 0 public_keys draws.symmetric_key) _
          h3 in
      let (manifest, manifest_sealed, h5) =
        >>=-eq-ok
          (encrypt_friend_manifest ciphers envelopes draws.manifest_nonce draws.symmetric_key
            (dedup_by_fingerprint (sort_by_fingerprint wrapped)))
          _ h4 in
      record {
        payload_bytes = bytes;
        serialized = ground arith;
        payload_sealed = grind arith;
        key_sealed = grind arith;
        wrapped = wrapped;
        wraps = wraps;
        listed = grind arith;
        manifest_sealed = grind arith;
        valid = validate_backup-eq-ok backup (ground arith) (ground arith);
      }

  -- The seed of the hardware wallet, with which a backup is made, opens it to its payload.
  pub decrypt_with_hww-create_backup :
      (draws : Draws) (payload : RecoveryPayload) (hww_seed : Bytes) (public_keys : List String)
      (backup : CloudRecoveryBackup)
      → ((bytes : Bytes)
          → envelopes.payload_to_vec payload ≡ some bytes
          → envelopes.payload_from_slice bytes ≡ some payload)
      → create_backup ciphers envelopes draws payload hww_seed public_keys ≡ ok backup
      → decrypt_with_hww ciphers envelopes backup hww_seed ≡ ok payload
  unfolding decrypt_with_hww decrypt_payload
  decrypt_with_hww-create_backup draws payload hww_seed public_keys backup reads h =
      let made = create_backup-Created draws payload hww_seed public_keys backup h in
      let valid = made.valid in
      let authentic =
        manifest-opens ciphers opens envelopes draws.manifest_nonce draws.symmetric_key backup
          made.manifest_sealed in
      let key =
        decrypt-same ciphers opens envelopes draws.hww_nonce hww_seed hww_key_purpose
          draws.symmetric_key backup.hww_encrypted_symmetric_key made.key_sealed in
      let bytes =
        decrypt-same ciphers opens envelopes draws.payload_nonce draws.symmetric_key payload_purpose
          made.payload_bytes backup.encrypted_payload made.payload_sealed in
      let back = reads made.payload_bytes made.serialized in rw (valid, key, authentic, bytes, back)

  -- Each friend who is listed opens the backup to the payload, with a private key of the listed
  -- fingerprint that pairs with the given public key of that fingerprint.
  pub decrypt_with_friend-create_backup :
      (draws : Draws) (payload : RecoveryPayload) (hww_seed : Bytes) (public_keys : List String)
      (backup : CloudRecoveryBackup) (private_key secret : Bytes) (wrapper : FriendKeyWrapper)
      → ((bytes : Bytes)
          → envelopes.payload_to_vec payload ≡ some bytes
          → envelopes.payload_from_slice bytes ≡ some payload)
      → All (λ text. Pairs envelopes secret (envelopes.as_bytes text)) public_keys
      → Decodes envelopes
      → length draws.symmetric_key ≡ 32
      → create_backup ciphers envelopes draws payload hww_seed public_keys ≡ ok backup
      → envelopes.parse_secret private_key ≡ some secret
      → envelopes.verify_secret secret ≡ true
      → find_friend (envelopes.secret_fingerprint secret) backup.friends ≡ some wrapper
      → decrypt_with_friend ciphers envelopes backup private_key ≡ ok payload
  unfolding decrypt_with_friend decrypt_payload
  decrypt_with_friend-create_backup draws payload hww_seed public_keys backup private_key secret
        wrapper reads pairs decodes long h parsed verified found =
      let made = create_backup-Created draws payload hww_seed public_keys backup h in
      let valid = made.valid in
      let authentic =
        manifest-opens ciphers opens envelopes draws.manifest_nonce draws.symmetric_key backup
          made.manifest_sealed in
      let listed = made.listed in
      let deduped =
        find_friend-dedup_by_fingerprint (envelopes.secret_fingerprint secret)
          (sort_by_fingerprint made.wrapped) in
      let sorted =
        find_friend-sort_by_fingerprint (envelopes.secret_fingerprint secret) made.wrapped in
      let key =
        wrap_friends-unwraps ciphers opens envelopes secret decodes draws.friend_random 0
          public_keys draws.symmetric_key made.wrapped wrapper pairs long made.wraps (cc) in
      let bytes =
        decrypt-same ciphers opens envelopes draws.payload_nonce draws.symmetric_key payload_purpose
          made.payload_bytes backup.encrypted_payload made.payload_sealed in
      let back = reads made.payload_bytes made.serialized in grind arith
