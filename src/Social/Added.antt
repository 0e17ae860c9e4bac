-- ===== src/Social/Added.antt =====
-- A friend who is added opens the backup; nobody else loses it.
use anzen.Prelude.{
  ℕ, ◌≡◌, ◌≢◌, String, true, false, some, List, [], ◌∷◌, ◌++◌, ok, >>=-eq-ok, bail_if, ◌!=◌, arith,
  refl, any, length, ◌==◌, nat_eq, string_eq, list_eq,
}
use anzen.Bitcoin.{Bytes}
use anzen.Crypto.{Ciphers, EncryptedBlob, Opens, decrypt}
use anzen.Social.Friends.{FriendKeyWrapper, sort_by_fingerprint, find_friend}
use anzen.Social.Finds.{find_friend-sort_by_fingerprint, find_friend-append, find_friend-keeps}
use anzen.Social.{
  CloudRecoveryBackup, Envelopes, hww_key_purpose, validate_backup, wrap_for_friend,
  decrypt_payload, encrypt_friend_manifest, validate_friend_manifest, add_friend, wrap_new_friend,
  decrypt_with_hww, decrypt_with_friend,
}
use anzen.Social.Opens.{Pairs, Decodes, unwrap-wrap, manifest-opens}

module _ (ciphers : Ciphers) (opens : Opens ciphers) (envelopes : Envelopes) where
  -- What a successful `add_friend` has done.
  record Added (random : ℕ) (nonce : Bytes) (backup : CloudRecoveryBackup)
      (hww_seed public_key : Bytes) (added : CloudRecoveryBackup) (fingerprint : String)
      : Type 0 where
    symmetric_key : Bytes
    valid : validate_backup backup ≡ ok tt
    unsealed :
        decrypt ciphers hww_seed hww_key_purpose backup.hww_encrypted_symmetric_key
        ≡ ok symmetric_key
    long : length symmetric_key ≡ 32
    authentic : validate_friend_manifest ciphers envelopes backup symmetric_key ≡ ok tt
    wrapper : FriendKeyWrapper
    wraps : wrap_for_friend ciphers envelopes random public_key symmetric_key ≡ ok wrapper
    fresh : any (λ friend. friend.fingerprint == wrapper.fingerprint) backup.friends ≡ false
    named : wrapper.fingerprint ≡ fingerprint
    sealed : EncryptedBlob
    manifest_sealed :
        encrypt_friend_manifest ciphers envelopes nonce symmetric_key
          (sort_by_fingerprint (backup.friends ++ (wrapper ∷ [])))
        ≡ ok sealed
    changed : added ≡ record backup {
      friends = sort_by_fingerprint (backup.friends ++ (wrapper ∷ []));
      encrypted_friend_manifest = sealed;
    }

  -- The parts of an outcome that is a success: the manifest is encrypted after the checks.
  add_friend-ok :
      (random : ℕ) (nonce : Bytes) (backup : CloudRecoveryBackup) (hww_seed public_key : Bytes)
      (added : CloudRecoveryBackup) (fingerprint : String)
      → add_friend ciphers envelopes random nonce backup hww_seed public_key
        ≡ (added, ok fingerprint)
      → (made : Bytes × FriendKeyWrapper) × (wrap_new_friend ciphers envelopes random backup
            hww_seed public_key
          ≡ ok made)
        × (sealed : EncryptedBlob) × (encrypt_friend_manifest ciphers envelopes nonce made.0
              (sort_by_fingerprint (backup.friends ++ (made.1 ∷ [])))
            ≡ ok sealed)
        × (made.1.fingerprint ≡ fingerprint)
        × (added ≡ record backup {
          friends = sort_by_fingerprint (backup.friends ++ (made.1 ∷ []));
          encrypted_friend_manifest = sealed;
        })
  unfolding add_friend
  add_friend-ok random nonce backup hww_seed public_key added fingerprint h = ground arith

  add_friend-Added :
      (random : ℕ) (nonce : Bytes) (backup : CloudRecoveryBackup) (hww_seed public_key : Bytes)
      (added : CloudRecoveryBackup) (fingerprint : String)
      → add_friend ciphers envelopes random nonce backup hww_seed public_key
        ≡ (added, ok fingerprint)
      → Added random nonce backup hww_seed public_key added fingerprint
  unfolding wrap_new_friend
  add_friend-Added random nonce backup hww_seed public_key added fingerprint h =
      let ((symmetric_key, wrapper), checks, sealed, manifest_sealed, named, changed) =
        add_friend-ok random nonce backup hww_seed public_key added fingerprint h in
      let (passed, valid, h1) = >>=-eq-ok (validate_backup backup) _ checks in
      let (key, unsealed, h2) =
        >>=-eq-ok (decrypt ciphers hww_seed hww_key_purpose backup.hww_encrypted_symmetric_key) _
          h1 in
      let (sized, long, h3) =
        >>=-eq-ok (bail_if (length key != 32) "cloud backup contains an invalid symmetric key") _
          h2 in
      let (checked, authentic, h4) =
        >>=-eq-ok (validate_friend_manifest ciphers envelopes backup key) _ h3 in
      let (made, wraps, h5) =
        >>=-eq-ok (wrap_for_friend ciphers envelopes random public_key key) _ h4 in
      let same_key : key ≡ symmetric_key = ground arith in
      let same_wrapper : made ≡ wrapper = ground arith in
      record {
        symmetric_key = symmetric_key;
        valid = valid;
        unsealed = cc;
        long = ground arith;
        authentic = ground arith;
        wrapper = wrapper;
        wraps = cc;
        fresh = ground arith;
        named = named;
        sealed = sealed;
        manifest_sealed = manifest_sealed;
        changed = changed;
      }

  validate_backup-added :
      (backup : CloudRecoveryBackup) (friends : List FriendKeyWrapper) (sealed : EncryptedBlob)
      → validate_backup (record backup { friends = friends; encrypted_friend_manifest = sealed })
        ≡ validate_backup backup
  unfolding validate_backup
  validate_backup-added backup friends sealed = refl

  -- A friend who is added, with a private key that pairs with the public key, opens the new backup to
  -- what the hardware wallet opens the old one to.
  pub decrypt_with_friend-add_friend :
      (random : ℕ) (nonce : Bytes) (backup : CloudRecoveryBackup) (hww_seed public_key : Bytes)
      (added : CloudRecoveryBackup) (fingerprint : String) (private_key secret : Bytes)
      → Pairs envelopes secret public_key
      → Decodes envelopes
      → add_friend ciphers envelopes random nonce backup hww_seed public_key
        ≡ (added, ok fingerprint)
      → envelopes.parse_secret private_key ≡ some secret
      → envelopes.verify_secret secret ≡ true
      → envelopes.secret_fingerprint secret ≡ fingerprint
      → decrypt_with_friend ciphers envelopes added private_key
        ≡ decrypt_with_hww ciphers envelopes backup hww_seed
  unfolding decrypt_with_friend decrypt_with_hww decrypt_payload
  decrypt_with_friend-add_friend random nonce backup hww_seed public_key added fingerprint
        private_key secret pairs decodes h parsed verified same =
      let done = add_friend-Added random nonce backup hww_seed public_key added fingerprint h in
      let changed = done.changed in
      let named = done.named in
      let valid = done.valid in
      let unsealed = done.unsealed in
      let authentic = done.authentic in
      let reauthentic =
        manifest-opens ciphers opens envelopes nonce done.symmetric_key added (ground arith) in
      let sorted =
        find_friend-sort_by_fingerprint done.wrapper.fingerprint
          (backup.friends ++ (done.wrapper ∷ [])) in
      let found = find_friend-append done.wrapper backup.friends done.fresh in
      let key =
        unwrap-wrap ciphers opens envelopes secret decodes random public_key done.symmetric_key
          done.wrapper pairs done.long done.wraps (cc) in
      let still =
        validate_backup-added backup (sort_by_fingerprint (backup.friends ++ (done.wrapper ∷ [])))
          done.sealed in
      grind arith

  -- Adding a friend leaves what the hardware wallet opens, and the wrapper of every other friend.
  pub add_friend-keeps :
      (random : ℕ) (nonce : Bytes) (backup : CloudRecoveryBackup) (hww_seed public_key : Bytes)
      (added : CloudRecoveryBackup) (fingerprint : String)
      → add_friend ciphers envelopes random nonce backup hww_seed public_key
        ≡ (added, ok fingerprint)
      → (decrypt_with_hww ciphers envelopes added hww_seed
          ≡ decrypt_with_hww ciphers envelopes backup hww_seed)
        × ((other : String)
            → fingerprint ≢ other
            → find_friend other added.friends ≡ find_friend other backup.friends)
  unfolding decrypt_with_hww decrypt_payload
  add_friend-keeps random nonce backup hww_seed public_key added fingerprint h =
      let done = add_friend-Added random nonce backup hww_seed public_key added fingerprint h in
      let changed = done.changed in
      let valid = done.valid in
      let unsealed = done.unsealed in
      let authentic = done.authentic in
      let still =
        validate_backup-added backup (sort_by_fingerprint (backup.friends ++ (done.wrapper ∷ [])))
          done.sealed in
      let reauthentic =
        manifest-opens ciphers opens envelopes nonce done.symmetric_key added (ground arith) in
      (
        grind arith,
        λ other differ.
            let sorted =
              find_friend-sort_by_fingerprint other (backup.friends ++ (done.wrapper ∷ [])) in
            let kept = find_friend-keeps other done.wrapper backup.friends in
            let named = done.named in grind arith,
      )
