-- ===== src/Social/Opens.antt =====
-- What is sealed for the hardware wallet or wrapped for a friend opens to what was put in.
use anzen.Prelude.{
  ℕ, suc, ◌≡◌, String, false, Option, some, List, [], ◌∷◌, ok, >>=-eq-ok, context, arith, length,
  All, nat_eq, string_eq, list_eq,
}
use anzen.Bitcoin.{Bytes}
use anzen.Crypto.{Ciphers, EncryptedBlob, Opens, encrypt, decrypt}
use anzen.Crypto.Purpose.{decrypt-encrypt}
use anzen.Social.Friends.{FriendKeyWrapper, find_friend}
use anzen.Social.{
  CloudRecoveryBackup, Envelopes, friend_manifest_purpose, first, wrap_for_friend, wrap_friends,
  encrypt_friend_manifest, validate_friend_manifest, unwrap_for_friend,
}

-- What OpenPGP promises of a secret key and the public key that was made with it: the secret key
-- decrypts what is encrypted to the public key's first encryption subkey.
abbrev pub OpensMessages : Envelopes → Bytes → Bytes → Type 0
OpensMessages envelopes secret key =
    (random : ℕ) (subkey plaintext builder encrypted : Bytes)
    → first (envelopes.encryption_subkeys key) ≡ Option.some subkey
    → envelopes.encrypt_to_key random plaintext subkey ≡ Option.some builder
    → envelopes.message_to_vec random builder ≡ Option.some encrypted
    → (parsed message : Bytes) × (envelopes.message_from_bytes encrypted ≡ Option.some parsed)
      × (envelopes.decrypt_message parsed secret ≡ Option.some message)
      × (envelopes.is_compressed message ≡ false)
      × (envelopes.as_data_vec message ≡ Option.some plaintext)

-- If the public key has the fingerprint of the secret key, it is the one that was made with it, with
-- the same subkeys.
abbrev pub Pairs : Envelopes → Bytes → Bytes → Type 0
Pairs envelopes secret public_key =
    (key : Bytes)
    → envelopes.parse_public public_key ≡ Option.some key
    → envelopes.public_fingerprint key ≡ envelopes.secret_fingerprint secret
    → OpensMessages envelopes secret key

-- What base64 promises of its text.
abbrev pub Decodes : Envelopes → Type 0
Decodes envelopes =
    (bytes : Bytes) → envelopes.base64_decode (envelopes.base64_encode bytes) ≡ Option.some bytes

module _ (ciphers : Ciphers) (opens : Opens ciphers) (envelopes : Envelopes) where
  pub decrypt-same :
      (nonce seed : Bytes) (purpose : String) (plaintext : Bytes) (blob : EncryptedBlob)
      → encrypt ciphers nonce seed purpose plaintext ≡ ok blob
      → decrypt ciphers seed purpose blob ≡ ok plaintext
  decrypt-same nonce seed purpose plaintext blob sealed =
      let opened = decrypt-encrypt ciphers opens nonce seed purpose purpose plaintext blob sealed in
      grind arith

  pub manifest-opens :
      (nonce symmetric_key : Bytes) (backup : CloudRecoveryBackup)
      → encrypt_friend_manifest ciphers envelopes nonce symmetric_key backup.friends
        ≡ ok backup.encrypted_friend_manifest
      → validate_friend_manifest ciphers envelopes backup symmetric_key ≡ ok tt
  unfolding encrypt_friend_manifest validate_friend_manifest
  manifest-opens nonce symmetric_key backup sealed =
      let (bytes, serialized, h) =
        >>=-eq-ok (context (envelopes.friends_to_vec backup.friends) "failed to serialize friends")
          _ sealed in
      let opened =
        decrypt-same nonce symmetric_key friend_manifest_purpose bytes
          backup.encrypted_friend_manifest h in
      grind arith

  module _ (secret : Bytes) (decodes : Decodes envelopes) where
    pub unwrap-wrap :
        (random : ℕ) (public_key symmetric_key : Bytes) (wrapper : FriendKeyWrapper)
        → Pairs envelopes secret public_key
        → length symmetric_key ≡ 32
        → wrap_for_friend ciphers envelopes random public_key symmetric_key ≡ ok wrapper
        → wrapper.fingerprint ≡ envelopes.secret_fingerprint secret
        → unwrap_for_friend ciphers envelopes wrapper secret ≡ ok symmetric_key
    unfolding wrap_for_friend unwrap_for_friend
    unwrap-wrap random public_key symmetric_key wrapper pairs long wrapped same =
        grind (arith, pairs, decodes)

    pub wrap_friends-unwraps :
        (random : ℕ → ℕ) (index : ℕ) (public_keys : List String) (symmetric_key : Bytes)
        (wrappers : List FriendKeyWrapper) (wrapper : FriendKeyWrapper)
        → All (λ text. Pairs envelopes secret (envelopes.as_bytes text)) public_keys
        → length symmetric_key ≡ 32
        → wrap_friends ciphers envelopes random index public_keys symmetric_key ≡ ok wrappers
        → find_friend (envelopes.secret_fingerprint secret) wrappers ≡ some wrapper
        → unwrap_for_friend ciphers envelopes wrapper secret ≡ ok symmetric_key
    unfolding wrap_friends find_friend
    wrap_friends-unwraps random index [] symmetric_key wrappers wrapper pairs long wrapped found =
        grind arith
    wrap_friends-unwraps random index (public_key ∷ public_keys) symmetric_key wrappers wrapper
          (pair, pairs) long wrapped found =
        let (w, first_wrapped, h1) =
          >>=-eq-ok
            (wrap_for_friend ciphers envelopes (random index) (envelopes.as_bytes public_key)
              symmetric_key)
            _ wrapped in
        let (ws, rest_wrapped, h2) =
          >>=-eq-ok (wrap_friends ciphers envelopes random (suc index) public_keys symmetric_key) _
            h1 in
        let rest =
          wrap_friends-unwraps random (suc index) public_keys symmetric_key ws wrapper pairs long
            rest_wrapped in
        let now =
          unwrap-wrap (random index) (envelopes.as_bytes public_key) symmetric_key w pair long
            first_wrapped in
        grind arith
