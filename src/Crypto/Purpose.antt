-- ===== src/Crypto/Purpose.antt =====
-- A blob opens with its seed and its purpose, and with no other purpose.
use anzen.Prelude.{◌≡◌, String, ok, err, arith, ◌==◌, string_eq, if◌then◌else◌}
use anzen.Bitcoin.{Bytes}
use anzen.Crypto.{Ciphers, EncryptedBlob, Opens, encrypt, decrypt, derive_key}

module _ (ciphers : Ciphers) (opens : Opens ciphers) where
  -- What is encrypted for a purpose decrypts to the same bytes with the same seed and purpose,
  -- and is refused for every other purpose.
  pub decrypt-encrypt :
      (nonce seed : Bytes) (purpose asked : String) (plaintext : Bytes) (blob : EncryptedBlob)
      → encrypt ciphers nonce seed purpose plaintext ≡ ok blob
      → decrypt ciphers seed asked blob ≡ (
          if purpose == asked
          then ok plaintext
          else err "encrypted blob purpose mismatch: expected {expected_purpose}, got {}")
  unfolding encrypt decrypt derive_key
  decrypt-encrypt nonce seed purpose asked plaintext blob h = grind (arith, opens)
