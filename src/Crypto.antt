-- ===== src/Crypto.antt =====
-- src/core/crypto.rs: encryption bound to a purpose.
pub mod Purpose
use anzen.Prelude.{
  ℕ, ◌≡◌, String, Option, Result, ok, ◌>>=◌, ◌>>◌, bail_if, context, ◌!=◌, nat_eq, string_eq,
}
use anzen.Bitcoin.{Bytes}

-- What the source calls of hkdf and chacha20poly1305. `none` is a failure of the call.
pub record Ciphers : Type 0 where
  -- `Hkdf::<Sha256>::new(Some(b"renewable-bitcoin-vault/mvp/v1"), seed)`, `.expand` to 32 bytes
  pub hkdf : Bytes → String → Option Bytes
  -- `XChaCha20Poly1305::new(key)`, `.encrypt(nonce, ..)` and `.decrypt(nonce, ..)`
  pub seal : Bytes → Bytes → Bytes → Option Bytes
  pub unseal : Bytes → Bytes → Bytes → Option Bytes

pub record EncryptedBlob : Type 0 where
  pub version : ℕ
  pub purpose : String
  pub nonce : Bytes
  pub ciphertext : Bytes

abbrev pub format_version : ℕ
format_version = 1

module _ (ciphers : Ciphers) where
  unfoldable pub derive_key : Bytes → String → Result Bytes
  derive_key seed purpose = context (ciphers.hkdf seed purpose) "invalid HKDF output length"

  -- The nonce is the random bytes that the source draws.
  unfoldable pub encrypt : Bytes → Bytes → String → Bytes → Result EncryptedBlob
  encrypt nonce seed purpose plaintext = do
    key ← derive_key seed purpose
    ciphertext ← context (ciphers.seal key nonce plaintext) "encryption failed"
    ok (record {
      version = format_version;
      purpose = purpose;
      nonce = nonce;
      ciphertext = ciphertext;
    })

  unfoldable pub decrypt : Bytes → String → EncryptedBlob → Result Bytes
  decrypt seed expected_purpose blob = do
    bail_if (blob.version != format_version) "unsupported encrypted blob version {}"
    bail_if (blob.purpose != expected_purpose)
        "encrypted blob purpose mismatch: expected {expected_purpose}, got {}"
    key ← derive_key seed expected_purpose
    context (ciphers.unseal key blob.nonce blob.ciphertext) "unable to decrypt encrypted blob"

-- What the authenticated cipher promises of its two functions.
abbrev pub Opens : Ciphers → Type 0
Opens ciphers =
    (key nonce plaintext ciphertext : Bytes)
    → ciphers.seal key nonce plaintext ≡ Option.some ciphertext
    → ciphers.unseal key nonce ciphertext ≡ Option.some plaintext
