-- ===== src/Tests/Backup.antt =====
-- The theorems on keys, encryption and backups at concrete inputs.
use anzen.Prelude.{◌≡◌, ◌≢◌, String, refl, [], ◌∷◌, ok, err, ◌==◌, string_eq, if◌then◌else◌}
use anzen.Bitcoin.{regtest}
use anzen.Keys.{from_mnemonic, with_vault_key_index, parse_for_network_at_index}
use anzen.Keys.Rederive.{with_vault_key_index-from_mnemonic, generate-parse}
use anzen.Crypto.{decrypt}
use anzen.Crypto.Purpose.{decrypt-encrypt}
use anzen.Social.{decrypt_with_hww, decrypt_with_friend}
use anzen.Social.Friends.{find_friend}
use anzen.Social.Recovers.{decrypt_with_hww-create_backup, decrypt_with_friend-create_backup}
use anzen.Social.Added.{decrypt_with_friend-add_friend, add_friend-keeps}
use anzen.Samples.Batch.{toy}
use anzen.Samples.Keys.{bip, phone, generated, derived}
use anzen.Samples.Backup.{
  ciphers, ciphers-Opens, envelopes, envelopes-Decodes, envelopes-OpensMessages, payload,
  payload-reads, draws, hww_seed, backup, added, wrapper_of, created, extended, listed, named,
  sealed, note, purpose, other_purpose,
}

with_vault_key_index-from_mnemonic_example :
    with_vault_key_index toy bip phone 9 ≡ from_mnemonic toy bip "words" regtest 9
with_vault_key_index-from_mnemonic_example =
    with_vault_key_index-from_mnemonic toy bip "words" regtest 3 phone derived 9

generate-parse_example :
    parse_for_network_at_index toy bip phone.mnemonic phone.network phone.vault_key_index ≡ ok phone
generate-parse_example = generate-parse toy bip [] regtest 3 phone (λ mnemonic made. refl) generated

decrypt-encrypt_example : decrypt ciphers hww_seed other_purpose note ≡ (
    if purpose == other_purpose
    then ok (9 ∷ [])
    else err "encrypted blob purpose mismatch: expected {expected_purpose}, got {}")
decrypt-encrypt_example =
    decrypt-encrypt ciphers ciphers-Opens (2 ∷ []) hww_seed purpose other_purpose (9 ∷ []) note
      sealed

decrypt_with_hww-create_backup_example :
    decrypt_with_hww ciphers envelopes backup hww_seed ≡ ok payload
decrypt_with_hww-create_backup_example =
    decrypt_with_hww-create_backup ciphers ciphers-Opens envelopes draws payload hww_seed
      ("first" ∷ []) backup payload-reads created

decrypt_with_friend-create_backup_example :
    decrypt_with_friend ciphers envelopes backup (1 ∷ []) ≡ ok payload
decrypt_with_friend-create_backup_example =
    decrypt_with_friend-create_backup ciphers ciphers-Opens envelopes draws payload hww_seed
      ("first" ∷ []) backup (1 ∷ []) (1 ∷ []) (wrapper_of "b" 0) payload-reads
      ((λ key parsed same. envelopes-OpensMessages (1 ∷ []) key), tt) envelopes-Decodes refl created
      refl refl listed

decrypt_with_friend-add_friend_example :
    decrypt_with_friend ciphers envelopes added (1 ∷ 2 ∷ [])
    ≡ decrypt_with_hww ciphers envelopes backup hww_seed
decrypt_with_friend-add_friend_example =
    decrypt_with_friend-add_friend ciphers ciphers-Opens envelopes 5 (6 ∷ []) backup hww_seed
      (1 ∷ 2 ∷ []) added "a" (1 ∷ 2 ∷ []) (1 ∷ 2 ∷ [])
      (λ key parsed same. envelopes-OpensMessages (1 ∷ 2 ∷ []) key) envelopes-Decodes extended refl
      refl named

add_friend-keeps_example :
    (decrypt_with_hww ciphers envelopes added hww_seed
      ≡ decrypt_with_hww ciphers envelopes backup hww_seed)
    × ((other : String)
        → "a" ≢ other
        → find_friend other added.friends ≡ find_friend other backup.friends)
add_friend-keeps_example =
    add_friend-keeps ciphers ciphers-Opens envelopes 5 (6 ∷ []) backup hww_seed (1 ∷ 2 ∷ []) added
      "a" extended
