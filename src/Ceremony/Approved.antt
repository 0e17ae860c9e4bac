-- ===== src/Ceremony/Approved.antt =====
-- `validate_approved_batch` of src/core/ceremony.rs: the phone's check of a signed batch.
pub mod Signed
pub mod Limits
use anzen.Prelude.{
  ℕ, String, not, ◌||◌, List, [], ◌∷◌, Result, ok, err, panic, ◌>>=◌, ◌>>◌, bail_if, context, ◌==◌,
  string_eq, if◌then◌else◌,
}
use anzen.Bitcoin.{Bitcoin, Psbt, XOnlyPublicKey}
use anzen.Storage.{VaultConfig}
use anzen.Policy.{VaultPolicy, cooperative}
use anzen.Transactions.Signing.{verify_vault_psbt_signatures}
use anzen.Ceremony.Types.{BatchManifest, BatchTransaction, manifest_transactions}
use anzen.Ceremony.Workspace.{Workspace, read_psbt}
use anzen.Ceremony.Validate.Rollover.{validate_batch}

-- `.with_context(message)?` on a result
abbrev pub with_context : Result (Unit {0}) → String → Result (Unit {0})
with_context panic message = panic
with_context (err cause) message = err message
with_context (ok done) message = ok done

module _ (lib : Bitcoin) where
  -- The two loops that finalize inputs.
  unfoldable pub finalize_inputs : Psbt → List ℕ → String → Result Psbt
  finalize_inputs psbt [] message = ok psbt
  finalize_inputs psbt (index ∷ indexes) message = do
    finalized ← context (lib.finalize_input psbt index) message
    finalize_inputs finalized indexes message

  -- The body of the loop over the transactions of the batch.
  unfoldable pub check_approved_transaction :
      BatchManifest
      → Workspace
      → VaultPolicy
      → XOnlyPublicKey
      → XOnlyPublicKey
      → BatchTransaction
      → Result (Unit {0})
  check_approved_transaction manifest files policy phone_pubkey hww_pubkey transaction = do
    psbt ← read_psbt lib files transaction.psbt_file
    let indexes = transaction.vault_input_indexes
    with_context (verify_vault_psbt_signatures lib psbt policy cooperative phone_pubkey indexes)
        "invalid vault signatures in {}"
    with_context (verify_vault_psbt_signatures lib psbt policy cooperative hww_pubkey indexes)
        "invalid vault signatures in {}"
    finalized ← finalize_inputs psbt indexes "vault input {index} cannot finalize in {}"
    if transaction.psbt_file == manifest.rollover.psbt_file
        then (do
          done ←
              finalize_inputs finalized transaction.controller_input_indexes
                "rollover controller input cannot finalize"
          ok tt)
        else ok tt

  unfoldable pub check_approved_transactions :
      BatchManifest
      → Workspace
      → VaultPolicy
      → XOnlyPublicKey
      → XOnlyPublicKey
      → List BatchTransaction
      → Result (Unit {0})
  check_approved_transactions manifest files policy phone_pubkey hww_pubkey [] = ok tt
  check_approved_transactions manifest files policy phone_pubkey hww_pubkey (t ∷ transactions) = do
    check_approved_transaction manifest files policy phone_pubkey hww_pubkey t
    check_approved_transactions manifest files policy phone_pubkey hww_pubkey transactions

  unfoldable pub validate_approved_batch :
      VaultConfig → BatchManifest → Workspace → Result VaultPolicy
  validate_approved_batch config manifest files = do
    bail_if (not manifest.phone_approved || not manifest.hww_approved)
        "both phone and HWW approval are required before finalization"
    policy ← validate_batch lib config manifest files
    phone_pubkey ← context (lib.pubkey_from_str config.phone_vault_pubkey) "invalid public key"
    hww_pubkey ← context (lib.pubkey_from_str config.hww_vault_pubkey) "invalid public key"
    check_approved_transactions manifest files policy phone_pubkey hww_pubkey
        (manifest_transactions manifest)
    ok policy
