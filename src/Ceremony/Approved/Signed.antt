-- ===== src/Ceremony/Approved/Signed.antt =====
-- What a batch that passes `validate_approved_batch` guarantees.
use anzen.Prelude.{ℕ, ◌≡◌, true, some, List, [], ◌∷◌, ok, arith, All}
use anzen.Bitcoin.{Bitcoin, Psbt, XOnlyPublicKey}
use anzen.Storage.{VaultConfig}
use anzen.Policy.{VaultPolicy, Leaf, SpendPath, vault_leaf, cooperative}
use anzen.Transactions.Signing.{verify_vault_psbt_signatures, verify_inputs, vault}
use anzen.Transactions.Signatures.{SignedAt, verify_inputs-SignedAt}
use anzen.Ceremony.Types.{BatchManifest, BatchTransaction, manifest_transactions}
use anzen.Ceremony.Workspace.{Workspace, read_psbt}
use anzen.Ceremony.Validate.Rollover.{validate_batch}
use anzen.Ceremony.Approved.{
  check_approved_transaction, check_approved_transactions, validate_approved_batch,
}

module _ (lib : Bitcoin) where
  -- The key has signed every listed input for the cooperative leaf of the vault.
  abbrev pub SignedBy : VaultPolicy → Psbt → List ℕ → XOnlyPublicKey → Type 0
  SignedBy policy psbt indexes key =
      (leaf : Leaf SpendPath) × (vault_leaf lib policy cooperative ≡ ok leaf)
      × All (SignedAt lib psbt leaf.leaf_hash key) indexes

  verify_vault_psbt_signatures-eq-ok :
      (psbt : Psbt) (policy : VaultPolicy) (key : XOnlyPublicKey) (indexes : List ℕ)
      → verify_vault_psbt_signatures lib psbt policy cooperative key indexes ≡ ok tt
      → (leaf : Leaf SpendPath) × (vault_leaf lib policy cooperative ≡ ok leaf)
        × (verify_inputs lib vault psbt leaf.leaf_hash key indexes ≡ ok tt)
  unfolding verify_vault_psbt_signatures
  verify_vault_psbt_signatures-eq-ok psbt policy key indexes h = ground arith

  verify_vault_psbt_signatures-SignedBy :
      (psbt : Psbt) (policy : VaultPolicy) (key : XOnlyPublicKey) (indexes : List ℕ)
      → verify_vault_psbt_signatures lib psbt policy cooperative key indexes ≡ ok tt
      → SignedBy policy psbt indexes key
  verify_vault_psbt_signatures-SignedBy psbt policy key indexes h =
      let (leaf, found, verified) = verify_vault_psbt_signatures-eq-ok psbt policy key indexes h in
      (leaf, found, verify_inputs-SignedAt lib vault psbt leaf.leaf_hash key indexes verified)

  -- The stored PSBT of a transaction carries both devices' signatures on its vault inputs.
  abbrev pub BothSigned :
      Workspace → VaultPolicy → XOnlyPublicKey → XOnlyPublicKey → BatchTransaction → Type 0
  BothSigned files policy phone_key hww_key transaction =
      (psbt : Psbt) × (read_psbt lib files transaction.psbt_file ≡ ok psbt)
      × SignedBy policy psbt transaction.vault_input_indexes phone_key
      × SignedBy policy psbt transaction.vault_input_indexes hww_key

  module _ (manifest : BatchManifest) (files : Workspace) (policy : VaultPolicy)
      (phone_key hww_key : XOnlyPublicKey) where
    transaction-eq-ok :
        (t : BatchTransaction)
        → check_approved_transaction lib manifest files policy phone_key hww_key t ≡ ok tt
        → (psbt : Psbt) × (read_psbt lib files t.psbt_file ≡ ok psbt)
          × (verify_vault_psbt_signatures lib psbt policy cooperative phone_key
                t.vault_input_indexes
              ≡ ok tt)
          × (verify_vault_psbt_signatures lib psbt policy cooperative hww_key t.vault_input_indexes
              ≡ ok tt)
    unfolding check_approved_transaction
    transaction-eq-ok t h = ground arith

    transactions-BothSigned :
        (ts : List BatchTransaction)
        → check_approved_transactions lib manifest files policy phone_key hww_key ts ≡ ok tt
        → All (BothSigned files policy phone_key hww_key) ts
    unfolding check_approved_transactions
    transactions-BothSigned [] h = tt
    transactions-BothSigned (t ∷ ts) h =
        let (psbt, stored, by_phone, by_hww) = transaction-eq-ok t (ground arith) in
        (
          (
            psbt,
            stored,
            verify_vault_psbt_signatures-SignedBy psbt policy phone_key t.vault_input_indexes
                by_phone,
            verify_vault_psbt_signatures-SignedBy psbt policy hww_key t.vault_input_indexes by_hww,
          ),
          transactions-BothSigned ts (ground arith),
        )

  validate_approved_batch-eq-ok :
      (config : VaultConfig) (manifest : BatchManifest) (files : Workspace) (policy : VaultPolicy)
      → validate_approved_batch lib config manifest files ≡ ok policy
      → (manifest.phone_approved ≡ true)
        × (manifest.hww_approved ≡ true)
        × (validate_batch lib config manifest files ≡ ok policy)
        × (phone_key : XOnlyPublicKey) × (lib.pubkey_from_str config.phone_vault_pubkey
            ≡ some phone_key)
        × (hww_key : XOnlyPublicKey) × (lib.pubkey_from_str config.hww_vault_pubkey ≡ some hww_key)
        × (check_approved_transactions lib manifest files policy phone_key hww_key
              (manifest_transactions manifest)
            ≡ ok tt)
  unfolding validate_approved_batch
  validate_approved_batch-eq-ok config manifest files policy h = ground arith

  -- An approved batch passes the check of `validate_batch`, is approved by both devices, and in
  -- each of its transactions every vault input carries valid signatures of both configured keys.
  pub validate_approved_batch-BothSigned :
      (config : VaultConfig) (manifest : BatchManifest) (files : Workspace) (policy : VaultPolicy)
      → validate_approved_batch lib config manifest files ≡ ok policy
      → (manifest.phone_approved ≡ true)
        × (manifest.hww_approved ≡ true)
        × (validate_batch lib config manifest files ≡ ok policy)
        × (phone_key : XOnlyPublicKey) × (lib.pubkey_from_str config.phone_vault_pubkey
            ≡ some phone_key)
        × (hww_key : XOnlyPublicKey) × (lib.pubkey_from_str config.hww_vault_pubkey ≡ some hww_key)
        × All (BothSigned files policy phone_key hww_key) (manifest_transactions manifest)
  validate_approved_batch-BothSigned config manifest files policy h =
      let (by_phone, by_hww, valid, phone_key, phone_text, hww_key, hww_text, checked) =
        validate_approved_batch-eq-ok config manifest files policy h in
      (
        by_phone,
        by_hww,
        valid,
        phone_key,
        phone_text,
        hww_key,
        hww_text,
        transactions-BothSigned manifest files policy phone_key hww_key
            (manifest_transactions manifest) checked,
      )
