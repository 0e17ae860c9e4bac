-- ===== src/Ceremony/Validate/NoPanicRollover.antt =====
-- Opening a batch and checking its rollover end without a panic.
use anzen.Prelude.{
  ℕ, ◌<◌, ◌≡◌, ◌≢◌, true, none, some, List, [], ◌∷◌, ok, panic, String, arith, Bool-cases, length,
  Option,
}
use anzen.Bitcoin.{Bitcoin, Script, TxIn, Transaction, PsbtInput, Psbt}
use anzen.Storage.{VaultConfig}
use anzen.Policy.{VaultPolicy, ControllerPolicy}
use anzen.Policy.Total.{vault_from_descriptor-ne-panic}
use anzen.Transactions.Partition.{IsPartition, breaks_partition-IsPartition}
use anzen.Transactions.Roles.{contains}
use anzen.Transactions.Signing.{check_sighashes}
use anzen.Ceremony.Types.{BatchManifest, BatchTransaction}
use anzen.Ceremony.Workspace.{Workspace}
use anzen.Ceremony.Validate.Parts.{check_sequences, psbt_role_input_sum, validate_input_partition}
use anzen.Ceremony.Validate.Total.{
  get_elem?-ne-none, read_psbt-ne-panic, estimate_policy_vsize-ne-panic, bitcoin_network-ne-panic,
  role_sum_from-ne-panic, check_sequences-ne-panic, controller_policy-ne-panic,
}
use anzen.Ceremony.Validate.Outputs.{form-length, check_output_indexes-eq-ok}
use anzen.Ceremony.Validate.Child.{output_sum_lem}
use anzen.Ceremony.Validate.Rollover.{
  check_connector_vout, check_rollover_form, check_rollover_amounts, check_output_indexes,
  check_rollover_outputs, check_batch_sighashes, check_manifest, open_batch, has_allowances,
}

validate_input_partition-IsPartition :
    (count : ℕ) (v c : List ℕ) → validate_input_partition count v c ≡ ok tt → IsPartition count v c
unfolding validate_input_partition
validate_input_partition-IsPartition count v c h =
    breaks_partition-IsPartition count v c (ground arith)

validate_input_partition-ne-panic :
    (count : ℕ) (v c : List ℕ) → validate_input_partition count v c ≢ panic
unfolding validate_input_partition
validate_input_partition-ne-panic count v c h = ground arith

-- Once the roles form a partition, reading the sequences of both roles is in range.
sequences-ne-panic :
    (inputs : List TxIn) (v c : List ℕ) (expected : ℕ) (message : String)
    → validate_input_partition (length inputs) v c ≡ ok tt
    → (check_sequences inputs v expected message ≢ panic)
      × (check_sequences inputs c expected message ≢ panic)
sequences-ne-panic inputs v c expected message accepted =
    let roles = validate_input_partition-IsPartition (length inputs) v c accepted in
    (
      check_sequences-ne-panic inputs v expected message roles.vault_below,
      check_sequences-ne-panic inputs c expected message roles.controller_below,
    )

psbt_role_input_sum-ne-panic :
    (psbt : Psbt) (indexes : List ℕ) (script : Script)
    → ((i : ℕ) → contains indexes i ≡ true → i < length psbt.inputs)
    → psbt_role_input_sum psbt indexes script ≢ panic
unfolding psbt_role_input_sum
psbt_role_input_sum-ne-panic psbt indexes script below =
    role_sum_from-ne-panic psbt.inputs 0 indexes script below

module _ (lib : Bitcoin) where
  check_sighashes-ne-panic : (inputs : List PsbtInput) → check_sighashes lib inputs ≢ panic
  unfolding check_sighashes
  check_sighashes-ne-panic [] h = ground arith
  check_sighashes-ne-panic (i ∷ inputs) h = ground (arith, check_sighashes-ne-panic inputs)

  check_batch_sighashes-ne-panic :
      (files : Workspace) (ts : List BatchTransaction) → check_batch_sighashes lib files ts ≢ panic
  unfolding check_batch_sighashes
  check_batch_sighashes-ne-panic files [] h = ground arith
  check_batch_sighashes-ne-panic files (t ∷ ts) h = grind (
    arith,
    read_psbt-ne-panic lib files,
    check_sighashes-ne-panic,
    check_batch_sighashes-ne-panic files ts,
  )

  pub open_batch-ne-panic :
      (config : VaultConfig) (manifest : BatchManifest) (files : Workspace)
      → open_batch lib config manifest files ≢ panic
  unfolding open_batch check_manifest
  open_batch-ne-panic config manifest files h = grind (
    arith,
    check_batch_sighashes-ne-panic,
    bitcoin_network-ne-panic config,
    vault_from_descriptor-ne-panic lib,
    controller_policy-ne-panic lib config,
    read_psbt-ne-panic lib files,
  )

  pub check_rollover_form-ne-panic :
      (manifest : BatchManifest) (rollover : Psbt)
      → check_rollover_form lib manifest rollover ≢ panic
  unfolding check_rollover_form
  check_rollover_form-ne-panic manifest rollover h =
      let v = manifest.rollover.vault_input_indexes in
      let c = manifest.rollover.controller_input_indexes in
      let wrong : String = "rollover PSBT does not match its manifest" in
      ground (
        arith,
        validate_input_partition-ne-panic (length rollover.unsigned_tx.input) v c,
        sequences-ne-panic rollover.unsigned_tx.input v c lib.sequence_max wrong,
        sequences-ne-panic rollover.unsigned_tx.input v c lib.sequence_enable_rbf_no_locktime wrong,
      )

  check_rollover_form-inputs :
      (manifest : BatchManifest) (rollover : Psbt)
      → check_rollover_form lib manifest rollover ≡ ok tt
      → (length rollover.inputs ≡ length rollover.unsigned_tx.input)
        × (validate_input_partition
              (length rollover.unsigned_tx.input)
              manifest.rollover.vault_input_indexes
              manifest.rollover.controller_input_indexes
            ≡ ok tt)
  unfolding check_rollover_form
  check_rollover_form-inputs manifest rollover h = ground (
    arith,
    validate_input_partition-ne-panic (length rollover.unsigned_tx.input)
        manifest.rollover.vault_input_indexes manifest.rollover.controller_input_indexes,
  )

  pub check_rollover_amounts-ne-panic :
      (manifest : BatchManifest) (rollover : Psbt) (policy : VaultPolicy)
      (controller : ControllerPolicy)
      → check_rollover_form lib manifest rollover ≡ ok tt
      → check_rollover_amounts lib manifest rollover policy controller ≢ panic
  unfolding check_rollover_amounts
  check_rollover_amounts-ne-panic manifest rollover policy controller form h =
      let (same, partition) = check_rollover_form-inputs manifest rollover form in
      let roles = validate_input_partition-IsPartition _ _ _ partition in
      let vault =
        psbt_role_input_sum-ne-panic rollover manifest.rollover.vault_input_indexes
          policy.address.script_pubkey (rw same roles.vault_below) in
      let controlled =
        psbt_role_input_sum-ne-panic rollover manifest.rollover.controller_input_indexes
          controller.address.script_pubkey (rw same roles.controller_below) in
      grind (
        arith,
        vault,
        controlled,
        output_sum_lem rollover.unsigned_tx,
        estimate_policy_vsize-ne-panic lib,
      )

  check_connector_vout-ne-panic :
      (tx : Transaction) (vout : Option ℕ) (script : Script)
      → check_connector_vout tx vout script ≢ panic
  unfolding check_connector_vout
  check_connector_vout-ne-panic tx none script h = ground arith
  check_connector_vout-ne-panic tx (some vout) script h = ground arith

  pub check_rollover_outputs-ne-panic :
      (manifest : BatchManifest) (rollover : Psbt) (vs cs : Script)
      → check_rollover_form lib manifest rollover ≡ ok tt
      → check_output_indexes manifest ≡ ok tt
      → check_rollover_outputs lib manifest rollover.unsigned_tx vs cs ≢ panic
  unfolding check_rollover_outputs
  check_rollover_outputs-ne-panic manifest rollover vs cs form indexes h =
      let (_, vout, _, _, _) = check_output_indexes-eq-ok lib manifest indexes in
      let n = form-length lib manifest rollover form in
      let connectors = check_connector_vout-ne-panic rollover.unsigned_tx in
      let on = Bool-cases (has_allowances manifest) in
      ground (
        arith,
        n,
        vout,
        connectors,
        get_elem?-ne-none rollover.unsigned_tx.output 0,
        get_elem?-ne-none rollover.unsigned_tx.output manifest.remainder_vout,
      )
