-- ===== src/Ceremony/Validate/Rollover.antt =====
-- `validate_batch`: the manifest and the rollover, then the chain and the emergency access.
use anzen.Prelude.{
  if◌then◌else◌, ℕ, ◌+◌, ◌*◌, String, Bool, not, ◌&&◌, ◌||◌, Option, none, some, List, [], ◌∷◌,
  Result, ok, ◌>>=◌, ◌>>◌, bail_if, context, unwrap, ltb, ◌==◌, ◌!=◌, nat_eq, string_eq, list_eq,
  option_eq, length, get_elem?, checked_add, checked_sub,
}
use anzen.Constants.{connector_value_sats, default_fee_rate_sat_vb, months_per_rollover}
use anzen.Bitcoin.{Bitcoin, Script, Transaction, Psbt}
use anzen.Storage.{VaultConfig, bitcoin_network}
use anzen.Policy.{VaultPolicy, ControllerPolicy, vault_from_descriptor, cooperative, phone}
use anzen.Transactions.Vsize.{estimate_policy_vsize}
use anzen.Transactions.Signing.{validate_default_sighashes}
use anzen.Transactions.Revocation.{is_empty}
use anzen.Ceremony.Types.{BatchManifest, BatchTransaction, manifest_transactions}
use anzen.Ceremony.Workspace.{Workspace, read_psbt}
use anzen.Ceremony.Amounts.{output_sum}
use anzen.Ceremony.Templates.{from_bool, then_some}
use anzen.Ceremony.Validate.Parts.{
  controller_policy, validate_input_partition, check_sequences, psbt_role_input_sum,
  validate_connector_output,
}
use anzen.Ceremony.Validate.Allowances.{validate_allowances}
use anzen.Ceremony.Validate.Emergency.{validate_connector_emergency}

abbrev wrong_rollover : String
wrong_rollover = "rollover PSBT does not match its manifest"

-- `count > 0`
abbrev pub has_allowances : BatchManifest → Bool
has_allowances manifest = ltb 0 manifest.allowance_count

abbrev pub has_emergency : BatchManifest → Bool
has_emergency manifest = ltb 0 manifest.emergency_access_limit_sats

-- The tests on the indexes of the rollover's outputs.
unfoldable pub check_output_indexes : BatchManifest → Result (Unit {0})
check_output_indexes manifest = do
  let expected_remainder_vout = from_bool (has_allowances manifest)
  bail_if
      (manifest.allowance_vout != then_some (has_allowances manifest) 0
        || (manifest.remainder_vout != expected_remainder_vout
            || (manifest.monthly_connector_vout
                  != then_some (has_allowances manifest) (expected_remainder_vout + 1)
                || (manifest.emergency_connector_vout
                      != then_some (has_emergency manifest)
                          (expected_remainder_vout + 1 + from_bool (has_allowances manifest))
                    || (not (has_allowances manifest) && manifest.allowance_value_sats != 0)))))
      "rollover output indexes do not match the approved policy"

-- The loop over the connector outputs that the manifest names.
unfoldable pub check_connector_vout : Transaction → Option ℕ → Script → Result (Unit {0})
unfolding validate_connector_output
check_connector_vout tx none controller_script = ok tt
check_connector_vout tx (some vout) controller_script = do
  output ← context (get_elem? tx.output vout) "rollover connector vout is out of range"
  validate_connector_output output controller_script

-- What the checks of the rollover are given: the two policies and the rollover.
pub record Opened : Type 0 where
  pub policy : VaultPolicy
  pub controller : ControllerPolicy
  pub rollover : Psbt

module _ (lib : Bitcoin) where
  -- The tests on the outputs of the rollover.
  unfoldable pub check_rollover_outputs :
      BatchManifest → Transaction → Script → Script → Result (Unit {0})
  unfolding check_connector_vout
  check_rollover_outputs manifest tx vault_script controller_script = do
    if has_allowances manifest
        then (do
          allowance ← unwrap (get_elem? tx.output 0)
          bail_if
              (allowance.script_pubkey != vault_script
                || allowance.value != manifest.allowance_value_sats)
              "rollover allowance-chain output does not match its manifest")
        else ok tt
    remainder ← unwrap (get_elem? tx.output manifest.remainder_vout)
    bail_if
        (remainder.script_pubkey != vault_script
          || (remainder.value != manifest.remainder_value_sats
              || ltb remainder.value (lib.minimal_non_dust vault_script)))
        "rollover remainder does not match its manifest"
    check_connector_vout tx manifest.monthly_connector_vout controller_script
    check_connector_vout tx manifest.emergency_connector_vout controller_script

  -- The test of the form of the rollover, read from left to right.
  unfoldable pub check_rollover_form : BatchManifest → Psbt → Result (Unit {0})
  check_rollover_form manifest rollover = do
    let tx = rollover.unsigned_tx
    let vault_indexes = manifest.rollover.vault_input_indexes
    let controller_indexes = manifest.rollover.controller_input_indexes
    validate_input_partition (length tx.input) vault_indexes controller_indexes
    bail_if
        (lib.txid_to_string (lib.compute_txid tx) != manifest.rollover.unsigned_txid
          || (tx.version != 2
              || (tx.lock_time != 0
                  || (is_empty tx.input
                      || (length tx.input != length rollover.inputs
                          || length tx.output
                            != from_bool (has_allowances manifest)
                              + 1
                              + from_bool (has_allowances manifest)
                              + from_bool (has_emergency manifest))))))
        wrong_rollover
    check_sequences tx.input vault_indexes lib.sequence_max wrong_rollover
    check_sequences tx.input controller_indexes lib.sequence_enable_rbf_no_locktime wrong_rollover

  -- The tests on the rollover's amounts and its fee.
  unfoldable pub check_rollover_amounts :
      BatchManifest → Psbt → VaultPolicy → ControllerPolicy → Result (Unit {0})
  unfolding checked_add checked_sub
  check_rollover_amounts manifest rollover policy controller = do
    let tx = rollover.unsigned_tx
    let vault_indexes = manifest.rollover.vault_input_indexes
    let controller_indexes = manifest.rollover.controller_input_indexes
    vault_inputs ← psbt_role_input_sum rollover vault_indexes policy.address.script_pubkey
    controller_inputs ←
        psbt_role_input_sum rollover controller_indexes controller.address.script_pubkey
    total ← context (checked_add vault_inputs controller_inputs) "rollover input total overflowed"
    outputs ← output_sum tx
    fee ← context (checked_sub total outputs) "rollover outputs exceed inputs"
    bail_if
        (vault_inputs != manifest.vault_input_sats
          || (controller_inputs != manifest.controller_input_sats
              || (total != manifest.total_input_sats || fee != manifest.rollover.fee_sats)))
        "rollover amount or fee does not match its manifest"
    size ←
        estimate_policy_vsize lib tx policy cooperative vault_indexes controller phone
          controller_indexes
    bail_if (manifest.rollover.fee_sats != size * default_fee_rate_sat_vb)
        "rollover does not pay the approved fixed fee rate"

  -- The loop over the sighash types of every transaction of the batch.
  unfoldable pub check_batch_sighashes : Workspace → List BatchTransaction → Result (Unit {0})
  check_batch_sighashes files [] = ok tt
  check_batch_sighashes files (transaction ∷ transactions) = do
    psbt ← read_psbt lib files transaction.psbt_file
    validate_default_sighashes lib psbt
    check_batch_sighashes files transactions

  -- The tests on the manifest before its policies are built.
  unfoldable pub check_manifest : VaultConfig → BatchManifest → Workspace → Result (Unit {0})
  check_manifest config manifest files = do
    bail_if (manifest.version != 5 || manifest.network != config.network)
        "unsupported ceremony manifest or network mismatch"
    check_batch_sighashes files (manifest_transactions manifest)
    bail_if
        (manifest.vault_descriptor != config.vault_descriptor
          || manifest.vault_address != config.vault_address)
        "ceremony policy does not match configured vault policy"
    bail_if (manifest.fee_rate_sat_vb != default_fee_rate_sat_vb)
        "MVP ceremony must use the fixed 1 sat/vB fee rate"
    bail_if
        ((manifest.monthly_limit_sats == 0 && manifest.allowance_count != 0)
          || (ltb months_per_rollover manifest.allowance_count
              || length manifest.allowances != manifest.allowance_count))
        "invalid ceremony allowance count"

  -- The first part of `validate_batch`, up to reading the rollover.
  unfoldable pub open_batch : VaultConfig → BatchManifest → Workspace → Result Opened
  open_batch config manifest files = do
    check_manifest config manifest files
    network ← bitcoin_network config
    policy ← vault_from_descriptor lib config.vault_descriptor network
    controller ← controller_policy lib config
    bail_if
        (manifest.controller_descriptor != controller.descriptor
          || (manifest.controller_address != controller.address.text
              || manifest.connector_value_sats != connector_value_sats))
        "ceremony controller does not match the fixed vault-key controller policy"
    rollover ← read_psbt lib files manifest.rollover.psbt_file
    ok (record { policy = policy; controller = controller; rollover = rollover })

  -- The second part, on the rollover.
  unfoldable pub check_batch : VaultConfig → BatchManifest → Workspace → Opened → Result (Unit {0})
  check_batch config manifest files opened = do
    check_rollover_form manifest opened.rollover
    check_rollover_amounts manifest opened.rollover opened.policy opened.controller
    check_output_indexes manifest
    check_rollover_outputs manifest opened.rollover.unsigned_tx opened.policy.address.script_pubkey
        opened.controller.address.script_pubkey
    validate_allowances lib config manifest files opened.policy opened.controller opened.rollover
    validate_connector_emergency lib config manifest files opened.policy opened.controller
        opened.rollover

  unfoldable pub validate_batch : VaultConfig → BatchManifest → Workspace → Result VaultPolicy
  validate_batch config manifest files = do
    opened ← open_batch config manifest files
    check_batch config manifest files opened
    ok opened.policy
