-- ===== src/Ceremony/Validate/Emergency.antt =====
-- `validate_connector_emergency`: the trigger and the withdrawal.
use anzen.Prelude.{
  ℕ, zero, suc, String, ◌||◌, Option, none, some, Result, ok, err, ◌>>=◌, ◌>>◌, bail_if, context,
  unwrap, ltb, ◌!=◌, nat_eq, list_eq, option_eq, length, get_elem?, checked_add,
}
use anzen.Constants.{connector_value_sats, emergency_access_delay_seconds}
use anzen.Bitcoin.{Bitcoin, Script, Transaction, Psbt}
use anzen.Storage.{VaultConfig, bitcoin_network}
use anzen.Policy.{VaultPolicy, ControllerPolicy}
use anzen.Ceremony.Types.{BatchManifest, EmergencyAccessPolicy, connector_eq}
use anzen.Ceremony.Workspace.{Workspace, read_psbt}
use anzen.Ceremony.Amounts.{emergency_delay_sequence}
use anzen.Ceremony.Templates.{child_fee}
use anzen.Ceremony.Validate.Parts.{validate_connector_child, validate_connector_output}
use anzen.Ceremony.Validate.Allowances.{connector_at}

-- The match on the limit and the presigned transactions; `none` returns at once.
unfoldable pub select_emergency :
    ℕ → Option EmergencyAccessPolicy → Result (Option EmergencyAccessPolicy)
select_emergency zero none = ok none
select_emergency zero (some emergency) =
    err "disabled emergency access contains presigned transactions"
select_emergency (suc limit) none =
    err "configured emergency access is missing its presigned transactions"
select_emergency (suc limit) (some emergency) = ok (some emergency)

abbrev wrong_trigger : String
wrong_trigger = "emergency access trigger violates the approved policy"

abbrev wrong_withdrawal : String
wrong_withdrawal = "emergency access withdrawal violates the approved policy"

module _ (lib : Bitcoin) where
  unfoldable pub check_emergency_metadata : EmergencyAccessPolicy → ℕ → ℕ → Result (Unit {0})
  check_emergency_metadata emergency limit expected_delay =
      bail_if
        (emergency.amount_sats != limit
          || (emergency.delay_seconds != emergency_access_delay_seconds
              || (emergency.delay_sequence != expected_delay
                  || (emergency.staging_vout != 0 || emergency.vault_change_vout != 1))))
        "emergency access metadata violates the approved policy"

  -- The test of the trigger, read from left to right, and its connector output.
  unfoldable pub check_trigger :
      EmergencyAccessPolicy → Transaction → Script → Script → Result (Unit {0})
  unfolding validate_connector_output
  check_trigger emergency tx vault_script controller_script = do
    bail_if (tx.version != 2 || tx.lock_time != 0) wrong_trigger
    vault_input ← unwrap (get_elem? tx.input 0)
    bail_if (vault_input.sequence != lib.sequence_max) wrong_trigger
    connector_input ← unwrap (get_elem? tx.input 1)
    bail_if
        (connector_input.sequence != lib.sequence_enable_rbf_no_locktime || length tx.output != 3)
        wrong_trigger
    staging ← unwrap (get_elem? tx.output 0)
    bail_if (staging.script_pubkey != vault_script || staging.value != emergency.staging_value_sats)
        wrong_trigger
    change ← unwrap (get_elem? tx.output 1)
    bail_if
        (change.script_pubkey != vault_script
          || (change.value != emergency.vault_change_value_sats
              || ltb emergency.vault_change_value_sats (lib.minimal_non_dust vault_script)))
        wrong_trigger
    connector ← unwrap (get_elem? tx.output 2)
    validate_connector_output connector controller_script

  -- The test of the withdrawal, read from left to right.
  unfoldable pub check_withdrawal :
      EmergencyAccessPolicy → Transaction → Script → ℕ → ℕ → Result (Unit {0})
  unfolding checked_add
  check_withdrawal emergency tx hot_script limit expected_delay = do
    bail_if (tx.version != 2 || tx.lock_time != 0) wrong_withdrawal
    vault_input ← unwrap (get_elem? tx.input 0)
    bail_if (vault_input.sequence != expected_delay) wrong_withdrawal
    connector_input ← unwrap (get_elem? tx.input 1)
    bail_if
        (connector_input.sequence != lib.sequence_enable_rbf_no_locktime || length tx.output != 1)
        wrong_withdrawal
    release ← unwrap (get_elem? tx.output 0)
    bail_if
        (release.script_pubkey != hot_script
          || (release.value != limit
              || checked_add emergency.staging_value_sats connector_value_sats
                != checked_add limit emergency.withdrawal.fee_sats))
        wrong_withdrawal

  module _ (config : VaultConfig) (manifest : BatchManifest) (files : Workspace)
      (policy : VaultPolicy) (controller : ControllerPolicy) where
    abbrev vault_script : Script
    vault_script = policy.address.script_pubkey

    abbrev controller_script : Script
    controller_script = controller.address.script_pubkey

    -- The trigger's part, on the rollover's remainder and emergency connector: the trigger.
    unfoldable pub validate_trigger : EmergencyAccessPolicy → Psbt → Result Transaction
    validate_trigger emergency rollover = do
      let rollover_txid = lib.compute_txid rollover.unsigned_tx
      source_prevout ← unwrap (get_elem? rollover.unsigned_tx.output manifest.remainder_vout)
      connector_vout ←
          context manifest.emergency_connector_vout "emergency connector output is missing"
      let trigger_connector = connector_at rollover_txid connector_vout
      bail_if (emergency.trigger_connector != trigger_connector)
          "emergency trigger connector metadata violates the approved policy"
      trigger ← read_psbt lib files emergency.trigger.psbt_file
      validate_connector_child lib trigger source_prevout
          (record { txid = rollover_txid; vout = manifest.remainder_vout })
          trigger_connector.outpoint controller_script emergency.trigger
      let trigger_tx = trigger.unsigned_tx
      check_trigger emergency trigger_tx vault_script controller_script
      bail_if (emergency.withdrawal_connector != connector_at (lib.compute_txid trigger_tx) 2)
          "emergency withdrawal connector metadata violates the approved policy"
      trigger_fee ← child_fee lib trigger_tx policy controller
      bail_if (emergency.trigger.fee_sats != trigger_fee)
          "emergency trigger does not pay the approved fixed fee rate"
      ok trigger_tx

    -- The withdrawal's part, on the outputs of the trigger.
    unfoldable pub validate_withdrawal :
        EmergencyAccessPolicy → Transaction → Script → ℕ → Result (Unit {0})
    validate_withdrawal emergency trigger_tx hot_script expected_delay = do
      let trigger_txid = lib.compute_txid trigger_tx
      staging_prevout ← unwrap (get_elem? trigger_tx.output emergency.staging_vout)
      withdrawal ← read_psbt lib files emergency.withdrawal.psbt_file
      validate_connector_child lib withdrawal staging_prevout
          (record { txid = trigger_txid; vout = emergency.staging_vout })
          (record { txid = trigger_txid; vout = 2 }) controller_script emergency.withdrawal
      let withdrawal_tx = withdrawal.unsigned_tx
      check_withdrawal emergency withdrawal_tx hot_script manifest.emergency_access_limit_sats
          expected_delay
      withdrawal_fee ← child_fee lib withdrawal_tx policy controller
      bail_if (emergency.withdrawal.fee_sats != withdrawal_fee)
          "emergency withdrawal does not pay the approved fixed fee rate"

    -- The checks once the emergency access is enabled.
    unfoldable pub validate_enabled : EmergencyAccessPolicy → Psbt → Result (Unit {0})
    validate_enabled emergency rollover = do
      expected_delay ← emergency_delay_sequence lib
      check_emergency_metadata emergency manifest.emergency_access_limit_sats expected_delay
      network ← bitcoin_network config
      hot ← context (lib.parse_address emergency.hot_address network) "invalid hot address"
      trigger_tx ← validate_trigger emergency rollover
      validate_withdrawal emergency trigger_tx hot.script_pubkey expected_delay

    unfoldable pub validate_connector_emergency : Psbt → Result (Unit {0})
    validate_connector_emergency rollover = do
      selected ← select_emergency manifest.emergency_access_limit_sats manifest.emergency_access
      elim selected [ none ↦ ok tt | some emergency ↦ validate_enabled emergency rollover ]
