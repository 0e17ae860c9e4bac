-- ===== src/Ceremony/EmergencyBuild.antt =====
-- `build_emergency_access` of src/core/ceremony.rs: the phone's two presigned transactions.
pub mod Filled
pub mod Presigned
pub mod Spends
pub mod Checks
pub mod Built
pub mod Agrees
use anzen.Prelude.{
  ℕ, String, List, [], ◌∷◌, Result, panic, ok, err, ◌>>=◌, ◌>>◌, bail_if, context, ltb, checked_add,
  checked_sub,
}
use anzen.Constants.{connector_value_sats, emergency_access_delay_seconds}
use anzen.Bitcoin.{Bitcoin, Script, OutPoint, TxOut, Transaction, Psbt, Address, Keypair}
use anzen.Policy.{VaultPolicy, ControllerPolicy, cooperative}
use anzen.Transactions.Construct.{create_policy_psbt}
use anzen.Transactions.Signing.{sign_vault_psbt_inputs}
use anzen.Ceremony.Types.{BatchTransaction, ConnectorState, EmergencyAccessPolicy}
use anzen.Ceremony.Workspace.{Workspace, Outcomes, write_psbt}
use anzen.Ceremony.Amounts.{and_then}
use anzen.Ceremony.Templates.{
  output_of, emergency_trigger_template, emergency_trigger_fee, emergency_withdrawal_template,
  emergency_withdrawal_fee,
}

-- The amounts of an emergency access.
pub record EmergencyAmounts : Type 0 where
  pub withdrawal_fee : ℕ
  pub staging_value_sats : ℕ
  pub trigger_fee : ℕ
  pub vault_change_value_sats : ℕ

module _ (lib : Bitcoin) (null : OutPoint) (policy : VaultPolicy) (controller : ControllerPolicy)
    (source_outpoint : OutPoint) (source_txout : TxOut) (trigger_connector : ConnectorState)
    (amount_sats delay_sequence : ℕ) (hot_address : Address) (vault_script : Script) where
  -- The first part, up to the trigger's transaction.
  unfoldable pub emergency_amounts : Result EmergencyAmounts
  unfolding checked_add checked_sub
  emergency_amounts = do
    withdrawal_fee ←
        emergency_withdrawal_fee lib null policy controller null amount_sats delay_sequence
          hot_address.script_pubkey
    staging_value_sats ←
        context
          (and_then (checked_add amount_sats withdrawal_fee)
            (λ value. checked_sub value connector_value_sats))
          "emergency access amount and fee cannot be funded with the connector"
    bail_if (ltb staging_value_sats (lib.minimal_non_dust vault_script))
        "emergency staging output would be dust"
    trigger_fee ←
        emergency_trigger_fee lib null policy controller source_outpoint staging_value_sats
          (lib.minimal_non_dust vault_script) vault_script
    vault_change_value_sats ←
        context
          (and_then (checked_sub source_txout.value staging_value_sats)
            (λ value. checked_sub value trigger_fee))
          "vault remainder cannot fund the configured emergency access amount and fees"
    bail_if (ltb vault_change_value_sats (lib.minimal_non_dust vault_script))
        "emergency access trigger would create dust vault change"
    ok (record {
      withdrawal_fee = withdrawal_fee;
      staging_value_sats = staging_value_sats;
      trigger_fee = trigger_fee;
      vault_change_value_sats = vault_change_value_sats;
    })

  abbrev pub trigger_tx : EmergencyAmounts → Transaction
  trigger_tx amounts =
      emergency_trigger_template lib source_outpoint trigger_connector.outpoint
        amounts.staging_value_sats amounts.vault_change_value_sats vault_script
        controller.address.script_pubkey

  abbrev pub staging_outpoint : EmergencyAmounts → OutPoint
  staging_outpoint amounts = record { txid = lib.compute_txid (trigger_tx amounts); vout = 0 }

  abbrev pub withdrawal_connector : EmergencyAmounts → ConnectorState
  withdrawal_connector amounts = record {
    outpoint = record { txid = lib.compute_txid (trigger_tx amounts); vout = 2 };
    value_sats = connector_value_sats;
  }

  abbrev pub withdrawal_tx : EmergencyAmounts → Transaction
  withdrawal_tx amounts =
      emergency_withdrawal_template lib (staging_outpoint amounts)
        (withdrawal_connector amounts).outpoint amount_sats delay_sequence hot_address.script_pubkey

  abbrev pub batch_transaction : String → Transaction → ℕ → BatchTransaction
  batch_transaction file tx fee = record {
    psbt_file = file;
    unsigned_txid = lib.txid_to_string (lib.compute_txid tx);
    fee_sats = fee;
    vault_input_indexes = 0 ∷ [];
    controller_input_indexes = 1 ∷ [];
  }

  -- The value that the function returns.
  abbrev pub emergency_access : EmergencyAmounts → EmergencyAccessPolicy
  emergency_access amounts = record {
    amount_sats = amount_sats;
    delay_seconds = emergency_access_delay_seconds;
    delay_sequence = delay_sequence;
    hot_address = hot_address.text;
    staging_vout = 0;
    staging_value_sats = amounts.staging_value_sats;
    vault_change_vout = 1;
    vault_change_value_sats = amounts.vault_change_value_sats;
    trigger_connector = trigger_connector;
    withdrawal_connector = withdrawal_connector amounts;
    trigger = batch_transaction "emergency/trigger.psbt" (trigger_tx amounts) amounts.trigger_fee;
    withdrawal =
        batch_transaction "emergency/withdrawal.psbt" (withdrawal_tx amounts)
          amounts.withdrawal_fee;
  }

  -- A presigned transaction, signed by the phone's vault key pair.
  unfoldable pub presign : Keypair → Transaction → TxOut → Result Psbt
  presign phone tx vault_prevout = do
    let connector_prevout = output_of connector_value_sats controller.address.script_pubkey
    psbt ←
        create_policy_psbt lib tx (vault_prevout ∷ connector_prevout ∷ []) (0 ∷ []) (1 ∷ []) policy
          controller
    sign_vault_psbt_inputs lib psbt policy cooperative phone (0 ∷ [])

  -- All but the writes: the amounts, the trigger's and the withdrawal's PSBT.
  unfoldable pub presign_emergency : Keypair → Result (EmergencyAmounts × Psbt × Psbt)
  presign_emergency phone = do
    amounts ← emergency_amounts
    trigger_psbt ← presign phone (trigger_tx amounts) source_txout
    withdrawal_psbt ←
        presign phone (withdrawal_tx amounts) (output_of amounts.staging_value_sats vault_script)
    ok (amounts, trigger_psbt, withdrawal_psbt)

  -- The writes, once both PSBTs are signed.
  unfoldable pub write_presigned :
      Outcomes
      → Workspace
      → Result (EmergencyAmounts × Psbt × Psbt)
      → Workspace × Result EmergencyAccessPolicy
  unfolding write_psbt
  write_presigned outcomes files panic = (files, panic)
  write_presigned outcomes files (err message) = (files, err message)
  write_presigned outcomes files (ok (amounts, trigger_psbt, withdrawal_psbt)) =
      let (with_trigger, first) =
        write_psbt lib outcomes files "emergency/trigger.psbt" trigger_psbt in
      elim first [
        | panic ↦ (with_trigger, panic)
        | err message ↦ (with_trigger, err message)
        | ok done ↦
            let (with_both, second) =
              write_psbt lib outcomes with_trigger "emergency/withdrawal.psbt" withdrawal_psbt in
            (with_both, (second >> ok (emergency_access amounts)))
      ]

  -- The batch directory after the call, beside the outcome.
  unfoldable pub build_emergency_access :
      Keypair → Outcomes → Workspace → Workspace × Result EmergencyAccessPolicy
  build_emergency_access phone outcomes files =
      write_presigned outcomes files (presign_emergency phone)
