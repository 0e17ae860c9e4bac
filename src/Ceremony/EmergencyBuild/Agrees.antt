-- ===== src/Ceremony/EmergencyBuild/Agrees.antt =====
-- What the phone builds is what the hardware wallet's check of the emergency access asks for.
use anzen.Prelude.{ℕ, ◌<>◌, ◌+◌, ◌≤◌, ◌<◌, ◌≡◌, some, ok, u64_limit, nat_eq}
use anzen.Constants.{connector_value_sats}
use anzen.Bitcoin.{Bitcoin, Script, OutPoint, TxOut, Psbt, Address}
use anzen.Policy.{VaultPolicy, ControllerPolicy}
use anzen.Transactions.Unsigned.{KeepsTransaction}
use anzen.Ceremony.Types.{ConnectorState, EmergencyAccessPolicy}
use anzen.Ceremony.Templates.{output_of, child_fee}
use anzen.Ceremony.Workspace.{Workspace, read_file}
use anzen.Ceremony.EmergencyBuild.{withdrawal_connector}
use anzen.Ceremony.EmergencyBuild.Filled.{KeepsInputs}
use anzen.Ceremony.EmergencyBuild.Presigned.{Presigned}
use anzen.Ceremony.EmergencyBuild.Spends.{ShapeOnly}
use anzen.Ceremony.Validate.Parts.{validate_connector_child}
use anzen.Ceremony.Validate.Allowances.{connector_at}
use anzen.Ceremony.Validate.Emergency.{check_emergency_metadata, check_trigger, check_withdrawal}

module _ (lib : Bitcoin) (null : OutPoint) (policy : VaultPolicy) (controller : ControllerPolicy)
    (source_outpoint : OutPoint) (source_txout : TxOut) (trigger_connector : ConnectorState)
    (amount_sats delay_sequence : ℕ) (hot_address : Address) (vault_script : Script) where
  module _ (keeps : KeepsTransaction lib) (inputs : KeepsInputs lib) (shape : ShapeOnly lib)
      (fits : source_txout.value + connector_value_sats < u64_limit) where
    -- The files of both transactions hold PSBTs that the checks of the hardware wallet accept, and
    -- the amounts add up.
    pub record Agrees (written : Workspace) (e : EmergencyAccessPolicy) : Type 0 where
      pub trigger_psbt : Psbt
      pub withdrawal_psbt : Psbt
      pub trigger_file :
          read_file e.trigger.psbt_file written ≡ some (lib.psbt_to_string trigger_psbt <> "\n")
      pub withdrawal_file :
          read_file e.withdrawal.psbt_file written
          ≡ some (lib.psbt_to_string withdrawal_psbt <> "\n")
      pub metadata : check_emergency_metadata lib e amount_sats delay_sequence ≡ ok tt
      pub trigger :
          check_trigger lib e trigger_psbt.unsigned_tx vault_script controller.address.script_pubkey
          ≡ ok tt
      pub trigger_spends :
          validate_connector_child lib trigger_psbt source_txout source_outpoint
            trigger_connector.outpoint controller.address.script_pubkey e.trigger
          ≡ ok tt
      pub trigger_fee :
          child_fee lib trigger_psbt.unsigned_tx policy controller ≡ ok e.trigger.fee_sats
      pub connector :
          e.withdrawal_connector ≡ connector_at (lib.compute_txid trigger_psbt.unsigned_tx) 2
      pub withdrawal :
          check_withdrawal lib e withdrawal_psbt.unsigned_tx hot_address.script_pubkey amount_sats
            delay_sequence
          ≡ ok tt
      pub withdrawal_spends :
          validate_connector_child lib withdrawal_psbt
            (output_of e.staging_value_sats vault_script)
            (record { txid = lib.compute_txid trigger_psbt.unsigned_tx; vout = 0 })
            (record { txid = lib.compute_txid trigger_psbt.unsigned_tx; vout = 2 })
            controller.address.script_pubkey
            e.withdrawal
          ≡ ok tt
      pub withdrawal_fee :
          child_fee lib withdrawal_psbt.unsigned_tx policy controller ≡ ok e.withdrawal.fee_sats
      pub trigger_conserves :
          source_txout.value ≡ e.staging_value_sats + e.vault_change_value_sats + e.trigger.fee_sats
      pub withdrawal_conserves :
          e.staging_value_sats + connector_value_sats ≡ amount_sats + e.withdrawal.fee_sats
      pub staging_not_dust : lib.minimal_non_dust vault_script ≤ e.staging_value_sats
