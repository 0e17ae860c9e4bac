-- ===== src/Ceremony/EmergencyBuild/Built.antt =====
-- The parts of an emergency access that was built: its writes, its inputs and its fees.
use anzen.Prelude.{ℕ, ◌<>◌, ◌≡◌, refl, ◌∷◌, ◌∙◌, Result, panic, err, ok, arith, nat_eq, string_eq}
use anzen.Bitcoin.{Bitcoin, Script, OutPoint, TxOut, Psbt, Address, Keypair}
use anzen.Policy.{VaultPolicy, ControllerPolicy}
use anzen.Ceremony.Types.{ConnectorState, EmergencyAccessPolicy}
use anzen.Ceremony.Templates.{
  output_of, child_fee, emergency_trigger_template, emergency_withdrawal_template,
  emergency_trigger_fee, emergency_withdrawal_fee,
}
use anzen.Ceremony.Workspace.{Workspace, Outcomes, write_psbt}
use anzen.Ceremony.EmergencyBuild.{
  EmergencyAmounts, emergency_amounts, trigger_tx, withdrawal_tx, emergency_access, presign,
  presign_emergency, write_presigned, staging_outpoint, withdrawal_connector,
}
use anzen.Ceremony.EmergencyBuild.Filled.{KeepsInputs}
use anzen.Ceremony.EmergencyBuild.Spends.{ShapeOnly, IsChild, child_fee-shape}

module _ (lib : Bitcoin) (null : OutPoint) (policy : VaultPolicy) (controller : ControllerPolicy)
    (source_outpoint : OutPoint) (source_txout : TxOut) (trigger_connector : ConnectorState)
    (amount_sats delay_sequence : ℕ) (hot_address : Address) (vault_script : Script) where
  pub presign_emergency-eq-ok :
      (phone : Keypair) (a : EmergencyAmounts) (t w : Psbt)
      → presign_emergency lib null policy controller source_outpoint source_txout trigger_connector
          amount_sats delay_sequence hot_address vault_script phone
        ≡ ok (a, t, w)
      → (emergency_amounts lib null policy controller source_outpoint source_txout trigger_connector
            amount_sats delay_sequence hot_address vault_script
          ≡ ok a)
        × (presign lib null policy controller source_outpoint source_txout trigger_connector
              amount_sats delay_sequence hot_address vault_script phone
              (trigger_tx lib null policy controller source_outpoint source_txout trigger_connector
                amount_sats delay_sequence hot_address vault_script a)
              source_txout
            ≡ ok t)
        × (presign lib null policy controller source_outpoint source_txout trigger_connector
              amount_sats delay_sequence hot_address vault_script phone
              (withdrawal_tx lib null policy controller source_outpoint source_txout
                trigger_connector amount_sats delay_sequence hot_address vault_script a)
              (output_of a.staging_value_sats vault_script)
            ≡ ok w)
  unfolding presign_emergency
  presign_emergency-eq-ok phone a t w h = ground arith

  pub write_presigned-eq-ok :
      (outcomes : Outcomes) (files written : Workspace) (e : EmergencyAccessPolicy)
      (presigned : Result (EmergencyAmounts × Psbt × Psbt))
      → write_presigned lib null policy controller source_outpoint source_txout trigger_connector
          amount_sats delay_sequence hot_address vault_script outcomes files presigned
        ≡ (written, ok e)
      → (made : EmergencyAmounts × Psbt × Psbt) × (presigned ≡ ok made)
        × (written
            ≡ ("emergency/withdrawal.psbt", lib.psbt_to_string made.2 <> "\n")
              ∷ ("emergency/trigger.psbt", lib.psbt_to_string made.1 <> "\n")
              ∷ files)
        × (emergency_access lib null policy controller source_outpoint source_txout
              trigger_connector amount_sats delay_sequence hot_address vault_script made.0
            ≡ e)
  unfolding write_presigned write_psbt
  write_presigned-eq-ok outcomes files written e panic h = absurd (ground arith)
  write_presigned-eq-ok outcomes files written e (err message) h = absurd (ground arith)
  write_presigned-eq-ok outcomes files written e (ok (a, t, w)) h =
      ((a, t, w), refl, ground arith, ground arith)

  module _ (inputs : KeepsInputs lib) (shape : ShapeOnly lib) where
    pub trigger-IsChild :
        (a : EmergencyAmounts)
        → IsChild lib inputs
            (trigger_tx lib null policy controller source_outpoint source_txout trigger_connector
              amount_sats delay_sequence hot_address vault_script a)
            source_outpoint
            trigger_connector.outpoint
            (emergency_access lib null policy controller source_outpoint source_txout
              trigger_connector amount_sats delay_sequence hot_address vault_script a).trigger
    trigger-IsChild a = record {
      vault_input = _;
      connector_input = _;
      spends = refl;
      at_vault = refl;
      at_connector = refl;
      vault_indexes = refl;
      controller_indexes = refl;
      named = refl;
    }

    pub withdrawal-IsChild :
        (a : EmergencyAmounts)
        → IsChild lib inputs
            (withdrawal_tx lib null policy controller source_outpoint source_txout trigger_connector
              amount_sats delay_sequence hot_address vault_script a)
            (staging_outpoint lib null policy controller source_outpoint source_txout
              trigger_connector amount_sats delay_sequence hot_address vault_script a)
            (withdrawal_connector lib null policy controller source_outpoint source_txout
              trigger_connector amount_sats delay_sequence hot_address vault_script a).outpoint
            (emergency_access lib null policy controller source_outpoint source_txout
              trigger_connector amount_sats delay_sequence hot_address vault_script a).withdrawal
    withdrawal-IsChild a = record {
      vault_input = _;
      connector_input = _;
      spends = refl;
      at_vault = refl;
      at_connector = refl;
      vault_indexes = refl;
      controller_indexes = refl;
      named = refl;
    }

    estimates :
        (a : EmergencyAmounts)
        → emergency_amounts lib null policy controller source_outpoint source_txout
            trigger_connector amount_sats delay_sequence hot_address vault_script
          ≡ ok a
        → (child_fee lib
              (emergency_trigger_template lib source_outpoint null a.staging_value_sats
                (lib.minimal_non_dust vault_script)
                vault_script
                controller.address.script_pubkey)
              policy
              controller
            ≡ ok a.trigger_fee)
          × (child_fee lib
                (emergency_withdrawal_template lib null null amount_sats delay_sequence
                  hot_address.script_pubkey)
                policy
                controller
              ≡ ok a.withdrawal_fee)
    unfolding emergency_amounts emergency_trigger_fee emergency_withdrawal_fee
    estimates a built = (ground arith, ground arith)

    pub fees-agree :
        (a : EmergencyAmounts)
        → emergency_amounts lib null policy controller source_outpoint source_txout
            trigger_connector amount_sats delay_sequence hot_address vault_script
          ≡ ok a
        → (child_fee lib
              (trigger_tx lib null policy controller source_outpoint source_txout trigger_connector
                amount_sats delay_sequence hot_address vault_script a)
              policy
              controller
            ≡ ok a.trigger_fee)
          × (child_fee lib
                (withdrawal_tx lib null policy controller source_outpoint source_txout
                  trigger_connector amount_sats delay_sequence hot_address vault_script a)
                policy
                controller
              ≡ ok a.withdrawal_fee)
    fees-agree a built =
        let (by_trigger, by_withdrawal) = estimates a built in
        (
          child_fee-shape lib shape policy controller _ _ _ _ _ _ _ _ _ _ refl ∙ by_trigger,
          child_fee-shape lib shape policy controller _ _ _ _ _ _ _ _ _ _ refl ∙ by_withdrawal,
        )
