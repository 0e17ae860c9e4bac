-- ===== src/Ceremony/EmergencyBuild/Checks.antt =====
-- The amounts of an emergency access, and the checks that its metadata and templates pass.
use anzen.Prelude.{ℕ, ◌+◌, ◌≤◌, ◌<◌, ◌≡◌, ok, arith, u64_limit, nat_eq, string_eq}
use anzen.Constants.{connector_value_sats}
use anzen.Bitcoin.{Bitcoin, Script, OutPoint, TxOut, Address}
use anzen.Policy.{VaultPolicy, ControllerPolicy}
use anzen.Ceremony.Types.{ConnectorState, EmergencyAccessPolicy}
use anzen.Ceremony.EmergencyBuild.{
  EmergencyAmounts, emergency_amounts, trigger_tx, withdrawal_tx, emergency_access,
}
use anzen.Ceremony.Validate.Emergency.{check_emergency_metadata, check_trigger, check_withdrawal}

module _ (lib : Bitcoin) (null : OutPoint) (policy : VaultPolicy) (controller : ControllerPolicy)
    (source_outpoint : OutPoint) (source_txout : TxOut) (trigger_connector : ConnectorState)
    (amount_sats delay_sequence : ℕ) (hot_address : Address) (vault_script : Script) where
  pub emergency_amounts-eq-ok :
      (a : EmergencyAmounts)
      → emergency_amounts lib null policy controller source_outpoint source_txout trigger_connector
          amount_sats delay_sequence hot_address vault_script
        ≡ ok a
      → (a.staging_value_sats + connector_value_sats ≡ amount_sats + a.withdrawal_fee)
        × (amount_sats + a.withdrawal_fee < u64_limit)
        × (source_txout.value ≡ a.staging_value_sats + a.vault_change_value_sats + a.trigger_fee)
        × (lib.minimal_non_dust vault_script ≤ a.staging_value_sats)
        × (lib.minimal_non_dust vault_script ≤ a.vault_change_value_sats)
  unfolding emergency_amounts
  emergency_amounts-eq-ok a h = ground arith

  module _ (a : EmergencyAmounts)
      (h : emergency_amounts lib null policy controller source_outpoint source_txout
          trigger_connector amount_sats delay_sequence hot_address vault_script
        ≡ ok a) where
    abbrev access : EmergencyAccessPolicy
    access =
        emergency_access lib null policy controller source_outpoint source_txout trigger_connector
          amount_sats delay_sequence hot_address vault_script a

    pub metadata-agrees : check_emergency_metadata lib access amount_sats delay_sequence ≡ ok tt
    unfolding check_emergency_metadata
    metadata-agrees = ground arith

    pub trigger-agrees :
        check_trigger lib access
          (trigger_tx lib null policy controller source_outpoint source_txout trigger_connector
            amount_sats delay_sequence hot_address vault_script a)
          vault_script
          controller.address.script_pubkey
        ≡ ok tt
    unfolding check_trigger
    trigger-agrees =
        let (_, _, _, _, change) = emergency_amounts-eq-ok a h in ground (arith, change)

    pub withdrawal-agrees :
        check_withdrawal lib access
          (withdrawal_tx lib null policy controller source_outpoint source_txout trigger_connector
            amount_sats delay_sequence hot_address vault_script a)
          hot_address.script_pubkey
          amount_sats
          delay_sequence
        ≡ ok tt
    unfolding check_withdrawal
    withdrawal-agrees =
        let (staged, fits, _, _, _) = emergency_amounts-eq-ok a h in ground (arith, staged, fits)
