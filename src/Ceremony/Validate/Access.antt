-- ===== src/Ceremony/Validate/Access.antt =====
-- The emergency access of a batch that `validate_batch` accepts.
use anzen.Prelude.{ℕ, ◌+◌, ◌≡◌, ◌≢◌, Bool, true, false, some, List, ok, arith, get_elem?}
use anzen.Constants.{connector_value_sats}
use anzen.Bitcoin.{Bitcoin, TxOut}
use anzen.Storage.{VaultConfig}
use anzen.Policy.{VaultPolicy}
use anzen.Ceremony.Types.{BatchManifest, EmergencyAccessPolicy}
use anzen.Ceremony.Workspace.{Workspace}
use anzen.Ceremony.Templates.{output_of}
use anzen.Ceremony.Validate.Rollover.{Opened, validate_batch, has_allowances, has_emergency}
use anzen.Ceremony.Validate.Outputs.{check_output_indexes-eq-ok, template_outputs}
use anzen.Ceremony.Validate.Withdrawal.{
  EmergencyAccess, EmergencyAccess-conserves, validate_connector_emergency-EmergencyAccess,
}
use anzen.Ceremony.Validate.Accepted.{opened, accepts, rollover_outputs}

template_remainder :
    (ha he : Bool) (outs : List TxOut) (vout av rv : ℕ) (vs cs : List ℕ)
    → outs ≡ template_outputs ha he av rv vs cs
    → vout ≡ (elim ha [ true ↦ 1 | false ↦ 0 ])
    → get_elem? outs vout ≡ some (output_of rv vs)
template_remainder true true outs vout av rv vs cs e v = rw (e, v)
template_remainder true false outs vout av rv vs cs e v = rw (e, v)
template_remainder false true outs vout av rv vs cs e v = rw (e, v)
template_remainder false false outs vout av rv vs cs e v = rw (e, v)

module _ (lib : Bitcoin) (config : VaultConfig) (manifest : BatchManifest) (files : Workspace)
    {policy : VaultPolicy} (accepted : validate_batch lib config manifest files ≡ ok policy) where
  abbrev opens : Opened
  opens = opened lib config manifest files accepted

  remainder_output :
      get_elem? opens.rollover.unsigned_tx.output manifest.remainder_vout
      ≡ some (output_of manifest.remainder_value_sats opens.policy.address.script_pubkey)
  remainder_output =
      let checked = accepts lib config manifest files accepted in
      let (_, vout, _, _, _) = check_output_indexes-eq-ok lib manifest checked.indexes in
      template_remainder (has_allowances manifest) (has_emergency manifest)
        opens.rollover.unsigned_tx.output manifest.remainder_vout manifest.allowance_value_sats
        manifest.remainder_value_sats opens.policy.address.script_pubkey
        opens.controller.address.script_pubkey (rollover_outputs lib config manifest files accepted)
        vout

  -- With an emergency limit, an accepted batch holds the two presigned transactions of an
  -- emergency access, whose amounts add up: the remainder with the emergency connector is what is
  -- staged, the vault's change, the second connector and the trigger's fee; what is staged and
  -- the second connector are the limit, which goes to the hot address, and the withdrawal's fee.
  pub validate_batch-EmergencyAccess :
      manifest.emergency_access_limit_sats ≢ 0
      → (e : EmergencyAccessPolicy) × (manifest.emergency_access ≡ some e)
        × EmergencyAccess lib config manifest files opens.policy opens.controller opens.rollover e
        × (manifest.remainder_value_sats + connector_value_sats
            ≡ e.staging_value_sats + e.vault_change_value_sats + connector_value_sats
              + e.trigger.fee_sats)
        × (e.staging_value_sats + connector_value_sats
            ≡ manifest.emergency_access_limit_sats + e.withdrawal.fee_sats)
  validate_batch-EmergencyAccess enabled =
      let checked = accepts lib config manifest files accepted in
      let (e, present, access) =
        validate_connector_emergency-EmergencyAccess lib config manifest files _ _ _
          checked.emergency enabled in
      let (trigger, withdrawal) =
        EmergencyAccess-conserves lib config manifest files _ _ _ e access in
      let known = remainder_output in
      let source = access.triggers.remainder in
      (e, present, access, ground (arith, trigger), withdrawal)
