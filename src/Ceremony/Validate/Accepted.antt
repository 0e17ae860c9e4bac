-- ===== src/Ceremony/Validate/Accepted.antt =====
-- What holds of a batch that `validate_batch` accepts.
use anzen.Prelude.{◌≤◌, ap, ◌∙◌, inl, inr, Bool-cases, ◌+◌, ◌*◌, ◌≡◌, ok, arith, length}
use anzen.Constants.{connector_value_sats, months_per_rollover}
use anzen.Bitcoin.{Bitcoin, Network}
use anzen.Storage.{VaultConfig, bitcoin_network}
use anzen.Policy.{VaultPolicy, vault_from_descriptor}
use anzen.Ceremony.Types.{BatchManifest}
use anzen.Ceremony.Workspace.{Workspace, read_psbt}
use anzen.Ceremony.Amounts.{output_values}
use anzen.Ceremony.Templates.{from_bool}
use anzen.Transactions.Sums.{sum}
use anzen.Ceremony.Validate.Parts.{controller_policy}
use anzen.Ceremony.Validate.Allowances.{validate_allowances}
use anzen.Ceremony.Validate.Emergency.{validate_connector_emergency}
use anzen.Ceremony.Validate.Outputs.{
  template_outputs, check_rollover_outputs-eq-template, check_rollover_amounts-conserves,
  total-template_outputs, check_output_indexes-eq-ok,
}
use anzen.Ceremony.Validate.Inputs.{Funded, check_rollover-Funded}
use anzen.Ceremony.Validate.Rollover.{
  Opened, open_batch, check_batch, validate_batch, check_manifest, check_rollover_form,
  check_rollover_amounts, check_output_indexes, check_rollover_outputs, has_allowances,
  has_emergency,
}

module _ (lib : Bitcoin) (config : VaultConfig) (manifest : BatchManifest) (files : Workspace) where
  -- What the batch holds, with every check passed.
  pub record Accepted (opened : Opened) : Type 0 where
    pub opens : open_batch lib config manifest files ≡ ok opened
    pub form : check_rollover_form lib manifest opened.rollover ≡ ok tt
    pub amounts :
        check_rollover_amounts lib manifest opened.rollover opened.policy opened.controller ≡ ok tt
    pub indexes : check_output_indexes manifest ≡ ok tt
    pub outputs :
        check_rollover_outputs lib manifest opened.rollover.unsigned_tx
          opened.policy.address.script_pubkey opened.controller.address.script_pubkey
        ≡ ok tt
    pub allowances :
        validate_allowances lib config manifest files opened.policy opened.controller
          opened.rollover
        ≡ ok tt
    pub emergency :
        validate_connector_emergency lib config manifest files opened.policy opened.controller
          opened.rollover
        ≡ ok tt

  check_batch-Accepted :
      (opened : Opened)
      → open_batch lib config manifest files ≡ ok opened
      → check_batch lib config manifest files opened ≡ ok tt
      → Accepted opened
  unfolding check_batch
  check_batch-Accepted opened opens h = record {
    opens = opens;
    form = ground arith;
    amounts = ground arith;
    indexes = ground arith;
    outputs = ground arith;
    allowances = ground arith;
    emergency = ground arith;
  }

  pub validate_batch-eq-ok :
      {policy : VaultPolicy}
      → validate_batch lib config manifest files ≡ ok policy
      → (opened : Opened) × (open_batch lib config manifest files ≡ ok opened)
        × (check_batch lib config manifest files opened ≡ ok tt)
        × (opened.policy ≡ policy)
  unfolding validate_batch
  validate_batch-eq-ok h = ground arith

  open_batch-eq-ok :
      {opened : Opened}
      → open_batch lib config manifest files ≡ ok opened
      → (network : Network) × (bitcoin_network config ≡ ok network)
        × (check_manifest lib config manifest files ≡ ok tt)
        × (vault_from_descriptor lib config.vault_descriptor network ≡ ok opened.policy)
        × (controller_policy lib config ≡ ok opened.controller)
        × (read_psbt lib files manifest.rollover.psbt_file ≡ ok opened.rollover)
  unfolding open_batch
  open_batch-eq-ok h = ground arith

  check_manifest-counts :
      check_manifest lib config manifest files ≡ ok tt
      → (length manifest.allowances ≡ manifest.allowance_count)
        × (manifest.allowance_count ≤ months_per_rollover)
  unfolding check_manifest
  check_manifest-counts h = ground arith

  pub allowances_length :
      {opened : Opened}
      → open_batch lib config manifest files ≡ ok opened
      → (length manifest.allowances ≡ manifest.allowance_count)
        × (manifest.allowance_count ≤ months_per_rollover)
  allowances_length opens = check_manifest-counts (open_batch-eq-ok opens).2

  module _ {policy : VaultPolicy}
      (accepted : validate_batch lib config manifest files ≡ ok policy) where
    pub opened : Opened
    opened = (validate_batch-eq-ok accepted).0

    pub accepts : Accepted opened
    unfolding opened
    accepts =
        let (_, opens, checked, _) = validate_batch-eq-ok accepted in
        check_batch-Accepted _ opens checked

    -- The rollover's outputs are the allowance chain's output, the remainder and the connectors.
    pub rollover_outputs :
        opened.rollover.unsigned_tx.output
        ≡ template_outputs
            (has_allowances manifest)
            (has_emergency manifest)
            manifest.allowance_value_sats
            manifest.remainder_value_sats
            opened.policy.address.script_pubkey
            opened.controller.address.script_pubkey
    rollover_outputs =
        check_rollover_outputs-eq-template lib manifest opened.rollover _ _ accepts.form
          accepts.indexes accepts.outputs

    -- Each input of an accepted rollover has one role and spends an output of the vault's or of the
    -- controller's script, by its role. What they spend is what the manifest says, and it is the
    -- allowance chain's output, the remainder, one connector for each enabled feature and the fee.
    pub validate_batch-conserves :
        Funded lib manifest opened.rollover opened.policy.address.script_pubkey
          opened.controller.address.script_pubkey
        × (manifest.total_input_sats
            ≡ manifest.allowance_value_sats
              + manifest.remainder_value_sats
              + connector_value_sats
                * (from_bool (has_allowances manifest) + from_bool (has_emergency manifest))
              + manifest.rollover.fee_sats)
        × (manifest.total_input_sats ≡ manifest.vault_input_sats + manifest.controller_input_sats)
    validate_batch-conserves =
        let (conserves, split) =
          check_rollover_amounts-conserves lib manifest opened.rollover opened.policy
            opened.controller accepts.amounts in
        let disabled = (check_output_indexes-eq-ok lib manifest accepts.indexes).4 in
        let total =
          ap (λ outputs. sum (output_values outputs)) rollover_outputs
          ∙ total-template_outputs (has_allowances manifest) (has_emergency manifest)
              manifest.allowance_value_sats manifest.remainder_value_sats
              opened.policy.address.script_pubkey opened.controller.address.script_pubkey in
        (
          check_rollover-Funded lib manifest opened.rollover opened.policy opened.controller
              accepts.form accepts.amounts,
          elim (Bool-cases (has_allowances manifest)) [
            | inl e ↦ ground (arith, conserves, total, e)
            | inr e ↦ ground (arith, conserves, total, e, disabled e)
          ],
          split,
        )
