-- ===== src/Ceremony/Approved/Limits.antt =====
-- The check of a signed batch does not read the limits of the configuration.
use anzen.Prelude.{ℕ, suc, ◌≡◌, refl, List, [], ◌∷◌, ok, ◌>>=◌, ◌>>◌, arith}
use anzen.Bitcoin.{Bitcoin, Psbt}
use anzen.Storage.{VaultConfig, bitcoin_network}
use anzen.Policy.{VaultPolicy, ControllerPolicy}
use anzen.Ceremony.Types.{BatchManifest, AllowanceStep}
use anzen.Ceremony.Workspace.{Workspace}
use anzen.Ceremony.Validate.Parts.{controller_policy}
use anzen.Ceremony.Validate.Allowances.{
  ChainState, validate_step, validate_steps, initial_chain, validate_allowances,
}
use anzen.Ceremony.Validate.Emergency.{
  validate_trigger, validate_withdrawal, validate_enabled, validate_connector_emergency,
}
use anzen.Ceremony.Validate.Rollover.{
  Opened, check_manifest, open_batch, check_batch, validate_batch,
}
use anzen.Ceremony.Amounts.{monthly_delay_sequence}
use anzen.Ceremony.Approved.{validate_approved_batch}

module _ (lib : Bitcoin) (config : VaultConfig) (monthly access : ℕ) where
  abbrev limited : VaultConfig
  limited = record config { monthly_limit_sats = monthly; emergency_access_limit_sats = access }

  module _ (manifest : BatchManifest) (files : Workspace) where
    module _ (policy : VaultPolicy) (controller : ControllerPolicy) where
      validate_step-limits :
          (delay : ℕ) (state : ChainState) (index : ℕ) (allowance : AllowanceStep)
          → validate_step lib limited manifest files policy controller delay state index allowance
            ≡ validate_step lib config manifest files policy controller delay state index allowance
      unfolding validate_step bitcoin_network
      validate_step-limits delay state index allowance = refl

      validate_steps-limits :
          (delay : ℕ) (allowances : List AllowanceStep) (state : ChainState) (index : ℕ)
          → validate_steps lib limited manifest files policy controller delay state index allowances
            ≡ validate_steps lib config manifest files policy controller delay state index
                allowances
      unfolding validate_steps
      validate_steps-limits delay [] state index = refl
      validate_steps-limits delay (allowance ∷ allowances) state index =
          let step = validate_step-limits delay state index allowance in
          let rest : (λ next.
            validate_steps lib limited manifest files policy controller delay next (suc index)
              allowances)
              ≡ (λ next.
                  validate_steps lib config manifest files policy controller delay next (suc index)
                    allowances) =
            λ i next. validate_steps-limits delay allowances next (suc index) i in
          λ i. step i >>= rest i

      validate_allowances-limits :
          (rollover : Psbt)
          → validate_allowances lib limited manifest files policy controller rollover
            ≡ validate_allowances lib config manifest files policy controller rollover
      unfolding validate_allowances initial_chain
      validate_allowances-limits rollover = λ i.
          initial_chain lib config manifest files policy controller rollover >>= λ state.
          monthly_delay_sequence lib >>= λ delay.
          validate_steps-limits delay manifest.allowances state 0 i

      validate_connector_emergency-limits :
          (rollover : Psbt)
          → validate_connector_emergency lib limited manifest files policy controller rollover
            ≡ validate_connector_emergency lib config manifest files policy controller rollover
      unfolding validate_connector_emergency validate_enabled validate_trigger validate_withdrawal
          bitcoin_network
      validate_connector_emergency-limits rollover = refl

    check_batch-limits :
        (opened : Opened)
        → check_batch lib limited manifest files opened
          ≡ check_batch lib config manifest files opened
    unfolding check_batch
    check_batch-limits opened =
        let allowances =
          validate_allowances-limits opened.policy opened.controller opened.rollover in
        let emergency =
          validate_connector_emergency-limits opened.policy opened.controller opened.rollover in
        grind arith

    open_batch-limits : open_batch lib limited manifest files ≡ open_batch lib config manifest files
    unfolding open_batch check_manifest controller_policy bitcoin_network
    open_batch-limits = refl

    validate_batch-limits :
        validate_batch lib limited manifest files ≡ validate_batch lib config manifest files
    unfolding validate_batch
    validate_batch-limits =
        λ i. open_batch-limits i >>= λ opened. check_batch-limits opened i >> ok opened.policy

  -- A batch passes with other limits in the configuration exactly as it passes with these.
  pub validate_approved_batch-limits :
      (manifest : BatchManifest) (files : Workspace)
      → validate_approved_batch lib limited manifest files
        ≡ validate_approved_batch lib config manifest files
  unfolding validate_approved_batch
  validate_approved_batch-limits manifest files =
      let batch = validate_batch-limits manifest files in rw batch
