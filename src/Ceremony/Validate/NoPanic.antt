-- ===== src/Ceremony/Validate/NoPanic.antt =====
-- The check of a batch ends without a panic, for every manifest and every directory.
use anzen.Prelude.{
  ℕ, suc, ◌≡◌, ◌≢◌, Bool, true, none, List, [], ◌∷◌, ok, panic, arith, get_elem?, length,
}
use anzen.Bitcoin.{Bitcoin, Script, TxOut, Transaction, Psbt}
use anzen.Storage.{VaultConfig}
use anzen.Policy.{VaultPolicy, ControllerPolicy}
use anzen.Ceremony.Types.{BatchManifest, AllowanceStep, EmergencyAccessPolicy}
use anzen.Ceremony.Workspace.{Workspace}
use anzen.Ceremony.Validate.Total.{
  get_elem?-ne-none, read_psbt-ne-panic, bitcoin_network-ne-panic, child_fee-ne-panic,
  validate_connector_child-ne-panic, validate_connector_child-inputs,
}
use anzen.Ceremony.Validate.Outputs.{form-length, check_output_indexes-eq-ok}
use anzen.Ceremony.Validate.Allowances.{
  ChainState, take_source, check_step_metadata, check_authorization, check_continuing, check_final,
  validate_step, validate_steps, initial_chain, validate_allowances,
}
use anzen.Ceremony.Validate.Rollover.{
  Opened, check_rollover_form, check_output_indexes, check_batch, validate_batch,
}
use anzen.Ceremony.Validate.Emergency.{
  select_emergency, check_emergency_metadata, check_trigger, check_withdrawal, validate_trigger,
  validate_withdrawal, validate_enabled, validate_connector_emergency,
}
use anzen.Ceremony.Validate.Triggers.{validate_trigger-eq-ok, check_trigger-eq-ok}
use anzen.Ceremony.Validate.NoPanicRollover.{
  open_batch-ne-panic, check_rollover_form-ne-panic, check_rollover_amounts-ne-panic,
  check_rollover_outputs-ne-panic,
}

module _ (lib : Bitcoin) where
  check_authorization-ne-panic :
      (tx : Transaction) (next : Bool) (hot : Script) (limit delay : ℕ)
      → length tx.input ≡ 2
      → check_authorization lib tx next hot limit delay ≢ panic
  unfolding check_authorization
  check_authorization-ne-panic tx next hot limit delay two h = ground (
    arith,
    get_elem?-ne-none tx.input 0,
    get_elem?-ne-none tx.input 1,
    get_elem?-ne-none tx.output 0,
  )

  check_authorization-outputs :
      (tx : Transaction) (hot : Script) (limit delay : ℕ)
      → check_authorization lib tx true hot limit delay ≡ ok tt
      → length tx.output ≡ 3
  unfolding check_authorization
  check_authorization-outputs tx hot limit delay h = ground arith

  check_continuing-ne-panic :
      (a : AllowanceStep) (tx : Transaction) (prevout : TxOut) (limit : ℕ) (vs cs : Script)
      → length tx.output ≡ 3
      → check_continuing lib a tx prevout limit vs cs ≢ panic
  unfolding check_continuing
  check_continuing-ne-panic a tx prevout limit vs cs three h =
      ground (arith, get_elem?-ne-none tx.output 1, get_elem?-ne-none tx.output 2)

  check_final-ne-panic :
      (a : AllowanceStep) (prevout : TxOut) (limit : ℕ) → check_final lib a prevout limit ≢ panic
  unfolding check_final
  check_final-ne-panic a prevout limit h = ground arith

  module _ (config : VaultConfig) (manifest : BatchManifest) (files : Workspace)
      (policy : VaultPolicy) (controller : ControllerPolicy) where
    validate_step-ne-panic :
        (delay : ℕ) (state : ChainState) (index : ℕ) (a : AllowanceStep)
        → validate_step lib config manifest files policy controller delay state index a ≢ panic
    unfolding validate_step take_source check_step_metadata
    validate_step-ne-panic delay state index a h = grind (
      arith,
      bitcoin_network-ne-panic config,
      read_psbt-ne-panic lib files,
      validate_connector_child-ne-panic lib,
      validate_connector_child-inputs lib,
      check_authorization-ne-panic,
      check_authorization-outputs,
      check_continuing-ne-panic,
      check_final-ne-panic,
      child_fee-ne-panic lib,
    )

    validate_steps-ne-panic :
        (delay : ℕ) (state : ChainState) (index : ℕ) (steps : List AllowanceStep)
        → validate_steps lib config manifest files policy controller delay state index steps ≢ panic
    unfolding validate_steps
    validate_steps-ne-panic delay state index [] h = ground arith
    validate_steps-ne-panic delay state index (a ∷ steps) h = grind (
      arith,
      validate_step-ne-panic delay state index a,
      λ (next : ChainState). validate_steps-ne-panic delay next (suc index) steps,
    )

    module _ (rollover : Psbt) (form : check_rollover_form lib manifest rollover ≡ ok tt)
        (indexes : check_output_indexes manifest ≡ ok tt) where
      initial_chain-ne-panic :
          initial_chain lib config manifest files policy controller rollover ≢ panic
      unfolding initial_chain
      initial_chain-ne-panic h =
          let (chain_vout, _, _, _, _) = check_output_indexes-eq-ok lib manifest indexes in
          let n = form-length lib manifest rollover form in
          ground (arith, n, chain_vout, get_elem?-ne-none rollover.unsigned_tx.output 0)

      validate_allowances-ne-panic :
          validate_allowances lib config manifest files policy controller rollover ≢ panic
      unfolding validate_allowances
      validate_allowances-ne-panic h =
          grind (arith, initial_chain-ne-panic, validate_steps-ne-panic)

      check_trigger-ne-panic :
          (e : EmergencyAccessPolicy) (tx : Transaction) (vs cs : Script)
          → length tx.input ≡ 2
          → check_trigger lib e tx vs cs ≢ panic
      unfolding check_trigger
      check_trigger-ne-panic e tx vs cs two h = ground (
        arith,
        get_elem?-ne-none tx.input 0,
        get_elem?-ne-none tx.input 1,
        get_elem?-ne-none tx.output 0,
        get_elem?-ne-none tx.output 1,
        get_elem?-ne-none tx.output 2,
      )

      check_withdrawal-ne-panic :
          (e : EmergencyAccessPolicy) (tx : Transaction) (hot : Script) (limit delay : ℕ)
          → length tx.input ≡ 2
          → check_withdrawal lib e tx hot limit delay ≢ panic
      unfolding check_withdrawal
      check_withdrawal-ne-panic e tx hot limit delay two h = ground (
        arith,
        get_elem?-ne-none tx.input 0,
        get_elem?-ne-none tx.input 1,
        get_elem?-ne-none tx.output 0,
      )

      remainder-in-range : get_elem? rollover.unsigned_tx.output manifest.remainder_vout ≢ none
      remainder-in-range =
          let (_, vout, _, _, _) = check_output_indexes-eq-ok lib manifest indexes in
          let n = form-length lib manifest rollover form in
          get_elem?-ne-none rollover.unsigned_tx.output manifest.remainder_vout
            (ground (arith, n, vout))

      validate_trigger-ne-panic :
          (e : EmergencyAccessPolicy)
          → validate_trigger lib config manifest files policy controller e rollover ≢ panic
      unfolding validate_trigger
      validate_trigger-ne-panic e h = grind (
        arith,
        remainder-in-range,
        read_psbt-ne-panic lib files,
        validate_connector_child-ne-panic lib,
        validate_connector_child-inputs lib,
        check_trigger-ne-panic e,
        child_fee-ne-panic lib,
      )

      validate_withdrawal-ne-panic :
          (e : EmergencyAccessPolicy) (tx : Transaction) (hot : Script) (delay : ℕ)
          → e.staging_vout ≡ 0
          → length tx.output ≡ 3
          → validate_withdrawal lib config manifest files policy controller e tx hot delay ≢ panic
      unfolding validate_withdrawal
      validate_withdrawal-ne-panic e tx hot delay zero_vout three h = grind (
        arith,
        get_elem?-ne-none tx.output e.staging_vout,
        read_psbt-ne-panic lib files,
        validate_connector_child-ne-panic lib,
        validate_connector_child-inputs lib,
        check_withdrawal-ne-panic e,
        child_fee-ne-panic lib,
      )

      validate_trigger-outputs :
          (e : EmergencyAccessPolicy) (tx : Transaction)
          → validate_trigger lib config manifest files policy controller e rollover ≡ ok tx
          → length tx.output ≡ 3
      validate_trigger-outputs e tx h =
          let (_, _, trigger, same, _, _, _, _, formed) =
            validate_trigger-eq-ok lib config manifest files policy controller rollover e h in
          let (three, _, _, _) =
            check_trigger-eq-ok lib config manifest files policy controller rollover e _ _ _
              formed in
          rw (← same) three

      validate_enabled-ne-panic :
          (e : EmergencyAccessPolicy)
          → validate_enabled lib config manifest files policy controller e rollover ≢ panic
      unfolding validate_enabled check_emergency_metadata
      validate_enabled-ne-panic e h = grind (
        arith,
        bitcoin_network-ne-panic config,
        validate_trigger-ne-panic e,
        validate_trigger-outputs e,
        validate_withdrawal-ne-panic e,
      )

      validate_connector_emergency-ne-panic :
          validate_connector_emergency lib config manifest files policy controller rollover ≢ panic
      unfolding validate_connector_emergency select_emergency
      validate_connector_emergency-ne-panic h = grind (arith, validate_enabled-ne-panic)

  module _ (config : VaultConfig) (manifest : BatchManifest) (files : Workspace) where
    check_output_indexes-ne-panic : check_output_indexes manifest ≢ panic
    unfolding check_output_indexes
    check_output_indexes-ne-panic h = ground arith

    check_batch-ne-panic : (opened : Opened) → check_batch lib config manifest files opened ≢ panic
    unfolding check_batch
    check_batch-ne-panic opened h = ground (
      arith,
      check_rollover_form-ne-panic lib manifest opened.rollover,
      check_rollover_amounts-ne-panic lib manifest opened.rollover opened.policy opened.controller,
      check_output_indexes-ne-panic,
      check_rollover_outputs-ne-panic lib manifest opened.rollover
          opened.policy.address.script_pubkey opened.controller.address.script_pubkey,
      validate_allowances-ne-panic config manifest files opened.policy opened.controller
          opened.rollover,
      validate_connector_emergency-ne-panic config manifest files opened.policy opened.controller
          opened.rollover,
    )

    -- The check of a batch ends with a policy or with an error, for every configuration, manifest
    -- and directory: it indexes no list out of its range and unwraps no missing value.
    pub validate_batch-ne-panic : validate_batch lib config manifest files ≢ panic
    unfolding validate_batch
    validate_batch-ne-panic h =
        grind (arith, open_batch-ne-panic lib config manifest files, check_batch-ne-panic)
