-- ===== src/Ceremony/Validate/Funds.antt =====
-- The allowance chain of a batch that `validate_batch` accepts.
use anzen.Prelude.{
  ◌≤◌, ap, ◌∙◌, ℕ, ◌+◌, ◌*◌, ◌≡◌, true, some, List, [], ◌∷◌, ok, arith, get_elem?, length,
}
use anzen.Constants.{connector_value_sats, monthly_allowance_delay_seconds, months_per_rollover}
use anzen.Bitcoin.{Bitcoin}
use anzen.Storage.{VaultConfig}
use anzen.Policy.{VaultPolicy}
use anzen.Ceremony.Types.{BatchManifest, AllowanceStep}
use anzen.Ceremony.Workspace.{Workspace}
use anzen.Ceremony.Templates.{output_of}
use anzen.Ceremony.Validate.Allowances.{
  ChainState, Source, take_source, connector_at, initial_chain, validate_steps, validate_allowances,
}
use anzen.Ceremony.Validate.Chain.{Chain, Chain-funds, validate_steps-Chain, total_fees}
use anzen.Ceremony.Validate.Outputs.{check_output_indexes-eq-ok}
use anzen.Ceremony.Validate.Rollover.{Opened, validate_batch, has_allowances}
use anzen.Ceremony.Validate.Accepted.{opened, accepts, rollover_outputs, allowances_length}

module _ (lib : Bitcoin) (config : VaultConfig) (manifest : BatchManifest) (files : Workspace)
    {policy : VaultPolicy} (accepted : validate_batch lib config manifest files ≡ ok policy) where
  abbrev opens : Opened
  opens = opened lib config manifest files accepted

  module _ (enabled : has_allowances manifest ≡ true) where
    first_output :
        get_elem? opens.rollover.unsigned_tx.output 0
        ≡ some (output_of manifest.allowance_value_sats opens.policy.address.script_pubkey)
    first_output = rw (rollover_outputs lib config manifest files accepted, enabled)

    -- The loop of `validate_allowances` starts from the first output of the rollover.
    initial_chain-eq-ok :
        (delay : ℕ) × (state : ChainState) × (lib.from_seconds_ceil monthly_allowance_delay_seconds
          ≡ some delay)
        × (initial_chain lib config manifest files opens.policy opens.controller opens.rollover
            ≡ ok state)
        × (validate_steps lib config manifest files opens.policy opens.controller delay state 0
              manifest.allowances
            ≡ ok tt)
    unfolding validate_allowances
    initial_chain-eq-ok =
        let h = (accepts lib config manifest files accepted).allowances in ground arith

    -- The output and the connector that the first allowance spends.
    abbrev pub rollover_source : Source
    rollover_source = record {
      outpoint = record { txid = lib.compute_txid opens.rollover.unsigned_tx; vout = 0 };
      prevout = output_of manifest.allowance_value_sats opens.policy.address.script_pubkey;
      connector = connector_at (lib.compute_txid opens.rollover.unsigned_tx) 2;
    }

    initial_chain-source :
        {state : ChainState}
        → initial_chain lib config manifest files opens.policy opens.controller opens.rollover
          ≡ ok state
        → take_source state ≡ ok rollover_source
    unfolding initial_chain take_source
    initial_chain-source h =
        let (chain_vout, _, monthly, _, _) =
          check_output_indexes-eq-ok lib manifest
            (accepts lib config manifest files accepted).indexes in
        let prevout = first_output in let on = enabled in ground arith

    -- With monthly spending, an accepted batch holds a chain of allowances that starts at the
    -- rollover's first output and its monthly connector: each step waits for the monthly delay,
    -- releases exactly the monthly limit to its hot address, and spends what the step before it
    -- created, down to the last, which leaves nothing.
    pub validate_batch-Chain :
        (delay : ℕ) × (lib.from_seconds_ceil monthly_allowance_delay_seconds ≡ some delay)
        × Chain lib config manifest files opens.policy opens.controller delay rollover_source
            manifest.allowances
    validate_batch-Chain =
        let (delay, state, known, initial, steps) = initial_chain-eq-ok in
        (
          delay,
          known,
          go state (initial_chain-source initial) manifest.allowances
              (allowances_length lib config manifest files
                (accepts lib config manifest files accepted).opens).0
              steps,
        )
      where
        go :
            {delay : ℕ} (state : ChainState)
            → take_source state ≡ ok rollover_source
            → (allowances : List AllowanceStep) → length allowances ≡ manifest.allowance_count
            → validate_steps lib config manifest files opens.policy opens.controller delay state 0
                allowances
              ≡ ok tt
            → Chain lib config manifest files opens.policy opens.controller delay rollover_source
                allowances
        go state took [] n steps = absurd (ground arith)
        go {delay} state took (allowance ∷ rest) n steps =
            validate_steps-Chain lib config manifest files opens.policy opens.controller delay state
              0 allowance rest rollover_source took (omega arith) steps

    -- The allowance chain's output is funded to the satoshi: with the monthly connector it is
    -- one monthly limit for each of at most twelve steps, and the fees of those steps.
    pub validate_batch-funds :
        (manifest.allowance_value_sats + connector_value_sats
          ≡ manifest.allowance_count * manifest.monthly_limit_sats + total_fees manifest.allowances)
        × (manifest.allowance_count ≤ months_per_rollover)
    validate_batch-funds =
        let (delay, _, chain) = validate_batch-Chain in
        let (counted, bounded) =
          allowances_length lib config manifest files
            (accepts lib config manifest files accepted).opens in
        (
          Chain-funds lib config manifest files opens.policy opens.controller delay chain
              ∙ ap (λ (n : ℕ). n * manifest.monthly_limit_sats + total_fees manifest.allowances)
                  counted,
          bounded,
        )
