-- ===== src/Ceremony/Validate/Allowances.antt =====
-- `validate_allowances`: the chain of monthly authorizations.
use anzen.Prelude.{
  ℕ, suc, ◌+◌, String, Bool, ◌||◌, Option, none, some, List, [], ◌∷◌, Result, ok, ◌>>=◌, ◌>>◌,
  bail_if, context, unwrap, ltb, leb, ◌!=◌, nat_eq, list_eq, option_eq, if◌then◌else◌, length,
  get_elem?, checked_add, checked_sub,
}
use anzen.Constants.{connector_value_sats, monthly_allowance_delay_seconds}
use anzen.Bitcoin.{Bitcoin, Script, OutPoint, TxOut, Transaction, Psbt}
use anzen.Storage.{VaultConfig, bitcoin_network}
use anzen.Policy.{VaultPolicy, ControllerPolicy}
use anzen.Ceremony.Types.{BatchManifest, AllowanceStep, ConnectorState, connector_eq}
use anzen.Ceremony.Workspace.{Workspace, read_psbt}
use anzen.Ceremony.Amounts.{and_then, monthly_delay_sequence}
use anzen.Ceremony.Templates.{child_fee}
use anzen.Ceremony.Validate.Parts.{validate_connector_child, validate_connector_output}

-- The three variables that the loop carries.
pub record ChainState : Type 0 where
  pub vault_outpoint : Option OutPoint
  pub vault_prevout : Option TxOut
  pub connector : Option ConnectorState

-- A connector output of the transaction `txid`.
abbrev pub connector_at : ℕ → ℕ → ConnectorState
connector_at txid vout = record {
  outpoint = record { txid = txid; vout = vout };
  value_sats = connector_value_sats;
}

-- The sources of one step, taken from the state.
pub record Source : Type 0 where
  pub outpoint : OutPoint
  pub prevout : TxOut
  pub connector : ConnectorState

unfoldable pub take_source : ChainState → Result Source
take_source state = do
  outpoint ← context state.vault_outpoint "allowance vault outpoint is missing"
  prevout ← context state.vault_prevout "allowance vault output is missing"
  connector ← context state.connector "allowance connector is missing"
  ok (record { outpoint = outpoint; prevout = prevout; connector = connector })

abbrev wrong_authorization : String
wrong_authorization = "allowance authorization step {step} violates the approved policy"

module _ (lib : Bitcoin) where
  -- The test of the metadata of a step.
  unfoldable pub check_step_metadata : AllowanceStep → ℕ → Source → ℕ → Result (Unit {0})
  check_step_metadata allowance step source expected_delay =
      bail_if
        (allowance.step != step
          || (allowance.delay_seconds != monthly_allowance_delay_seconds
              || (allowance.delay_sequence != expected_delay
                  || (allowance.chain_value_sats != source.prevout.value
                      || allowance.connector != source.connector))))
        "allowance step {step} metadata violates the approved policy"

  -- The test of the transaction of a step, read from left to right.
  unfoldable pub check_authorization : Transaction → Bool → Script → ℕ → ℕ → Result (Unit {0})
  check_authorization tx has_next hot_script monthly_limit expected_delay = do
    bail_if (tx.version != 2 || tx.lock_time != 0) wrong_authorization
    vault_input ← unwrap (get_elem? tx.input 0)
    bail_if (vault_input.sequence != expected_delay) wrong_authorization
    connector_input ← unwrap (get_elem? tx.input 1)
    bail_if
        (connector_input.sequence != lib.sequence_enable_rbf_no_locktime
          || length tx.output != (if has_next then 3 else 1))
        wrong_authorization
    release ← unwrap (get_elem? tx.output 0)
    bail_if (release.script_pubkey != hot_script || release.value != monthly_limit)
        wrong_authorization

  -- The branch of a step with a successor: the state for the next step.
  unfoldable pub check_continuing :
      AllowanceStep → Transaction → TxOut → ℕ → Script → Script → Result ChainState
  unfolding validate_connector_output checked_sub
  check_continuing allowance tx source_prevout monthly_limit vault_script controller_script = do
    next_value ←
        context
          (and_then (checked_sub source_prevout.value monthly_limit)
            (λ value. checked_sub value allowance.authorization.fee_sats))
          "allowance authorization exceeds its vault input"
    hop ← unwrap (get_elem? tx.output 1)
    bail_if
        (hop.script_pubkey != vault_script
          || (hop.value != next_value || ltb next_value (lib.minimal_non_dust vault_script)))
        "allowance step {step} does not create the approved next vault hop"
    next_output ← unwrap (get_elem? tx.output 2)
    validate_connector_output next_output controller_script
    let expected_next_connector = connector_at (lib.compute_txid tx) 2
    bail_if (allowance.next_connector != some expected_next_connector)
        "allowance step {step} connector metadata is discontinuous"
    ok (record {
      vault_outpoint = some (record { txid = lib.compute_txid tx; vout = 1 });
      vault_prevout = some hop;
      connector = some expected_next_connector;
    })

  -- The branch of the last step.
  unfoldable pub check_final : AllowanceStep → TxOut → ℕ → Result (Unit {0})
  unfolding checked_add
  check_final allowance source_prevout monthly_limit =
      bail_if
        (checked_add source_prevout.value connector_value_sats
            != checked_add monthly_limit allowance.authorization.fee_sats
          || allowance.next_connector != none)
        "final allowance does not consume its connector without creating another"

  module _ (config : VaultConfig) (manifest : BatchManifest) (files : Workspace)
      (policy : VaultPolicy) (controller : ControllerPolicy) where
    -- The body of the loop.
    unfoldable pub validate_step : ℕ → ChainState → ℕ → AllowanceStep → Result ChainState
    validate_step expected_delay state index allowance = do
      bail_if (leb 256 (index + 1)) "allowance step exceeds u8"
      let has_next = ltb (index + 1) manifest.allowance_count
      let vault_script = policy.address.script_pubkey
      let controller_script = controller.address.script_pubkey
      source ← take_source state
      check_step_metadata allowance (index + 1) source expected_delay
      network ← bitcoin_network config
      hot ← context (lib.parse_address allowance.hot_address network) "invalid hot address"
      psbt ← read_psbt lib files allowance.authorization.psbt_file
      validate_connector_child lib psbt source.prevout source.outpoint source.connector.outpoint
          controller_script allowance.authorization
      let tx = psbt.unsigned_tx
      check_authorization tx has_next hot.script_pubkey manifest.monthly_limit_sats expected_delay
      next ←
          if has_next
          then check_continuing allowance tx source.prevout manifest.monthly_limit_sats vault_script
              controller_script
          else (check_final allowance source.prevout manifest.monthly_limit_sats
              >> ok (record {
                vault_outpoint = state.vault_outpoint;
                vault_prevout = none;
                connector = none;
              }))
      expected_fee ← child_fee lib tx policy controller
      bail_if (allowance.authorization.fee_sats != expected_fee)
          "allowance transaction does not pay the approved fixed fee rate"
      ok next

    unfoldable pub validate_steps : ℕ → ChainState → ℕ → List AllowanceStep → Result (Unit {0})
    unfolding validate_step
    validate_steps expected_delay state index [] = ok tt
    validate_steps expected_delay state index (allowance ∷ allowances) = do
      next ← validate_step expected_delay state index allowance
      validate_steps expected_delay next (suc index) allowances

    -- The state before the first step: the rollover's outputs.
    unfoldable pub initial_chain : Psbt → Result ChainState
    initial_chain rollover = do
      let txid = lib.compute_txid rollover.unsigned_tx
      let connector : Option ConnectorState = elim manifest.monthly_connector_vout [
        | none ↦ none
        | some vout ↦ some (connector_at txid vout)
      ]
      if ltb 0 manifest.allowance_count
          then (do
            vout ← unwrap manifest.allowance_vout
            prevout ← unwrap (get_elem? rollover.unsigned_tx.output 0)
            ok (record {
              vault_outpoint = some (record { txid = txid; vout = vout });
              vault_prevout = some prevout;
              connector = connector;
            }))
          else ok (record { vault_outpoint = none; vault_prevout = none; connector = connector })

    unfoldable pub validate_allowances : Psbt → Result (Unit {0})
    unfolding validate_steps initial_chain
    validate_allowances rollover = do
      state ← initial_chain rollover
      expected_delay ← monthly_delay_sequence lib
      validate_steps expected_delay state 0 manifest.allowances
