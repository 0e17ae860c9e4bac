-- ===== src/Ceremony/Validate/Parts.antt =====
-- The checks that the parts of a batch share.
use anzen.Prelude.{
  ℕ, String, not, ◌||◌, some, List, [], ◌∷◌, Result, ok, ◌>>=◌, ◌>>◌, bail_if, context, unwrap,
  ◌!=◌, nat_eq, string_eq, list_eq, option_eq, length, get_elem?, checked_add, checked_sub,
}
use anzen.Constants.{connector_value_sats}
use anzen.Bitcoin.{Bitcoin, Script, OutPoint, TxOut, TxIn, PsbtInput, Psbt, txout_eq, outpoint_eq}
use anzen.Storage.{VaultConfig, bitcoin_network}
use anzen.Policy.{ControllerPolicy, controller_new}
use anzen.Transactions.Roles.{breaks_partition}
use anzen.Transactions.Revocation.{is_empty}
use anzen.Ceremony.Types.{BatchTransaction}
use anzen.Ceremony.Amounts.{output_sum}

unfoldable pub validate_connector_output : TxOut → Script → Result (Unit {0})
validate_connector_output output controller_script =
    bail_if (output.script_pubkey != controller_script || output.value != connector_value_sats)
      "connector output violates the fixed controller script or value"

unfoldable pub validate_input_partition : ℕ → List ℕ → List ℕ → Result (Unit {0})
unfolding breaks_partition
validate_input_partition input_count vault_indexes controller_indexes =
    bail_if (breaks_partition input_count vault_indexes controller_indexes)
      "policy input roles do not form an exact input partition"

-- The fold of `psbt_role_input_sum`, from `sum` on.
unfoldable pub role_sum_from : List PsbtInput → ℕ → List ℕ → Script → Result ℕ
unfolding checked_add
role_sum_from inputs sum [] expected_script = ok sum
role_sum_from inputs sum (index ∷ indexes) expected_script = do
  input ← unwrap (get_elem? inputs index)
  prevout ← context input.witness_utxo "{label} input lacks witness UTXO"
  bail_if (prevout.script_pubkey != expected_script) "{label} input uses an unexpected script"
  next ← context (checked_add sum prevout.value) "{label} input sum overflowed"
  role_sum_from inputs next indexes expected_script

unfoldable pub psbt_role_input_sum : Psbt → List ℕ → Script → Result ℕ
unfolding role_sum_from
psbt_role_input_sum psbt indexes expected_script =
    role_sum_from psbt.inputs 0 indexes expected_script

-- `indexes.iter().any(|index| inputs[*index].sequence != expected)`
unfoldable pub check_sequences : List TxIn → List ℕ → ℕ → String → Result (Unit {0})
check_sequences inputs [] expected message = ok tt
check_sequences inputs (index ∷ indexes) expected message = do
  input ← unwrap (get_elem? inputs index)
  bail_if (input.sequence != expected) message
  check_sequences inputs indexes expected message

module _ (lib : Bitcoin) where
  unfoldable pub controller_policy : VaultConfig → Result ControllerPolicy
  controller_policy config = do
    phone ←
        context (lib.pubkey_from_str config.phone_vault_pubkey) "invalid configured phone vault key"
    hww ← context (lib.pubkey_from_str config.hww_vault_pubkey) "invalid configured HWW vault key"
    network ← bitcoin_network config
    controller_new lib phone hww network

  abbrev wrong_inputs : String
  wrong_inputs = "policy PSBT does not spend its assigned vault and unsigned connector outputs"

  -- The first test of `validate_connector_child`, read from left to right.
  unfoldable pub check_child_inputs :
      Psbt → TxOut → OutPoint → OutPoint → BatchTransaction → Result (Unit {0})
  check_child_inputs psbt vault_prevout vault_outpoint connector_outpoint manifest_tx = do
    let tx = psbt.unsigned_tx
    bail_if
        (manifest_tx.vault_input_indexes != 0 ∷ []
          || (manifest_tx.controller_input_indexes != 1 ∷ []
              || (lib.txid_to_string (lib.compute_txid tx) != manifest_tx.unsigned_txid
                  || (length tx.input != 2 || length psbt.inputs != 2))))
        wrong_inputs
    vault_input ← unwrap (get_elem? tx.input 0)
    bail_if (vault_input.previous_output != vault_outpoint) wrong_inputs
    vault_entry ← unwrap (get_elem? psbt.inputs 0)
    bail_if (vault_entry.witness_utxo != some vault_prevout) wrong_inputs
    connector_input ← unwrap (get_elem? tx.input 1)
    bail_if (connector_input.previous_output != connector_outpoint) wrong_inputs
    connector_entry ← unwrap (get_elem? psbt.inputs 1)
    bail_if (not (is_empty connector_entry.tap_script_sigs)) wrong_inputs

  -- The rest of `validate_connector_child`.
  unfoldable pub check_child_amounts : Psbt → TxOut → Script → BatchTransaction → Result (Unit {0})
  unfolding checked_add checked_sub
  check_child_amounts psbt vault_prevout controller_script manifest_tx = do
    connector_entry ← unwrap (get_elem? psbt.inputs 1)
    connector_prevout ←
        context connector_entry.witness_utxo "policy connector input lacks witness UTXO"
    bail_if
        (connector_prevout.script_pubkey != controller_script
          || connector_prevout.value != connector_value_sats)
        "policy PSBT connector input violates the fixed controller policy"
    input ←
        context (checked_add vault_prevout.value connector_value_sats)
          "policy transaction input sum overflowed"
    outputs ← output_sum psbt.unsigned_tx
    fee ← context (checked_sub input outputs) "policy transaction outputs exceed inputs"
    bail_if (fee != manifest_tx.fee_sats) "policy transaction fee does not match its manifest"

  unfoldable pub validate_connector_child :
      Psbt → TxOut → OutPoint → OutPoint → Script → BatchTransaction → Result (Unit {0})
  validate_connector_child psbt vault_prevout vault_outpoint connector_outpoint controller_script
        manifest_tx =
      do
        check_child_inputs psbt vault_prevout vault_outpoint connector_outpoint manifest_tx
        check_child_amounts psbt vault_prevout controller_script manifest_tx
