-- ===== src/Recovery/Cooperative.antt =====
-- The sweep that both devices sign, as a package between them.
use anzen.Prelude.{
  ℕ, ◌*◌, String, Bool, true, false, not, ◌||◌, List, [], ◌∷◌, Result, ok, ◌>>=◌, ◌>>◌, bail_if,
  context, unwrap, ◌!=◌, nat_eq, string_eq, list_eq, length, get_elem?, any, checked_add,
  checked_sub,
}
use anzen.Constants.{default_fee_rate_sat_vb}
use anzen.Bitcoin.{Bitcoin, Script, Transaction, Psbt, PsbtInput, Address, Keypair}
use anzen.Storage.{VaultConfig, bitcoin_network}
use anzen.Policy.{VaultPolicy, vault_from_descriptor, cooperative as spend_cooperative}
use anzen.Transactions.Vsize.{estimate_vault_vsize}
use anzen.Transactions.Signing.{sign_vault_psbt, verify_vault_psbt_signature, finalize_vault_psbt}
use anzen.Transactions.Revocation.{VaultUtxo, is_empty}
use anzen.Recovery.Sweep.{SweepResult, cooperative, build_sweep_psbt}

pub record CooperativeSweepPackage : Type 0 where
  pub version : ℕ
  pub kind : String
  pub vault_descriptor : String
  pub destination : String
  pub psbt : String
  pub input_count : ℕ
  pub sent_sats : ℕ
  pub fee_sats : ℕ
  pub phone_approved : Bool
  pub hww_approved : Bool

-- The fold over the inputs of the sweep, from `total` on.
unfoldable pub sweep_sum_from : ℕ → List PsbtInput → Script → Result ℕ
unfolding checked_add
sweep_sum_from total [] vault_script = ok total
sweep_sum_from total (input ∷ inputs) vault_script = do
  prevout ← context input.witness_utxo "cooperative sweep input lacks witness UTXO"
  bail_if (prevout.script_pubkey != vault_script)
      "cooperative sweep input is outside the vault policy"
  next ← context (checked_add total prevout.value) "cooperative sweep input sum overflowed"
  sweep_sum_from next inputs vault_script

abbrev wrong_sweep : String
wrong_sweep = "cooperative sweep transaction does not match its package"

module _ (lib : Bitcoin) where
  -- The phone is its vault key pair.
  unfoldable pub create_cooperative_sweep :
      VaultConfig → List VaultUtxo → Address → Keypair → Result CooperativeSweepPackage
  create_cooperative_sweep config utxos destination phone = do
    network ← bitcoin_network config
    policy ← vault_from_descriptor lib config.vault_descriptor network
    bail_if (is_empty utxos) "vault has no confirmed UTXOs to sweep"
    (psbt, fee_sats, sent_sats) ← build_sweep_psbt lib policy utxos cooperative destination
    signed ← sign_vault_psbt lib psbt policy spend_cooperative phone
    ok (record {
      version = 1;
      kind = "cooperative-sweep";
      vault_descriptor = config.vault_descriptor;
      destination = destination.text;
      psbt = lib.psbt_to_string signed;
      input_count = length utxos;
      sent_sats = sent_sats;
      fee_sats = fee_sats;
      phone_approved = true;
      hww_approved = false;
    })

  -- The test of the transaction against its package, read from left to right.
  unfoldable pub check_sweep_form : CooperativeSweepPackage → Psbt → Script → Result (Unit {0})
  check_sweep_form sweep psbt destination_script = do
    let transaction = psbt.unsigned_tx
    bail_if
        (length transaction.input != sweep.input_count
          || (length psbt.inputs != sweep.input_count
              || (is_empty transaction.input
                  || (any (λ input. input.sequence != lib.sequence_max) transaction.input
                      || length transaction.output != 1))))
        wrong_sweep
    output ← unwrap (get_elem? transaction.output 0)
    bail_if (output.script_pubkey != destination_script || output.value != sweep.sent_sats)
        wrong_sweep

  -- The tests on the amounts and the fee.
  unfoldable pub check_sweep_amounts :
      CooperativeSweepPackage → Psbt → VaultPolicy → Result (Unit {0})
  unfolding checked_sub
  check_sweep_amounts sweep psbt policy = do
    input_sats ← sweep_sum_from 0 psbt.inputs policy.address.script_pubkey
    fee_sats ←
        context (checked_sub input_sats sweep.sent_sats)
          "cooperative sweep outputs exceed its inputs"
    size ← estimate_vault_vsize lib psbt.unsigned_tx policy spend_cooperative
    let expected_fee = size * default_fee_rate_sat_vb
    bail_if (fee_sats != sweep.fee_sats || fee_sats != expected_fee)
        "cooperative sweep fee does not match its package"

  unfoldable pub validate_cooperative_sweep :
      VaultConfig → CooperativeSweepPackage → Result (VaultPolicy × Psbt)
  validate_cooperative_sweep config sweep = do
    bail_if (sweep.version != 1 || (sweep.kind != "cooperative-sweep" || not sweep.phone_approved))
        "unsupported or unsigned cooperative sweep package"
    bail_if (sweep.vault_descriptor != config.vault_descriptor)
        "cooperative sweep package does not match the configured vault policy"
    network ← bitcoin_network config
    policy ← vault_from_descriptor lib config.vault_descriptor network
    destination ← context (lib.parse_address sweep.destination network) "invalid address"
    psbt ← context (lib.psbt_from_str sweep.psbt) "invalid cooperative sweep PSBT"
    check_sweep_form sweep psbt destination.script_pubkey
    check_sweep_amounts sweep psbt policy
    ok (policy, psbt)

  unfoldable pub finalize_cooperative_sweep :
      VaultConfig → CooperativeSweepPackage → Result (Transaction × SweepResult)
  finalize_cooperative_sweep config sweep = do
    bail_if (not sweep.phone_approved || not sweep.hww_approved)
        "both phone and HWW approval are required for a cooperative sweep"
    (policy, psbt) ← validate_cooperative_sweep config sweep
    phone_key ← context (lib.pubkey_from_str config.phone_vault_pubkey) "invalid public key"
    verify_vault_psbt_signature lib psbt policy spend_cooperative phone_key
    hww_key ← context (lib.pubkey_from_str config.hww_vault_pubkey) "invalid public key"
    verify_vault_psbt_signature lib psbt policy spend_cooperative hww_key
    transaction ← finalize_vault_psbt lib psbt
    ok (
      transaction,
      record {
        txid = lib.compute_txid transaction;
        input_count = sweep.input_count;
        sent_sats = sweep.sent_sats;
        fee_sats = sweep.fee_sats;
      },
    )
