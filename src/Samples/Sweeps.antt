-- ===== src/Samples/Sweeps.antt =====
-- A sweep that both devices sign, a sweep of the phone alone, a rotation and a revocation.
use anzen.Prelude.{
  ℕ, true, some, [], ◌∷◌, Result, ok, ◌==◌, ◌≡◌, refl, string_eq, nat_eq, list_eq, option_eq,
  if◌then◌else◌, checked_add, checked_sub, checked_mul, saturating_add,
}
use anzen.Bitcoin.{
  Bitcoin, Address, TxOut, Transaction, PsbtInput, Psbt, TapSignature, key_leaf_eq, outpoint_eq,
  txout_eq,
}
use anzen.Storage.{bitcoin_network}
use anzen.Policy.{
  ControllerPolicy, cooperative as spend_cooperative, vault_from_descriptor, vault_leaf,
  controller_leaf, find_vault_leaf, find_controller_leaf, skips_vault_script,
}
use anzen.Transactions.Vsize.{estimate_vault_vsize, estimate_controller_vsize}
use anzen.Transactions.Construct.{fill_inputs, create_vault_psbt, create_controller_psbt}
use anzen.Transactions.Signing.{
  sign_vault_psbt, verify_vault_psbt_signature, finalize_vault_psbt, check_sighashes, sign_inputs,
  sign_input, verify_inputs, verify_input,
}
use anzen.Transactions.Revocation.{
  VaultUtxo, build_controller_revocation_psbt, unsigned_input, transaction_of, sum_from,
}
use anzen.Ceremony.Templates.{output_of}
use anzen.Recovery.Sweep.{
  SweepPlan, SweepResult, phone_recovery, prepare_sweep, build_sweep_psbt, sweep_transaction,
  cooperative, mature_utxos,
}
use anzen.Recovery.Cooperative.{
  CooperativeSweepPackage, validate_cooperative_sweep, finalize_cooperative_sweep, sweep_sum_from,
  check_sweep_form, check_sweep_amounts,
}
use anzen.Recovery.Rotation.{
  PolicyPackage, policy_package_kind, validate_rotation_policy_binding, check_chained,
}
use anzen.Samples.Toy.{toy_with, config, vault_address, controller_address, blank_input}
use anzen.Samples.Batch.{manifest, policy}

abbrev pub destination : Address
destination = record { text = "destination"; script_pubkey = 2 ∷ [] }

abbrev pub utxo : VaultUtxo
utxo = record {
  outpoint = record { txid = 5; vout = 0 };
  txout = output_of 100000 vault_address.script_pubkey;
  confirmation_height = 100;
}

abbrev bare : Bitcoin
bare = toy_with (λ text. [])

abbrev filled : TxOut → PsbtInput
filled prevout = record blank_input { witness_utxo = some prevout; sighash_type = some 0 }

abbrev signature_by : ℕ → TapSignature
signature_by key = record { signature = key ∷ 0 ∷ 13 ∷ []; sighash_type = 0 }

abbrev pub unsigned : Psbt
unsigned = record {
  unsigned_tx = sweep_transaction bare (utxo ∷ []) cooperative destination 99930;
  inputs = filled utxo.txout ∷ [];
}

abbrev pub signed_once : Psbt
signed_once = record unsigned {
  inputs = record (filled utxo.txout) { tap_script_sigs = ((11, 13), signature_by 11) ∷ [] } ∷ [];
}

abbrev pub signed : Psbt
signed = record unsigned {
  inputs =
      record (filled utxo.txout) {
        tap_script_sigs = ((12, 13), signature_by 12) ∷ ((11, 13), signature_by 11) ∷ [];
      }
      ∷ [];
}

abbrev pub renewal : Psbt
renewal = record {
  unsigned_tx =
      transaction_of (unsigned_input (record { txid = 105; vout = 0 }) 0xffffffff ∷ []) [];
  inputs = filled (output_of 99930 (2 ∷ [])) ∷ [];
}

abbrev pub toy : Bitcoin
toy = toy_with λ text.
    if text == "sweep"
    then ("sweep", signed) ∷ []
    else if text == "renewal"
    then ("renewal", renewal) ∷ []
    else []

abbrev pub sweep : CooperativeSweepPackage
sweep = record {
  version = 1;
  kind = "cooperative-sweep";
  vault_descriptor = "vault";
  destination = "destination";
  psbt = "sweep";
  input_count = 1;
  sent_sats = 99930;
  fee_sats = 70;
  phone_approved = true;
  hww_approved = true;
}

abbrev pub result : SweepResult
result = record { txid = 105; input_count = 1; sent_sats = 99930; fee_sats = 70 }

abbrev pub renewed : PolicyPackage
renewed = record {
  version = 5;
  kind = policy_package_kind;
  manifest = manifest;
  psbts = ("rollover.psbt", "renewal") ∷ [];
}

abbrev pub plan : SweepPlan
plan = record {
  policy = policy;
  psbt = record {
    unsigned_tx = sweep_transaction bare (utxo ∷ []) phone_recovery destination 99930;
    inputs = filled utxo.txout ∷ [];
  };
  input_count = 1;
  sent_sats = 99930;
  fee_sats = 70;
}

abbrev pub controller : ControllerPolicy
controller = record {
  descriptor = "controller";
  address = controller_address;
  phone_key = 11;
  hww_key = 12;
}

abbrev pub connector : VaultUtxo
connector = record {
  outpoint = record { txid = 405; vout = 2 };
  txout = output_of 1000 controller_address.script_pubkey;
  confirmation_height = 100;
}

abbrev pub revocation : Psbt
revocation = record {
  unsigned_tx =
      transaction_of (unsigned_input connector.outpoint 0xfffffffd ∷ [])
        (output_of 930 (2 ∷ []) ∷ []);
  inputs = filled connector.txout ∷ [];
}

-- Every function that the proofs below run.
run_sweep : Result (Transaction × SweepResult)
unfolding finalize_cooperative_sweep validate_cooperative_sweep check_sweep_form check_sweep_amounts
    sweep_sum_from prepare_sweep build_sweep_psbt mature_utxos validate_rotation_policy_binding
    check_chained build_controller_revocation_psbt create_vault_psbt create_controller_psbt
    fill_inputs sign_vault_psbt sign_inputs sign_input verify_vault_psbt_signature verify_inputs
    verify_input finalize_vault_psbt check_sighashes estimate_vault_vsize estimate_controller_vsize
    controller_leaf vault_leaf find_controller_leaf find_vault_leaf skips_vault_script
    vault_from_descriptor bitcoin_network sum_from key_leaf_eq outpoint_eq txout_eq checked_sub
    checked_add checked_mul saturating_add list_eq nat_eq option_eq string_eq
run_sweep = finalize_cooperative_sweep toy config sweep

pub signs : sign_vault_psbt toy unsigned policy spend_cooperative 11 ≡ ok signed_once
unfolding run_sweep
signs = refl

pub verifies : verify_vault_psbt_signature toy signed policy spend_cooperative 12 ≡ ok tt
unfolding run_sweep
verifies = refl

pub validated : validate_cooperative_sweep toy config sweep ≡ ok (policy, signed)
unfolding run_sweep
validated = refl

pub finalized : finalize_cooperative_sweep toy config sweep ≡ ok (signed.unsigned_tx, result)
unfolding run_sweep
finalized = refl

pub bound : validate_rotation_policy_binding toy config config sweep renewed ≡ ok tt
unfolding run_sweep
bound = refl

pub prepared : prepare_sweep toy config (utxo ∷ []) 61299 phone_recovery destination ≡ ok plan
unfolding run_sweep
prepared = refl

pub revoked :
    build_controller_revocation_psbt toy (connector ∷ []) destination.script_pubkey 1 controller
    ≡ ok (revocation, 70)
unfolding run_sweep
revoked = refl
