-- ===== src/Samples/Batch.antt =====
-- A batch with two allowances and an emergency access.
use anzen.Prelude.{
  ℕ, String, true, false, none, some, List, [], ◌∷◌, ◌==◌, string_eq, if◌then◌else◌, ok, ◌≡◌, refl,
  option_eq, nat_eq, list_eq, checked_add, checked_sub,
}
use anzen.Bitcoin.{
  Bitcoin, OutPoint, TxOut, Transaction, PsbtInput, TapSignature, Psbt, txout_eq, outpoint_eq,
}
use anzen.Storage.{bitcoin_network}
use anzen.Policy.{
  VaultPolicy, vault_from_descriptor, controller_new, controller_descriptor_text, vault_leaf,
  controller_leaf, find_controller_leaf, find_vault_leaf, skips_vault_script,
}
use anzen.Transactions.Vsize.{estimate_policy_vsize, policy_witnesses}
use anzen.Transactions.Roles.{breaks_partition}
use anzen.Transactions.Signing.{check_sighashes}
use anzen.Transactions.Revocation.{unsigned_input, sum_from}
use anzen.Ceremony.Types.{BatchManifest, BatchTransaction, connector_eq, manifest_transactions}
use anzen.Ceremony.Workspace.{Workspace, read_psbt}
use anzen.Ceremony.Amounts.{output_sum}
use anzen.Ceremony.Templates.{
  output_of, rollover_template, authorization_template, emergency_trigger_template,
  emergency_withdrawal_template, child_fee,
}
use anzen.Ceremony.Validate.Parts.{
  check_child_inputs, check_child_amounts, validate_connector_child, validate_connector_output,
  validate_input_partition, psbt_role_input_sum, check_sequences, controller_policy,
}
use anzen.Ceremony.Validate.Allowances.{
  connector_at, take_source, check_step_metadata, check_authorization, check_continuing,
  check_final, validate_step, validate_steps, initial_chain, validate_allowances,
}
use anzen.Ceremony.Validate.Emergency.{
  select_emergency, check_emergency_metadata, check_trigger, check_withdrawal, validate_trigger,
  validate_withdrawal, validate_enabled, validate_connector_emergency,
}
use anzen.Ceremony.Validate.Rollover.{
  check_output_indexes, check_connector_vout, check_rollover_outputs, check_rollover_form,
  check_rollover_amounts, check_batch_sighashes, check_manifest, open_batch, check_batch,
  validate_batch,
}
use anzen.Samples.Toy.{toy_with, config, vault_address, controller_address}

abbrev at : ℕ → ℕ → OutPoint
at txid vout = record { txid = txid; vout = vout }

abbrev bare : Bitcoin
bare = toy_with (λ text. [])

abbrev signature_by : ℕ → TapSignature
signature_by key = record { signature = key ∷ 0 ∷ 13 ∷ []; sighash_type = 0 }

abbrev entry : TxOut → PsbtInput
entry prevout = record {
  witness_utxo = some prevout;
  sighash_type = some 0;
  tap_key_origins = [];
  tap_script_sigs = [];
}

-- An entry of the vault that both devices have signed.
abbrev signed_entry : TxOut → PsbtInput
signed_entry prevout = record (entry prevout) {
  tap_script_sigs = ((12, 13), signature_by 12) ∷ ((11, 13), signature_by 11) ∷ [];
}

abbrev to_vault : ℕ → TxOut
to_vault value = output_of value vault_address.script_pubkey

abbrev connector : TxOut
connector = output_of 1000 controller_address.script_pubkey

abbrev rollover_tx : Transaction
rollover_tx =
    rollover_template (unsigned_input (at 5 0) 0xffffffff ∷ []) (some 199280) 798590
      vault_address.script_pubkey controller_address.script_pubkey true true

abbrev first_tx : Transaction
first_tx =
    authorization_template bare (at 405 0) (at 405 2) 100000 4199367 (2 ∷ [])
      (some (99120, vault_address.script_pubkey)) controller_address.script_pubkey

abbrev second_tx : Transaction
second_tx =
    authorization_template bare (at 705 1) (at 705 2) 100000 4199367 (2 ∷ []) none
      controller_address.script_pubkey

abbrev sample_trigger : Transaction
sample_trigger =
    emergency_trigger_template bare (at 405 1) (at 405 3) 49120 749310 vault_address.script_pubkey
      controller_address.script_pubkey

abbrev sample_withdrawal : Transaction
sample_withdrawal = emergency_withdrawal_template bare (at 706 0) (at 706 2) 50000 4195486 (2 ∷ [])

abbrev psbt_of : Transaction → List PsbtInput → Psbt
psbt_of tx inputs = record { unsigned_tx = tx; inputs = inputs }

abbrev child : Transaction → ℕ → Psbt
child tx value = psbt_of tx (signed_entry (to_vault value) ∷ entry connector ∷ [])

abbrev psbts : List (String × Psbt)
psbts =
    ("rollover", psbt_of rollover_tx (signed_entry (to_vault 1000000) ∷ []))
    ∷ ("first", child first_tx 199280)
    ∷ ("second", child second_tx 99120)
    ∷ ("trigger", child sample_trigger 798590)
    ∷ ("withdrawal", child sample_withdrawal 49120)
    ∷ []

abbrev named : String → List (String × Psbt) → List (String × Psbt)
named text [] = []
named text ((name, psbt) ∷ rest) =
    let found = named text rest in if text == name then (name, psbt) ∷ [] else found

abbrev pub toy : Bitcoin
toy = toy_with (λ text. named text psbts)

abbrev pub files : Workspace
files =
    ("rollover.psbt", "rollover\n")
    ∷ ("allowances/01/authorization.psbt", "first\n")
    ∷ ("allowances/02/authorization.psbt", "second\n")
    ∷ ("emergency/trigger.psbt", "trigger\n")
    ∷ ("emergency/withdrawal.psbt", "withdrawal\n")
    ∷ []

abbrev entry_of : String → String → ℕ → BatchTransaction
entry_of file txid fee = record {
  psbt_file = file;
  unsigned_txid = txid;
  fee_sats = fee;
  vault_input_indexes = 0 ∷ [];
  controller_input_indexes = 1 ∷ [];
}

abbrev pub manifest : BatchManifest
manifest = record {
  version = 5;
  created_at = 0;
  network = "regtest";
  vault_descriptor = "vault";
  vault_address = "vault-address";
  controller_descriptor =
      "tr(50929b74c1a04954b78b4b6035e97a5e078a5a0f28ec96d547bfee9ace803ac0,{pk(phone),pk(hww)})";
  controller_address = "controller-address";
  connector_value_sats = 1000;
  monthly_limit_sats = 100000;
  emergency_access_limit_sats = 50000;
  fee_rate_sat_vb = 1;
  total_input_sats = 1000000;
  vault_input_sats = 1000000;
  controller_input_sats = 0;
  allowance_count = 2;
  rollover = record (entry_of "rollover.psbt" "405" 130) { controller_input_indexes = [] };
  allowance_vout = some 0;
  allowance_value_sats = 199280;
  remainder_vout = 1;
  remainder_value_sats = 798590;
  monthly_connector_vout = some 2;
  emergency_connector_vout = some 3;
  allowances =
      record {
        step = 1;
        delay_seconds = 2592256;
        delay_sequence = 4199367;
        chain_value_sats = 199280;
        hot_address = "hot";
        connector = connector_at 405 2;
        next_connector = some (connector_at 705 2);
        authorization = entry_of "allowances/01/authorization.psbt" "705" 160;
      }
      ∷ record {
        step = 2;
        delay_seconds = 2592256;
        delay_sequence = 4199367;
        chain_value_sats = 99120;
        hot_address = "hot";
        connector = connector_at 705 2;
        next_connector = none;
        authorization = entry_of "allowances/02/authorization.psbt" "806" 120;
      }
      ∷ [];
  emergency_access = some (record {
    amount_sats = 50000;
    delay_seconds = 605184;
    delay_sequence = 4195486;
    hot_address = "hot";
    staging_vout = 0;
    staging_value_sats = 49120;
    vault_change_vout = 1;
    vault_change_value_sats = 749310;
    trigger_connector = connector_at 405 3;
    withdrawal_connector = connector_at 706 2;
    trigger = entry_of "emergency/trigger.psbt" "706" 160;
    withdrawal = entry_of "emergency/withdrawal.psbt" "806" 120;
  });
  phone_approved = true;
  hww_approved = true;
}

abbrev pub policy : VaultPolicy
policy = record { descriptor = "vault"; address = vault_address }

-- Every function that the check of a batch calls.
unfoldable pub run_validate : BatchManifest → anzen.Prelude.Result VaultPolicy
unfolding validate_batch open_batch check_batch check_manifest check_batch_sighashes
    check_rollover_amounts check_rollover_form check_rollover_outputs check_connector_vout
    check_output_indexes validate_connector_emergency validate_enabled validate_withdrawal
    validate_trigger check_withdrawal check_trigger check_emergency_metadata select_emergency
    validate_allowances initial_chain validate_steps validate_step check_final check_continuing
    check_authorization check_step_metadata take_source controller_policy check_sequences
    psbt_role_input_sum validate_input_partition validate_connector_output validate_connector_child
    check_child_amounts check_child_inputs child_fee output_sum read_psbt manifest_transactions
    connector_eq sum_from check_sighashes breaks_partition policy_witnesses estimate_policy_vsize
    controller_leaf vault_leaf find_controller_leaf find_vault_leaf skips_vault_script
    controller_descriptor_text controller_new vault_from_descriptor bitcoin_network outpoint_eq
    txout_eq checked_sub checked_add list_eq nat_eq option_eq string_eq
run_validate m = validate_batch toy config m files

pub accepted : validate_batch toy config manifest files ≡ ok policy
unfolding run_validate
accepted = refl
