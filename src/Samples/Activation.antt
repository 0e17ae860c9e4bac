-- ===== src/Samples/Activation.antt =====
-- A phone that activates the sample batch while an older epoch is the active one.
use Prim.Native.Char.{code}
use anzen.Prelude.{
  ℕ, ◌≡◌, ◌≢◌, refl, sym, ap, subst, ◌∙◌, String, Option, none, some, [], ◌∷◌, Result, ok, ◌==◌,
  nat_eq, string_eq, if◌then◌else◌, arith,
}
use anzen.Bitcoin.{Transaction, regtest, network_eq, key_leaf_eq}
use anzen.Storage.{VaultConfig, bitcoin_network, parse_network_name}
use anzen.Crypto.{encrypt, derive_key}
use anzen.Keys.{parse_for_network_at_index}
use anzen.Transactions.Signing.{
  finalize_vault_psbt, verify_vault_psbt_signatures, verify_inputs, verify_input,
}
use anzen.Ceremony.Types.{BatchManifest, ConnectorState}
use anzen.Ceremony.Workspace.{Workspace}
use anzen.Ceremony.Approved.{
  finalize_inputs, check_approved_transaction, check_approved_transactions, validate_approved_batch,
}
use anzen.Ceremony.Schedule.{
  json_config, json_schedule, json_device, json_transaction, json_emergency, json_text,
  authorization, trigger, withdrawal, schedule_file, config_file, phone_device_file, epoch_file,
  allowance_file, emergency_file, Schedule,
}
use anzen.Ceremony.Package.{Formats, load_manifest, package_from_batch, collect_psbts, insert_psbt}
use anzen.HotWallet.World.{
  World, ◌>>=◌, lift, context_of, write_private, exists, fs_read, draw, broadcast,
}
use anzen.HotWallet.Files.{
  read_json, config_path, load_config, set_policy_limits, load_schedule, load_device_keys,
  ensure_backend_network,
}
use anzen.HotWallet.Activate.{
  Phone, write_encrypted_transaction, write_encrypted_emergency_transaction, stage_allowances,
  stage_emergency, write_approval, stage_epoch,
}
use anzen.HotWallet.Commit.{
  rollover_of, previous_epoch, archive_previous, commit_epoch, broadcast_rollover, check_activation,
  activate_policy,
}
use anzen.HotWallet.Finishes.{Seals}
use anzen.Samples.Unary.{encode_number, number_from, number_from-encode_number}
use anzen.Samples.Toy.{config, txid_text}
use anzen.Samples.Batch.{toy, files, manifest, run_validate}
use anzen.Samples.Keys.{bip, run_keys}
use anzen.Samples.Backup.{ciphers}

abbrev txid_of_text : String → Option ℕ
txid_of_text text = elim (number_from text) [
  | some n ↦ some n
  | none ↦
      if text == "405"
      then some 405
      else if text == "705"
      then some 705
      else if text == "706"
      then some 706
      else if text == "806"
      then some 806
      else none
]

-- A manifest of the epoch that is active before.
abbrev pub old_manifest : BatchManifest
old_manifest = record manifest {
  rollover = record {
    psbt_file = "allowances/01/authorization.psbt";
    unsigned_txid = "705";
    fee_sats = 160;
    vault_input_indexes = [];
    controller_input_indexes = [];
  };
}

abbrev formats : Formats
formats = record {
  config_text = json_config;
  config_from = λ json. elim json [ json_config c ↦ some c | _ ↦ none ];
  schedule_text = json_schedule;
  schedule_from = λ json. elim json [ json_schedule s ↦ some s | _ ↦ none ];
  device_text = json_device;
  device_from = λ json. elim json [ json_device d ↦ some d | _ ↦ none ];
  manifest_from = λ text.
      if text == "manifest"
      then some manifest
      else if text == "old"
      then some old_manifest
      else none;
  package_to_vec = λ approval. some (approval.version ∷ []);
  package_from_slice = λ bytes. none;
  blob_text = λ blob. json_text blob.purpose;
  rollover_text = λ tx. json_text (txid_text (toy.compute_txid tx));
  transaction_text = json_transaction;
  transaction_from = λ json. elim json [ json_transaction t ↦ some t | _ ↦ none ];
  emergency_text = json_emergency;
  emergency_from = λ json. elim json [ json_emergency t ↦ some t | _ ↦ none ];
  true_text = json_text "true";
  txid_from_str = txid_of_text;
  as_bytes = λ text. [];
  from_utf8 = λ bytes. some "";
}

abbrev pub phone : Phone
phone = record {
  lib = toy;
  bip = bip;
  ciphers = ciphers;
  formats = formats;
  backend = record { network = regtest; broadcast = λ sent tx. ok (toy.compute_txid tx) };
  random = λ n. n ∷ [];
}

abbrev pub batch : Workspace
batch = ("manifest.json", "manifest") ∷ files

abbrev pub old_batch : Workspace
old_batch = ("manifest.json", "old") ∷ files

abbrev old_schedule : Schedule
old_schedule = record {
  version = 5;
  rollover_txid = "705";
  controller_descriptor = "";
  controller_address = "";
  connector_value_sats = 1000;
  monthly_limit_sats = 1;
  monthly_delay_seconds = 2592256;
  emergency_access_limit_sats = 0;
  entries = [];
  emergency_access = none;
}

abbrev pub world : World
world = record {
  files =
      (config_file, json_config config)
      ∷ (
        phone_device_file,
        json_device (record {
          kind = "phone";
          network = "regtest";
          mnemonic = "words";
          vault_key_index = 3;
        }),
      )
      ∷ (schedule_file, json_schedule old_schedule)
      ∷ [];
  broadcasts = [];
  outcomes = [];
  drawn = 0;
}

-- Every function that the proofs below run.
run_activation : Result Schedule
unfolding run_validate run_keys check_approved_transactions check_approved_transaction
    finalize_inputs verify_vault_psbt_signatures verify_inputs verify_input key_leaf_eq encrypt
    derive_key parse_for_network_at_index finalize_vault_psbt load_manifest package_from_batch
    collect_psbts insert_psbt ◌>>=◌ lift context_of write_private exists fs_read draw broadcast
    read_json config_path load_config set_policy_limits load_schedule load_device_keys
    ensure_backend_network write_encrypted_transaction write_encrypted_emergency_transaction
    stage_allowances stage_emergency write_approval stage_epoch rollover_of previous_epoch
    archive_previous commit_epoch broadcast_rollover check_activation activate_policy network_eq
    validate_approved_batch bitcoin_network parse_network_name string_eq nat_eq
run_activation = (activate_policy phone batch world).1

abbrev connector_at : ℕ → ℕ → ConnectorState
connector_at txid vout = record {
  outpoint = record { txid = txid; vout = vout };
  value_sats = 1000;
}

abbrev pub schedule : Schedule
schedule = record {
  version = 5;
  rollover_txid = "405";
  controller_descriptor = manifest.controller_descriptor;
  controller_address = manifest.controller_address;
  connector_value_sats = 1000;
  monthly_limit_sats = 100000;
  monthly_delay_seconds = 2592256;
  emergency_access_limit_sats = 50000;
  entries =
      record {
        step = 1;
        hot_address = "hot";
        authorization_file = epoch_file 405 (allowance_file 1 authorization);
        authorization_txid = "705";
        connector = connector_at 405 2;
        next_connector = some (connector_at 705 2);
      }
      ∷ record {
        step = 2;
        hot_address = "hot";
        authorization_file = epoch_file 405 (allowance_file 2 authorization);
        authorization_txid = "806";
        connector = connector_at 705 2;
        next_connector = none;
      }
      ∷ [];
  emergency_access = some (record {
    amount_sats = 50000;
    delay_seconds = 605184;
    hot_address = "hot";
    trigger_file = epoch_file 405 (emergency_file trigger 706);
    trigger_txid = "706";
    withdrawal_file = epoch_file 405 (emergency_file withdrawal 806);
    withdrawal_txid = "806";
    trigger_connector = connector_at 405 3;
    withdrawal_connector = connector_at 706 2;
  });
}

pub activated : (activate_policy phone batch world).1 ≡ ok schedule
unfolding run_activation
activated = refl

pub old_loaded : load_manifest phone.formats old_batch ≡ ok old_manifest
unfolding run_activation
old_loaded = refl

abbrev pub old_rollover : Transaction
old_rollover = elim (toy.psbt_from_str "first") [
  | none ↦ record { version = 0; lock_time = 0; input = []; output = [] }
  | some psbt ↦ psbt.unsigned_tx
]

pub old_finalized : rollover_of phone old_manifest old_batch ≡ ok old_rollover
unfolding run_activation
old_finalized = refl

pub old_active : (previous_epoch phone world).1 ≡ ok (some (toy.compute_txid old_rollover))
unfolding run_activation
old_active = refl

txid_of_text-number :
    (text : String) (n : ℕ) → number_from text ≡ some n → txid_of_text text ≡ some n
txid_of_text-number text n found = ground arith

abbrev ReadsBack : ℕ → Type 0
ReadsBack txid = txid_of_text (txid_text txid) ≡ Option.some txid

named-ReadsBack : ReadsBack 405 × ReadsBack 705 × ReadsBack 706 × ReadsBack 806
unfolding string_eq nat_eq
named-ReadsBack = (refl, refl, refl, refl)

pub txids-read :
    (txid : ℕ) → phone.formats.txid_from_str (phone.lib.txid_to_string txid) ≡ some txid
txids-read txid = elim (nat_eq.dec txid 405) [
  | yes p ↦ subst ReadsBack (sym p) named-ReadsBack.0
  | no p ↦ elim (nat_eq.dec txid 705) [
    | yes q ↦ subst ReadsBack (sym q) named-ReadsBack.1
    | no q ↦ elim (nat_eq.dec txid 706) [
      | yes r ↦ subst ReadsBack (sym r) named-ReadsBack.2
      | no r ↦ elim (nat_eq.dec txid 806) [
        | yes s ↦ subst ReadsBack (sym s) named-ReadsBack.3
        | no s ↦
            let plain : txid_text txid ≡ encode_number txid String.[] = grind arith in
            ap txid_of_text plain ∙ txid_of_text-number _ txid (number_from-encode_number txid)
      ]
    ]
  ]
]

pub schedules-read :
    (s : Schedule) → phone.formats.schedule_from (phone.formats.schedule_text s) ≡ some s
schedules-read s = refl

pub configs-read :
    (c : VaultConfig) → phone.formats.config_from (phone.formats.config_text c) ≡ some c
configs-read c = refl

pub ciphers-Seals : Seals ciphers
ciphers-Seals = (λ seed purpose. (seed, refl), λ key nonce plaintext. (_, refl))

abbrev first_code : String → ℕ
first_code String.[] = 0
first_code (String.◌∷◌ c text) = code c

pub other_epoch :
    schedule.rollover_txid ≢ phone.lib.txid_to_string (phone.lib.compute_txid old_rollover)
unfolding nat_eq string_eq
other_epoch same = let differ : ◌≡◌ {A = ℕ} 52 55 = ap first_code same in absurd (omega arith)
