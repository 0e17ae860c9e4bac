-- ===== src/HotWallet/Activate.antt =====
-- `activate_policy` of src/hot_wallet/mod.rs, in its order: the files of the new epoch are staged,
-- the rollover is broadcast, and then the schedule is replaced.
use anzen.Prelude.{ℕ, Option, none, some, List, [], ◌∷◌, context, nat_eq, ◌>>=◌ as ◌>>>◌}
use anzen.Bitcoin.{Bitcoin, Bytes, Txid, Transaction, Psbt}
use anzen.Constants.{monthly_allowance_delay_seconds}
use anzen.Keys.{Bip32}
use anzen.Crypto.{Ciphers, encrypt}
use anzen.Ceremony.Types.{BatchManifest, AllowanceStep, EmergencyAccessPolicy}
use anzen.Ceremony.Workspace.{Workspace, read_psbt}
use anzen.Ceremony.Schedule.{
  TransactionKind, authorization, EmergencyTransactionKind, trigger, withdrawal,
  approved_policy_file, rollover_file, allowance_file, emergency_file, epoch_schedule_file,
  epoch_file, ScheduleEntry, EmergencyAccessSchedule, Schedule,
}
use anzen.Ceremony.Package.{Formats, package_from_batch}
use anzen.HotWallet.World.{Io, ◌>>=◌, ◌>>◌, lift, return, write_private, draw, Backend}
use anzen.HotWallet.Names.{transaction_purpose, emergency_transaction_purpose, activation_purpose}

-- The parts of the system that an operation of the phone calls.
pub record Phone : Type 0 where
  pub lib : Bitcoin
  pub bip : Bip32
  pub ciphers : Ciphers
  pub formats : Formats
  pub backend : Backend
  pub random : ℕ → Bytes

module _ (phone : Phone) where
  unfoldable pub write_encrypted_transaction :
      Txid → Bytes → ℕ → TransactionKind → Psbt → Io (Unit {0})
  write_encrypted_transaction epoch phone_seed step kind psbt = do
    let txid = phone.lib.txid_to_string (phone.lib.compute_txid psbt.unsigned_tx)
    nonce ← draw phone.random
    encrypted_psbt ← lift (
        encrypt phone.ciphers nonce phone_seed (transaction_purpose step kind txid)
          (phone.formats.as_bytes (phone.lib.psbt_to_string psbt)))
    write_private (epoch_file epoch (allowance_file step kind)) (
        phone.formats.transaction_text (record {
          version = 3;
          step = step;
          kind = kind;
          txid = txid;
          encrypted_psbt = encrypted_psbt;
        }))

  -- Beside the write, the path and the transaction's id.
  unfoldable pub write_encrypted_emergency_transaction :
      Txid → Bytes → EmergencyTransactionKind → Psbt → Io (Unit {0})
  write_encrypted_emergency_transaction epoch phone_seed kind psbt = do
    let txid = phone.lib.compute_txid psbt.unsigned_tx
    let text = phone.lib.txid_to_string txid
    nonce ← draw phone.random
    encrypted_psbt ← lift (
        encrypt phone.ciphers nonce phone_seed (emergency_transaction_purpose kind text)
          (phone.formats.as_bytes (phone.lib.psbt_to_string psbt)))
    write_private (epoch_file epoch (emergency_file kind txid)) (
        phone.formats.emergency_text
          (record { version = 2; kind = kind; txid = text; encrypted_psbt = encrypted_psbt }))

  -- The loop over the allowances.
  unfoldable pub stage_allowances :
      Workspace → Txid → Bytes → List AllowanceStep → Io (List ScheduleEntry)
  unfolding write_encrypted_transaction
  stage_allowances batch epoch seed [] = return []
  stage_allowances batch epoch seed (allowance ∷ allowances) = do
    psbt ← lift (read_psbt phone.lib batch allowance.authorization.psbt_file)
    write_encrypted_transaction epoch seed allowance.step authorization psbt
    entries ← stage_allowances batch epoch seed allowances
    return (
        record {
          step = allowance.step;
          hot_address = allowance.hot_address;
          authorization_file = epoch_file epoch (allowance_file allowance.step authorization);
          authorization_txid = phone.lib.txid_to_string (phone.lib.compute_txid psbt.unsigned_tx);
          connector = allowance.connector;
          next_connector = allowance.next_connector;
        }
        ∷ entries)

  unfoldable pub stage_emergency :
      Workspace → Txid → Bytes → Option EmergencyAccessPolicy → Io (Option EmergencyAccessSchedule)
  unfolding write_encrypted_emergency_transaction
  stage_emergency batch epoch seed none = return none
  stage_emergency batch epoch seed (some emergency) = do
    trigger_psbt ← lift (read_psbt phone.lib batch emergency.trigger.psbt_file)
    withdrawal_psbt ← lift (read_psbt phone.lib batch emergency.withdrawal.psbt_file)
    let trigger_txid = phone.lib.compute_txid trigger_psbt.unsigned_tx
    let withdrawal_txid = phone.lib.compute_txid withdrawal_psbt.unsigned_tx
    write_encrypted_emergency_transaction epoch seed trigger trigger_psbt
    write_encrypted_emergency_transaction epoch seed withdrawal withdrawal_psbt
    return (
        some (record {
          amount_sats = emergency.amount_sats;
          delay_seconds = emergency.delay_seconds;
          hot_address = emergency.hot_address;
          trigger_file = epoch_file epoch (emergency_file trigger trigger_txid);
          trigger_txid = phone.lib.txid_to_string trigger_txid;
          withdrawal_file = epoch_file epoch (emergency_file withdrawal withdrawal_txid);
          withdrawal_txid = phone.lib.txid_to_string withdrawal_txid;
          trigger_connector = emergency.trigger_connector;
          withdrawal_connector = emergency.withdrawal_connector;
        }))

  -- The phone's encrypted copy of the signed batch, and the finalized rollover.
  unfoldable pub write_approval : Workspace → Transaction → Bytes → Io (Unit {0})
  write_approval batch rollover seed = do
    let epoch = phone.lib.compute_txid rollover
    bytes ← lift (
        package_from_batch phone.formats batch >>> λ approved.
        context (phone.formats.package_to_vec approved) "failed to serialize package")
    nonce ← draw phone.random
    backup ← lift (
        encrypt phone.ciphers nonce seed (activation_purpose (phone.lib.txid_to_string epoch))
          bytes)
    write_private (epoch_file epoch approved_policy_file) (phone.formats.blob_text backup)

  abbrev pub schedule_of :
      BatchManifest → Transaction → List ScheduleEntry → Option EmergencyAccessSchedule → Schedule
  schedule_of manifest rollover entries emergency_access = record {
    version = 5;
    rollover_txid = phone.lib.txid_to_string (phone.lib.compute_txid rollover);
    controller_descriptor = manifest.controller_descriptor;
    controller_address = manifest.controller_address;
    connector_value_sats = manifest.connector_value_sats;
    monthly_limit_sats = manifest.monthly_limit_sats;
    monthly_delay_seconds = monthly_allowance_delay_seconds;
    emergency_access_limit_sats = manifest.emergency_access_limit_sats;
    entries = entries;
    emergency_access = emergency_access;
  }

  -- The writes into the epoch's directory, and the schedule that they end with.
  unfoldable pub stage_epoch : Workspace → BatchManifest → Transaction → Bytes → Io Schedule
  unfolding write_approval stage_allowances stage_emergency
  stage_epoch batch manifest rollover seed = do
    let epoch = phone.lib.compute_txid rollover
    write_approval batch rollover seed
    write_private (epoch_file epoch rollover_file) (phone.formats.rollover_text rollover)
    entries ← stage_allowances batch epoch seed manifest.allowances
    emergency_access ← stage_emergency batch epoch seed manifest.emergency_access
    let schedule = schedule_of manifest rollover entries emergency_access
    write_private (epoch_file epoch epoch_schedule_file) (phone.formats.schedule_text schedule)
    return schedule
